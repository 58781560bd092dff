-- ===== src/Privacy/Refusals.antt =====
-- classify.ts: when the hints and the owner of a copy forbid that it is recorded.
use copy_clipboard_app.Base.{
  ℕ, suc, Text, text_eq, text_eq→eq, text_eq_refl, ◌≡◌, ◌≢◌, refl, sym, ap, subst, ◌⊎◌, Bool, true,
  false, inl, inr, Option, none, some, List, [], ◌∷◌, arith, ltb, any, includes, All, length,
  if◌then◌else◌, Bool-cases,
}
use copy_clipboard_app.Protocol.Types.{Snapshot, PasteboardHint, SourceApp}
use copy_clipboard_app.Privacy.Classify.{
  PrivacyRules, is_skip_hint, should_skip_on_hints, bundle_id, is_excluded,
}

-- If the hints are honoured, none says that the copy is concealed or of a password manager.
abbrev pub HintsAllow : Snapshot → PrivacyRules → Type 0
HintsAllow s rules =
    rules.honour_hints ≡ true
    → All (λ h. (h ≢ PasteboardHint.concealed) × (h ≢ PasteboardHint.password_manager)) s.hints

-- The owner of the copy is known by its bundle identifier, which is none of these.
pub record IsKnownApart (owner : Option SourceApp) (excluded : List Text) : Type 0 where
  pub app : SourceApp
  pub id : Text
  pub owned : owner ≡ some app
  pub named : app.bundle_id ≡ some id
  pub apart : All (λ e. e ≢ id) excluded

-- No application is excluded, or the owner is known not to be one of those that are.
abbrev pub OwnerAllows : Option SourceApp → List Text → Type 0
OwnerAllows owner excluded = (excluded ≡ []) ⊎ IsKnownApart owner excluded

-- A test that holds refutes the statement, and one that fails proves it.
abbrev pub Refutes : Bool → Type 0 → Type 0
Refutes true P = P → ⊥
Refutes false P = P

module _ (P : Type 0) where
  pub refuted : (b : Bool) → b ≡ true → Refutes b P → P → ⊥
  refuted true e h = h
  refuted false e h = cc

  pub proved : (b : Bool) → b ≡ false → Refutes b P → P
  proved true e h = cc
  proved false e h = h

  Refutes-and : (Q : Type 0) (b : Bool) → P → Refutes b Q → Refutes b (P × Q)
  Refutes-and Q true p q = λ h. q h.1
  Refutes-and Q false p q = (p, q)

Refutes-or : (P Q : Type 0) (b : Bool) → (P → ⊥) → Refutes b Q → Refutes b (P ⊎ Q)
Refutes-or P Q true p q = λ h. elim h [ inl a ↦ p a | inr a ↦ q a ]
Refutes-or P Q false p q = inr q

pub ltb-suc : (n : ℕ) → ltb 0 (suc n) ≡ true
ltb-suc n = ground arith

abbrev IsOpenHint : PasteboardHint → Type 0
IsOpenHint h = (h ≢ PasteboardHint.concealed) × (h ≢ PasteboardHint.password_manager)

hints_lem : (hints : List PasteboardHint) → Refutes (any is_skip_hint hints) (All IsOpenHint hints)
hints_lem [] = tt
hints_lem (PasteboardHint.concealed ∷ hints) = λ a. a.0.0 refl
hints_lem (PasteboardHint.password_manager ∷ hints) = λ a. a.0.1 refl
hints_lem (PasteboardHint.transient ∷ hints) =
    Refutes-and (IsOpenHint PasteboardHint.transient) (All IsOpenHint hints)
      (any is_skip_hint hints) (λ e. cc, λ e. cc) (hints_lem hints)
hints_lem (PasteboardHint.auto_generated ∷ hints) =
    Refutes-and (IsOpenHint PasteboardHint.auto_generated) (All IsOpenHint hints)
      (any is_skip_hint hints) (λ e. cc, λ e. cc) (hints_lem hints)

pub should_skip_on_hints_lem :
    (s : Snapshot) (rules : PrivacyRules)
    → Refutes (should_skip_on_hints s.hints rules) (HintsAllow s rules)
should_skip_on_hints_lem s rules = elim (Bool-cases rules.honour_hints) [
  | inl e ↦ elim (Bool-cases (any is_skip_hint s.hints)) [
    | inl f ↦ rw (e, f) (λ a. refuted (All IsOpenHint s.hints) _ f (hints_lem s.hints) (a refl))
    | inr f ↦ rw (e, f) (λ h. proved (All IsOpenHint s.hints) _ f (hints_lem s.hints))
  ]
  | inr e ↦ rw e (λ h. cc)
]

abbrev Apart : Text → List Text → Type 0
Apart id ids = All (λ e. e ≢ id) ids

includes_lem : (id : Text) (ids : List Text) → Refutes (includes id ids) (Apart id ids)
unfolding includes
includes_lem id [] = tt
includes_lem id (j ∷ ids) = elim (Bool-cases (text_eq j id)) [
  | inl e ↦ rw e (λ a. a.0 (text_eq→eq j id e))
  | inr e ↦ rw e (
      Refutes-and (j ≢ id) (Apart id ids) (includes id ids)
        (λ d. cc (e, sym (text_eq_refl id), ap (λ k. text_eq k id) d)) (includes_lem id ids))
]

-- The owner of the copy is excluded by a rule, or not known while there is one.
abbrev pub is_refused : Option SourceApp → List Text → Bool
is_refused owner ids = if ltb 0 (length ids) then is_excluded (bundle_id owner) ids else false

-- The owner is known exactly if its bundle identifier is.
named :
    (owner : Option SourceApp) (id : Text)
    → bundle_id owner ≡ some id
    → (app : SourceApp) × (owner ≡ some app) × (app.bundle_id ≡ some id)
named none id e = cc
named (some app) id e = (app, refl, e)

is_excluded_lem :
    (owner : Option SourceApp) (ids : List Text) (o : Option Text)
    → bundle_id owner ≡ o
    → Refutes (is_excluded o ids) (IsKnownApart owner ids)
is_excluded_lem owner ids none e = λ k. cc (e, k.named, ap bundle_id k.owned)
is_excluded_lem owner ids (some id) e = elim (Bool-cases (includes id ids)) [
  | inl f ↦ rw f (λ k.
      let same : k.id ≡ id = cc (e, k.named, ap bundle_id k.owned) in
      refuted (Apart id ids) _ f (includes_lem id ids) (subst (λ i. Apart i ids) same k.apart))
  | inr f ↦ rw f (
      let (app, owned, name) = named owner id e in
      record {
        app = app;
        id = id;
        owned = owned;
        named = name;
        apart = proved (Apart id ids) _ f (includes_lem id ids);
      })
]

pub is_refused_lem :
    (owner : Option SourceApp) (ids : List Text)
    → Refutes (is_refused owner ids) (OwnerAllows owner ids)
is_refused_lem owner [] = inl refl
is_refused_lem owner (j ∷ ids) = rw (ltb-suc (length ids)) (
    Refutes-or ((j ∷ ids) ≡ []) (IsKnownApart owner (j ∷ ids)) _ (λ e. cc)
      (is_excluded_lem owner (j ∷ ids) (bundle_id owner) refl))
