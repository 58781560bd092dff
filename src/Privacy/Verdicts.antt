-- ===== src/Privacy/Verdicts.antt =====
-- classify.ts: what may be recorded, and which flags it gets.
use copy_clipboard_app.Base.{
  Text, ◌≡◌, ◌≢◌, refl, sym, ap, ◌↔◌, ◌⊎◌, ◌∙◌, Bool, true, false, inl, inr, Option, none, some,
  List, [], ◌∷◌, ◌++◌, ltb, Some, length, if◌then◌else◌, Bool-cases,
}
use copy_clipboard_app.Protocol.Types.{
  Snapshot, Classification, PasteboardHint, Flag, MaskSpan, DetectorName,
}
use copy_clipboard_app.Privacy.Classify.{
  PrivacyRules, should_skip_on_hints, hint_flag, hint_flags, finds_secret, classify,
}
use copy_clipboard_app.Privacy.Refusals.{
  HintsAllow, OwnerAllows, refuted, proved, should_skip_on_hints_lem, is_refused, is_refused_lem,
  ltb-suc,
}

abbrev pub Has : Flag → List Flag → Type 0
Has f flags = Some (λ g. g ≡ f) flags

abbrev pub IsHinted : PasteboardHint → List PasteboardHint → Type 0
IsHinted h hints = Some (λ g. g ≡ h) hints

-- There is a text that is not empty, in which a detector that is on finds a span.
pub record IsSecret (detect : Text → List DetectorName → List MaskSpan) (t : Option Text)
    (names : List DetectorName) : Type 0 where
  pub text : Text
  pub copied : t ≡ some text
  pub filled : text ≢ []
  pub found : detect text names ≢ []

Some-append :
    {A : Type 0} (P : A → Type 0) (xs ys : List A) → Some P (xs ++ ys) ↔ (Some P xs ⊎ Some P ys)
Some-append P [] ys = (inr, λ h. elim h [ inl a ↦ absurd a | inr a ↦ a ])
Some-append P (x ∷ xs) ys =
    let rest = Some-append P xs ys in
    (
      λ h. elim h [
        | inl a ↦ inl (inl a)
        | inr a ↦ elim (rest.0 a) [ inl b ↦ inl (inr b) | inr b ↦ inr b ]
      ],
      λ h. elim h [
        | inl a ↦ elim a [ inl b ↦ inl b | inr b ↦ inr (rest.1 (inl b)) ]
        | inr a ↦ inr (rest.1 (inr a))
      ],
    )

filled_ltb : {A : Type 0} (xs : List A) → xs ≢ [] → ltb 0 (length xs) ≡ true
filled_ltb [] h = absurd (h refl)
filled_ltb (x ∷ xs) h = ltb-suc (length xs)

finds_secret_lem :
    (detect : Text → List DetectorName → List MaskSpan) (t : Option Text) (rules : PrivacyRules)
    → (finds_secret detect t rules ≡ true) ↔ IsSecret detect t rules.detectors
finds_secret_lem detect none rules = (λ e. cc, λ k. cc k.copied)
finds_secret_lem detect (some []) rules =
    (λ e. cc, λ k. absurd (k.filled (let same : [] ≡ k.text = cc k.copied in sym same)))
finds_secret_lem detect (some (c ∷ t)) rules = (
  λ e. record {
    text = c ∷ t;
    copied = refl;
    filled = λ d. cc;
    found = λ d. absurd (cc (e, ap (λ spans. ltb 0 (length spans)) d));
  },
  λ k.
      let same : (c ∷ t) ≡ k.text = cc k.copied in
      filled_ltb (detect (c ∷ t) rules.detectors)
        (λ d. k.found (ap (λ t. detect t rules.detectors) (sym same) ∙ d)),
)

-- A flag that stands for a hint is there exactly if the hint is.
hint_flags_lem :
    (f : Flag) (h : PasteboardHint)
    → ((g : PasteboardHint) → Has f (hint_flag g) ↔ (g ≡ h))
    → (hints : List PasteboardHint) → Has f (hint_flags hints) ↔ IsHinted h hints
unfolding hint_flags
hint_flags_lem f h one [] = (λ e. e, λ e. e)
hint_flags_lem f h one (g ∷ hints) =
    let rest = hint_flags_lem f h one hints in
    (
      λ e. elim ((Some-append _ (hint_flag g) (hint_flags hints)).0 e) [
        | inl a ↦ inl ((one g).0 a)
        | inr a ↦ inr (rest.0 a)
      ],
      λ e.
          (Some-append _ (hint_flag g) (hint_flags hints)).1
            (elim e [ inl a ↦ inl ((one g).1 a) | inr a ↦ inr (rest.1 a) ]),
    )

transient_lem :
    (g : PasteboardHint) → Has Flag.transient (hint_flag g) ↔ (g ≡ PasteboardHint.transient)
transient_lem PasteboardHint.transient = (λ e. refl, λ e. inl refl)
transient_lem PasteboardHint.concealed = (λ e. absurd e, λ e. cc)
transient_lem PasteboardHint.password_manager = (λ e. absurd e, λ e. cc)
transient_lem PasteboardHint.auto_generated =
    (λ e. elim e [ inl a ↦ cc | inr a ↦ absurd a ], λ e. cc)

auto_generated_lem :
    (g : PasteboardHint)
    → Has Flag.auto_generated (hint_flag g) ↔ (g ≡ PasteboardHint.auto_generated)
auto_generated_lem PasteboardHint.auto_generated = (λ e. refl, λ e. inl refl)
auto_generated_lem PasteboardHint.concealed = (λ e. absurd e, λ e. cc)
auto_generated_lem PasteboardHint.password_manager = (λ e. absurd e, λ e. cc)
auto_generated_lem PasteboardHint.transient =
    (λ e. elim e [ inl a ↦ cc | inr a ↦ absurd a ], λ e. cc)

not_secret : (hints : List PasteboardHint) → Has Flag.secret (hint_flags hints) → ⊥
unfolding hint_flags
not_secret [] e = e
not_secret (PasteboardHint.concealed ∷ hints) e = not_secret hints e
not_secret (PasteboardHint.password_manager ∷ hints) e = not_secret hints e
not_secret (PasteboardHint.transient ∷ hints) e = elim e [ inl a ↦ cc | inr a ↦ not_secret hints a ]
not_secret (PasteboardHint.auto_generated ∷ hints) e = elim e [
  | inl a ↦ cc
  | inr a ↦ not_secret hints a
]

beside : (f : Flag) → f ≢ Flag.secret → (fs : List Flag) → Has f (fs ++ Flag.secret ∷ []) → Has f fs
beside f n fs h = elim ((Some-append (λ g. g ≡ f) fs (Flag.secret ∷ [])).0 h) [
  | inl a ↦ a
  | inr a ↦ elim a [ inl e ↦ absurd (n (sym e)) | inr b ↦ absurd b ]
]

-- The flag `secret` is there exactly if there is a secret, and one of a hint exactly if the hint is.
abbrev pub IsFlagged :
    (Text → List DetectorName → List MaskSpan) → Snapshot → PrivacyRules → List Flag → Type 0
IsFlagged detect s rules flags =
    (Has Flag.secret flags ↔ IsSecret detect s.primary_text rules.detectors)
    × (Has Flag.transient flags ↔ IsHinted PasteboardHint.transient s.hints)
    × (Has Flag.auto_generated flags ↔ IsHinted PasteboardHint.auto_generated s.hints)

flags_lem :
    (detect : Text → List DetectorName → List MaskSpan) (s : Snapshot) (rules : PrivacyRules)
    → (b : Bool) → finds_secret detect s.primary_text rules ≡ b
    → IsFlagged detect s rules
        (if b then hint_flags s.hints ++ Flag.secret ∷ [] else hint_flags s.hints)
flags_lem detect s rules true e =
    let fs = hint_flags s.hints in
    let t = hint_flags_lem Flag.transient PasteboardHint.transient transient_lem s.hints in
    let a =
      hint_flags_lem Flag.auto_generated PasteboardHint.auto_generated auto_generated_lem s.hints in
    let ends = λ (f : Flag). Some-append (λ g. g ≡ f) fs (Flag.secret ∷ []) in
    (
      (
        λ h. (finds_secret_lem detect s.primary_text rules).0 e,
        λ h. (ends Flag.secret).1 (inr (inl refl)),
      ),
      (λ h. t.0 (beside Flag.transient (λ d. cc) fs h), λ h. (ends Flag.transient).1 (inl (t.1 h))),
      (
        λ h. a.0 (beside Flag.auto_generated (λ d. cc) fs h),
        λ h. (ends Flag.auto_generated).1 (inl (a.1 h)),
      ),
    )
flags_lem detect s rules false e = (
  (
    λ h. absurd (not_secret s.hints h),
    λ h. let d = (finds_secret_lem detect s.primary_text rules).1 h in absurd (cc (e, d)),
  ),
  hint_flags_lem Flag.transient PasteboardHint.transient transient_lem s.hints,
  hint_flags_lem Flag.auto_generated PasteboardHint.auto_generated auto_generated_lem s.hints,
)

-- The three verdicts on a copy, each with what it says of the copy.
abbrev pub IsJudged :
    (Text → List DetectorName → List MaskSpan) → Snapshot → PrivacyRules → Classification → Type 0
IsJudged detect s rules v =
    ((HintsAllow s rules → ⊥) × (v.records ≡ false) × (v.flags ≡ Flag.concealed ∷ []))
    ⊎ (HintsAllow s rules
        × (OwnerAllows s.source_app rules.excluded_bundle_ids → ⊥)
        × (v.records ≡ false)
        × (v.flags ≡ Flag.excluded ∷ []))
    ⊎ (HintsAllow s rules
        × OwnerAllows s.source_app rules.excluded_bundle_ids
        × (v.records ≡ true)
        × IsFlagged detect s rules v.flags)

-- A copy of which an honoured hint says that it is concealed or of a password manager is not recorded,
-- with the flag `concealed` alone. Any other copy is not recorded, with the flag `excluded` alone, if
-- applications are excluded and its owner is one of them or is not known. Every copy that is left is
-- recorded; the flag `secret` is among its flags exactly if its text is there, is not empty, and a
-- detector that is on finds a span in it, and `transient` and `auto-generated` exactly if they are
-- among its hints.
pub classify_lem :
    (detect : Text → List DetectorName → List MaskSpan) (s : Snapshot) (rules : PrivacyRules)
    → IsJudged detect s rules (classify detect s rules)
unfolding classify
classify_lem detect s rules =
    let hints = should_skip_on_hints_lem s rules in
    let owner = is_refused_lem s.source_app rules.excluded_bundle_ids in
    let Owner = OwnerAllows s.source_app rules.excluded_bundle_ids in
    elim (Bool-cases (should_skip_on_hints s.hints rules)) [
      | inl e ↦ rw e (inl (refuted (HintsAllow s rules) _ e hints, refl, refl))
      | inr e ↦
          let allowed = proved (HintsAllow s rules) _ e hints in
          elim (Bool-cases (is_refused s.source_app rules.excluded_bundle_ids)) [
            | inl f ↦ rw (e, f) (inr (inl (allowed, refuted Owner _ f owner, refl, refl)))
            | inr f ↦
                let known = proved Owner _ f owner in
                elim (Bool-cases (finds_secret detect s.primary_text rules)) [
                  | inl g ↦
                      rw (e, f, g)
                        (inr (inr (allowed, known, refl, flags_lem detect s rules true g)))
                  | inr g ↦
                      rw (e, f, g)
                        (inr (inr (allowed, known, refl, flags_lem detect s rules false g)))
                ]
          ]
    ]
