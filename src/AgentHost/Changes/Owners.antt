-- ===== src/AgentHost/Changes/Owners.antt =====
-- packages/agent-host/src/reassembler.ts: a stream that a change waits for is open in the reassembler.
use copy_clipboard_app.Base.{
  ℕ, suc, ◌==◌, ◌≡◌, refl, sym, ap, ◌∙◌, Text, text_eq, text_eq_iff, true, inl, inr, Option, none,
  some, not, ◌++◌, keep_if, length-append, List, [], ◌∷◌, length, arith, if◌then◌else◌, Bool-cases,
  get, set, get-set, get-delete, Some,
}
use copy_clipboard_app.AgentHost.Reassembler.{
  RepStream, Told, completed, aborted, Reassembler, Codec, is_open, declare,
}
use copy_clipboard_app.AgentHost.Changes.{
  Slot, Place, PendingChange, Rep, ChangedWire, Assembler, at, update_at, emit, outstanding_of,
  filled, finish, settle, settle_owned, release, call_back, call_back_each, reassemble, chunked_id,
  declared_of, is_owned, own, declare_chunked, declare_each, change_of, count_chunked,
  handle_changed,
}
use copy_clipboard_app.AgentHost.Changes.Counts.{length-update_at}
use copy_clipboard_app.AgentHost.Changes.Streams.{told_id, Tells, IsHeld, declare-IsHeld}

-- Every stream that is owned is open, and stands under its id; the callbacks were run.
pub record IsCovered (a : Assembler) : Type 0 where
  pub covered :
      (id : Text) → is_owned (get id a.owner) ≡ true → is_open (get id a.reassembler.streams) ≡ true
  pub keyed : (id : Text) (s : RepStream) → get id a.reassembler.streams ≡ some s → s.rep_id ≡ id
  pub quiet : a.reassembler.told ≡ []

-- A part of the assembler that neither settling nor finishing a change touches
abbrev Untouched : Assembler → Assembler → Type 0
Untouched a b =
    (b.owner ≡ a.owner) × (b.reassembler ≡ a.reassembler) × (length b.changes ≡ length a.changes)

pub finish-Untouched : (p : ℕ) (a : Assembler) → Untouched a (finish p a)
unfolding finish
finish-Untouched p a = go (at p a.changes)
  where
    go :
        (o : Option PendingChange)
        → Untouched a (emit p o (record a { pending = keep_if (λ q. not (q == p)) a.pending }))
    go none = (refl, refl, refl)
    go (some c) = (refl, refl, refl)

pub settle-Untouched :
    (place : Place) (f : Slot → Slot) (a : Assembler) → Untouched a (settle place f a)
unfolding settle
settle-Untouched place f a =
    let cs = update_at place.change (filled place.slot f) a.changes in
    let long : length cs ≡ length a.changes =
      length-update_at place.change (filled place.slot f) a.changes in
    elim (Bool-cases (outstanding_of (at place.change cs) == 0)) [
      | inl e ↦
          let u = finish-Untouched place.change (record a { changes = cs }) in
          rw e (u.0, u.1, u.2 ∙ long)
      | inr e ↦ rw e (refl, refl, long)
    ]

-- A callback takes the stream from its owner, if it has one.
abbrev Takes : Text → Assembler → Assembler → Type 0
Takes id a b =
    ((j : Text) → get j b.owner ≡ (if text_eq id j then none else get j a.owner))
    × (b.reassembler ≡ a.reassembler)
    × (length b.changes ≡ length a.changes)

settle_owned-Takes :
    (id : Text) (f : Slot → Slot) (a : Assembler)
    → Takes id a (settle_owned id f (get id a.owner) a)
settle_owned-Takes id f a = go (get id a.owner) refl
  where
    go : (o : Option Place) → get id a.owner ≡ o → Takes id a (settle_owned id f o a)
    go none e = (λ j. ground (arith, text_eq_iff id j, e), refl, refl)
    go (some place) e =
        let u = settle-Untouched place f (release id a) in
        (λ j. ap (get j) u.0 ∙ get-delete id j a.owner, u.1, u.2)

call_back-Takes : (t : Told) (a : Assembler) → Takes (told_id t) a (call_back t a)
unfolding call_back
call_back-Takes (completed id rep) a = settle_owned-Takes id _ a
call_back-Takes (aborted id mime code) a = settle_owned-Takes id _ a

-- What is owned after the callbacks was owned before, and nothing was told of it.
pub call_back_each-owned :
    (ts : List Told) (a : Assembler) (id : Text)
    → is_owned (get id (call_back_each ts a).owner) ≡ true
    → (is_owned (get id a.owner) ≡ true) × (Some (Tells id) ts → ⊥)
unfolding call_back_each
call_back_each-owned [] a id h = (h, λ s. s)
call_back_each-owned (t ∷ ts) a id h =
    let later = call_back_each-owned ts (call_back t a) id h in
    let taken = (call_back-Takes t a).0 id in
    elim (Bool-cases (text_eq (told_id t) id)) [
      | inl e ↦
          let gone : get id (call_back t a).owner ≡ none = taken ∙ rw e refl in
          absurd (ground (arith, later.0, gone))
      | inr e ↦
          let same : get id (call_back t a).owner ≡ get id a.owner = taken ∙ rw e refl in
          (
            sym (ap is_owned same) ∙ later.0,
            λ s. elim s [
              | inl tells ↦ ground (arith, text_eq_iff (told_id t) id, tells, e)
              | inr more ↦ later.1 more
            ],
          )
    ]

pub call_back_each-keeps :
    (ts : List Told) (a : Assembler)
    → (let b = call_back_each ts a in
        (b.reassembler ≡ a.reassembler) × (length b.changes ≡ length a.changes))
unfolding call_back_each
call_back_each-keeps [] a = (refl, refl)
call_back_each-keeps (t ∷ ts) a =
    let later = call_back_each-keeps ts (call_back t a) in
    let now = call_back-Takes t a in (later.0 ∙ now.1, later.1 ∙ now.2)

-- A call that accounts for the streams that are owned covers them.
pub reassemble-IsCovered :
    (f : Reassembler → Reassembler) (a : Assembler)
    → IsHeld (λ id. is_owned (get id a.owner)) (f a.reassembler)
    → IsCovered (reassemble f a)
unfolding reassemble
reassemble-IsCovered f a h =
    let r = f a.reassembler in
    let b : Assembler = record a { reassembler = record r { told = [] } } in
    let kept : (call_back_each r.told b).reassembler ≡ b.reassembler =
      (call_back_each-keeps r.told b).0 in
    record {
      covered = λ id o.
          let before = call_back_each-owned r.told b id o in
          ap (λ x. is_open (get id x.streams)) kept
          ∙ elim (h.accounts id before.0) [ inl still ↦ still | inr told ↦ absurd (before.1 told) ];
      keyed = λ id s e. h.keyed id s (sym (ap (λ x. get id x.streams) kept) ∙ e);
      quiet = ap (λ x. x.told) kept;
    }

pub covered-IsHeld :
    (a : Assembler) → IsCovered a → IsHeld (λ id. is_owned (get id a.owner)) a.reassembler
covered-IsHeld a h = record { accounts = λ id k. inl (h.covered id k); keyed = h.keyed }

Untouched-IsCovered : (a b : Assembler) → Untouched a b → IsCovered a → IsCovered b
Untouched-IsCovered a b u h = record {
  covered = λ id o.
      ap (λ r. is_open (get id r.streams)) u.1
      ∙ h.covered id (sym (ap (λ m. is_owned (get id m)) u.0) ∙ o);
  keyed = λ id s e. h.keyed id s (sym (ap (λ r. get id r.streams) u.1) ∙ e);
  quiet = ap (λ r. r.told) u.1 ∙ h.quiet;
}

declare_chunked-IsCovered :
    (now : ℕ) (place : Place) (r : Rep) (o : Option Text) (a : Assembler)
    → IsCovered a
    → IsCovered (declare_chunked now place r o a)
declare_chunked-IsCovered now place r none a h = h
declare_chunked-IsCovered now place r (some id) a h =
    elim (Bool-cases (is_owned (get id a.owner))) [
      | inl e ↦ rw e (Untouched-IsCovered a _ (settle-Untouched place _ a) h)
      | inr e ↦ rw e (
          reassemble-IsCovered (declare now (declared_of r id)) (own id place a) (
            declare-IsHeld _ now (declared_of r id) a.reassembler
              (λ j k. elim (Bool-cases (text_eq id j)) [
                | inl same ↦ inl ((text_eq_iff id j).0 same)
                | inr other ↦
                    let before : get j (set id place a.owner) ≡ get j a.owner =
                      get-set id j place a.owner ∙ rw other refl in
                    inr (inl (h.covered j (sym (ap is_owned before) ∙ k)))
              ])
              h.keyed))
    ]

declare_each-IsCovered :
    (now p i : ℕ) (rs : List Rep) (a : Assembler)
    → IsCovered a
    → IsCovered (declare_each now p i rs a)
unfolding declare_each
declare_each-IsCovered now p i [] a h = h
declare_each-IsCovered now p i (r ∷ rs) a h =
    declare_each-IsCovered now p (suc i) rs _
      (declare_chunked-IsCovered now (record { change = p; slot = i }) r (chunked_id r) a h)

pub handle_changed-IsCovered :
    (codec : Codec) (now : ℕ) (w : ChangedWire) (a : Assembler)
    → IsCovered a
    → IsCovered (handle_changed codec now w a)
unfolding handle_changed
handle_changed-IsCovered codec now w a h =
    let a' = record a { changes = a.changes ++ change_of codec w ∷ [] } in
    let h' : IsCovered a' = record { covered = h.covered; keyed = h.keyed; quiet = h.quiet } in
    elim (Bool-cases (count_chunked w.reps == 0)) [
      | inl e ↦ rw e (Untouched-IsCovered a' _ (finish-Untouched (length a.changes) a') h')
      | inr e ↦ rw e (
          declare_each-IsCovered now (length a.changes) 0 w.reps _
            (record { covered = h.covered; keyed = h.keyed; quiet = h.quiet }))
    ]

pub reassemble-length :
    (f : Reassembler → Reassembler) (a : Assembler)
    → length (reassemble f a).changes ≡ length a.changes
unfolding reassemble
reassemble-length f a = (call_back_each-keeps (f a.reassembler).told _).1

declare_chunked-length :
    (now : ℕ) (place : Place) (r : Rep) (o : Option Text) (a : Assembler)
    → length (declare_chunked now place r o a).changes ≡ length a.changes
declare_chunked-length now place r none a = refl
declare_chunked-length now place r (some id) a = elim (Bool-cases (is_owned (get id a.owner))) [
  | inl e ↦ rw e ((settle-Untouched place _ a).2)
  | inr e ↦ rw e (reassemble-length (declare now (declared_of r id)) (own id place a))
]

declare_each-length :
    (now p i : ℕ) (rs : List Rep) (a : Assembler)
    → length (declare_each now p i rs a).changes ≡ length a.changes
unfolding declare_each
declare_each-length now p i [] a = refl
declare_each-length now p i (r ∷ rs) a =
    declare_each-length now p (suc i) rs _
    ∙ declare_chunked-length now (record { change = p; slot = i }) r (chunked_id r) a

pub handle_changed-length :
    (codec : Codec) (now : ℕ) (w : ChangedWire) (a : Assembler)
    → length (handle_changed codec now w a).changes ≡ suc (length a.changes)
unfolding handle_changed
handle_changed-length codec now w a =
    let longer : length (a.changes ++ change_of codec w ∷ []) ≡ suc (length a.changes) =
      omega (arith, length-append a.changes (change_of codec w ∷ [])) in
    elim (Bool-cases (count_chunked w.reps == 0)) [
      | inl e ↦ rw e ((finish-Untouched (length a.changes) (record a { changes = _ })).2 ∙ longer)
      | inr e ↦ rw e (declare_each-length now (length a.changes) 0 w.reps _ ∙ longer)
    ]
