-- ===== src/AgentHost/Changes/Counts.antt =====
-- How often a place occurs, in a list, in the owners of a change assembler, and among what it emitted.
use copy_clipboard_app.Base.{
  ℕ, zero, suc, ◌+◌, ◌-◌, ◌==◌, ◌<◌, ◌≡◌, refl, ap, Text, text_eq, text_eq_iff, Bool, true, false,
  not, inl, inr, none, some, List, [], ◌∷◌, ◌++◌, length, keep_if, ltb, arith, if◌then◌else◌,
  Bool-cases, Dict, get, set, delete, IsMap,
}
use copy_clipboard_app.AgentHost.Changes.{
  Slot, Place, PendingChange, ChangedPayload, at, update_at, outstanding_of, filled,
}

abbrev pub one : Bool → ℕ
one true = 1
one false = 0

abbrev pub occurs : ℕ → List ℕ → ℕ
occurs p [] = 0
occurs p (q ∷ qs) = one (q == p) + occurs p qs

abbrev pub times_emitted : ℕ → List (ℕ × ChangedPayload) → ℕ
times_emitted p [] = 0
times_emitted p (e ∷ es) = one (e.0 == p) + times_emitted p es

abbrev pub owned : ℕ → Dict Place → ℕ
owned p [] = 0
owned p (e ∷ m) = one (e.1.change == p) + owned p m

abbrev pub left : ℕ → List PendingChange → ℕ
left p cs = outstanding_of (at p cs)

pub occurs-append : (p : ℕ) (xs ys : List ℕ) → occurs p (xs ++ ys) ≡ occurs p xs + occurs p ys
occurs-append p [] ys = omega arith
occurs-append p (x ∷ xs) ys = omega (arith, occurs-append p xs ys)

pub times_emitted-append :
    (p : ℕ) (xs ys : List (ℕ × ChangedPayload))
    → times_emitted p (xs ++ ys) ≡ times_emitted p xs + times_emitted p ys
times_emitted-append p [] ys = omega arith
times_emitted-append p (x ∷ xs) ys = omega (arith, times_emitted-append p xs ys)

pub occurs-without :
    (p r : ℕ) (xs : List ℕ)
    → occurs p (keep_if (λ q. not (q == r)) xs) ≡ (if r == p then 0 else occurs p xs)
occurs-without p r [] = ground arith
occurs-without p r (x ∷ xs) = ground (arith, occurs-without p r xs)

delete_absent : (k : Text) (m : Dict Place) → get k m ≡ none → delete k m ≡ m
unfolding get delete
delete_absent k [] h = refl
delete_absent k ((j, v) ∷ m) h = elim (Bool-cases (text_eq j k)) [
  | inl e ↦ absurd (ground (arith, e, h))
  | inr e ↦ rw e (ap (λ m'. (j, v) ∷ m') (delete_absent k m (ground (arith, e, h))))
]

pub owned-set :
    (p : ℕ) (k : Text) (v : Place) (m : Dict Place)
    → get k m ≡ none
    → owned p (set k v m) ≡ owned p m + one (v.change == p)
unfolding get set
owned-set p k v [] h = omega arith
owned-set p k v ((j, w) ∷ m) h = elim (Bool-cases (text_eq j k)) [
  | inl e ↦ absurd (ground (arith, e, h))
  | inr e ↦ rw e (omega (arith, owned-set p k v m (ground (arith, e, h))))
]

pub owned-delete :
    (p : ℕ) (k : Text) (v : Place) (m : Dict Place)
    → IsMap m
    → get k m ≡ some v
    → owned p (delete k m) + one (v.change == p) ≡ owned p m
unfolding get delete
owned-delete p k v [] d h = cc
owned-delete p k v ((j, w) ∷ m) d h = elim (Bool-cases (text_eq j k)) [
  | inl e ↦
      let same : w ≡ v = ground (arith, e, h) in
      let rest : delete k m ≡ m = delete_absent k m (rw⁻¹ ((text_eq_iff j k).0 e) d.0) in
      rw (e, rest, same) (omega arith)
  | inr e ↦ rw e (omega (arith, owned-delete p k v m d.1 (ground (arith, e, h))))
]

pub left-update :
    (p q i : ℕ) (f : Slot → Slot) (cs : List PendingChange)
    → left p (update_at q (filled i f) cs) ≡ left p cs - one (q == p)
left-update p q i f [] = omega arith
left-update zero zero i f (c ∷ cs) = refl
left-update zero (suc q) i f (c ∷ cs) = ground arith
left-update (suc p) zero i f (c ∷ cs) = ground arith
left-update (suc p) (suc q) i f (c ∷ cs) = ground (arith, left-update p q i f cs)

pub length-update_at :
    (q : ℕ) (f : PendingChange → PendingChange) (cs : List PendingChange)
    → length (update_at q f cs) ≡ length cs
length-update_at q f [] = refl
length-update_at zero f (c ∷ cs) = refl
length-update_at (suc q) f (c ∷ cs) = ap suc (length-update_at q f cs)

pub left-append :
    (p : ℕ) (cs : List PendingChange) (c : PendingChange)
    → left p (cs ++ c ∷ []) ≡ (if p == length cs then c.outstanding else left p cs)
left-append zero [] c = refl
left-append (suc p) [] c = ground arith
left-append zero (d ∷ cs) c = ground arith
left-append (suc p) (d ∷ cs) c = ground (arith, left-append p cs c)

pub left-beyond : (p : ℕ) (cs : List PendingChange) → ltb p (length cs) ≡ false → left p cs ≡ 0
left-beyond p [] h = refl
left-beyond zero (c ∷ cs) h = ground arith
left-beyond (suc p) (c ∷ cs) h = left-beyond p cs (ground arith)

pub at-within :
    (p : ℕ) (cs : List PendingChange) → p < length cs → (c : PendingChange) × (at p cs ≡ some c)
at-within p [] h = absurd (omega (arith, h))
at-within zero (c ∷ cs) h = (c, refl)
at-within (suc p) (c ∷ cs) h = at-within p cs (omega arith)
