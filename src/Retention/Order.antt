-- ===== src/Retention/Order.antt =====
-- What a plan does not depend on, and which items it takes first.
use mathlib.Core.List.{Permᴰ}
use copy_clipboard_app.Base.{
  ℕ, ◌≡◌, ◌≢◌, ap, true, false, not, inl, inr, List, [], ◌∷◌, arith, Bool-cases, All-map_impl,
  text_lt, text_lt_asymm, text_lt_cotrans, text_lt_total,
}
use copy_clipboard_app.Base.Sorted.{IsStrict, Pairs, sort-Permᴰ}
use copy_clipboard_app.Protocol.Types.{Item}
use copy_clipboard_app.Retention.{RetentionLimits, newer, run_loops, plan, plan_eviction}

newer_cotrans : (x y z : Item) → newer x z ≡ true → newer y z ≡ false → newer x y ≡ true
newer_cotrans x y z h k = ground (arith, text_lt_cotrans z.id y.id x.id)

pub newer-IsStrict : IsStrict newer
newer-IsStrict = record {
  asymm = λ x y h. ground (arith, text_lt_asymm y.id x.id);
  cotrans = newer_cotrans;
}

-- No two items have one id.
abbrev pub HasDistinctIds : List Item → Type 0
HasDistinctIds = Pairs λ (a b : Item). a.id ≢ b.id

newer_apart : (x y : Item) → x.id ≢ y.id → newer x y ≡ not (newer y x)
newer_apart x y h = elim (Bool-cases (text_lt x.id y.id)) [
  | inl e ↦ ground (arith, text_lt_asymm x.id y.id e)
  | inr e ↦ elim (Bool-cases (text_lt y.id x.id)) [
    | inl f ↦ ground arith
    | inr f ↦ absurd (h (text_lt_total x.id y.id e f))
  ]
]

Pairs-apart :
    (items : List Item) → HasDistinctIds items → Pairs (λ a b. newer a b ≡ not (newer b a)) items
Pairs-apart [] h = tt
Pairs-apart (x ∷ xs) h =
    (All-map_impl (λ (b : Item). x.id ≢ b.id) (λ b d. newer_apart x b d) xs h.0, Pairs-apart xs h.1)

-- The plan is the same, eviction for eviction and in the same order, in whatever order the items
-- are given, as long as no two of them have one id.
pub plan_eviction-Permᴰ :
    (items others : List Item) (now : ℕ) (limits : RetentionLimits)
    → HasDistinctIds items
    → Permᴰ items others
    → plan_eviction items now limits ≡ plan_eviction others now limits
unfolding plan_eviction plan
plan_eviction-Permᴰ items others now limits d p =
    ap (λ its. (run_loops now limits its).evictions)
      (sort-Permᴰ newer newer-IsStrict p (Pairs-apart items d))
