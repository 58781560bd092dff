-- ===== src/Privacy/Cover.antt =====
-- detectors.ts: `mergeSpans` covers the positions that its spans cover, and its result is in order.
use copy_clipboard_app.Base.{
  ℕ, ◌≤◌, ◌≡◌, refl, ◌∙◌, Bool, inl, inr, ◌&&◌, ◌||◌, List, [], ◌∷◌, arith, ltb, leb, any, All,
  All-map_impl, Bool-cases, sort, insert_sorted,
}
use copy_clipboard_app.Base.Sorted.{IsStrict, Pairs, sort-Pairs}
use copy_clipboard_app.Protocol.Types.{MaskSpan}
use copy_clipboard_app.Privacy.Spans.{
  span_before, join_spans, merge_from, merge_sorted, merge_spans,
}

-- The position stands in the span, or in one of the spans.
abbrev pub holds : ℕ → MaskSpan → Bool
holds i s = leb s.start i && ltb i s.end

abbrev pub covers : ℕ → List MaskSpan → Bool
covers i = any (holds i)

covers-insert_sorted :
    (i : ℕ) (s : MaskSpan) (spans : List MaskSpan)
    → covers i (insert_sorted span_before s spans) ≡ (holds i s || covers i spans)
unfolding insert_sorted
covers-insert_sorted i s [] = ground arith
covers-insert_sorted i s (r ∷ spans) = ground (arith, covers-insert_sorted i s spans)

covers-sort : (i : ℕ) (spans : List MaskSpan) → covers i (sort span_before spans) ≡ covers i spans
unfolding sort
covers-sort i [] = refl
covers-sort i (s ∷ spans) =
    ground (arith, covers-insert_sorted i s (sort span_before spans), covers-sort i spans)

-- Every one starts at `from` or later.
abbrev StartsAfter : ℕ → List MaskSpan → Type 0
StartsAfter from = All λ (s : MaskSpan). from ≤ s.start

-- Each starts no earlier than those before it.
abbrev Ascends : List MaskSpan → Type 0
Ascends = Pairs λ (a b : MaskSpan). a.start ≤ b.start

covers-merge_from :
    (i : ℕ) (last : MaskSpan) (spans : List MaskSpan)
    → StartsAfter last.start spans
    → Ascends spans
    → covers i (merge_from last spans) ≡ (holds i last || covers i spans)
unfolding merge_from
covers-merge_from i last [] h a = ground arith
covers-merge_from i last (s ∷ spans) h a = ground (
  arith,
  h.0,
  covers-merge_from i (join_spans last s) spans h.1 a.1,
  covers-merge_from i s spans a.0 a.1,
)

merge_from-StartsAfter :
    (from : ℕ) (last : MaskSpan) (spans : List MaskSpan)
    → from ≤ last.start
    → StartsAfter from spans
    → StartsAfter from (merge_from last spans)
unfolding merge_from
merge_from-StartsAfter from last [] e h = (e, tt)
merge_from-StartsAfter from last (s ∷ spans) e h = elim (Bool-cases (ltb s.start last.end)) [
  | inl o ↦ rw o (merge_from-StartsAfter from (join_spans last s) spans e h.1)
  | inr o ↦ rw o (e, merge_from-StartsAfter from s spans h.0 h.1)
]

-- Each ends before the next one starts, or where it does.
abbrev pub Disjoint : List MaskSpan → Type 0
Disjoint = Pairs λ (a b : MaskSpan). a.end ≤ b.start

merge_from-Disjoint :
    (last : MaskSpan) (spans : List MaskSpan)
    → StartsAfter last.start spans
    → Ascends spans
    → Disjoint (merge_from last spans)
unfolding merge_from
merge_from-Disjoint last [] h a = (tt, tt)
merge_from-Disjoint last (s ∷ spans) h a = elim (Bool-cases (ltb s.start last.end)) [
  | inl o ↦ rw o (merge_from-Disjoint (join_spans last s) spans h.1 a.1)
  | inr o ↦
      let later : last.end ≤ s.start = ground arith in
      rw o (
        merge_from-StartsAfter last.end s spans later (
            All-map_impl (λ (r : MaskSpan). s.start ≤ r.start) (λ r k. omega (arith, k, later))
              spans a.0),
        merge_from-Disjoint s spans a.0 a.1,
      )
]

span_before-IsStrict : IsStrict span_before
span_before-IsStrict = record { asymm = λ a b h. ground arith; cotrans = λ a b c h k. ground arith }

Pairs-impl :
    {A : Type 0} {R S : A → A → Type 0}
    → ((a b : A) → R a b → S a b)
    → (xs : List A) → Pairs R xs
    → Pairs S xs
Pairs-impl f [] h = tt
Pairs-impl {R = R} f (x ∷ xs) h = (All-map_impl (R x) (f x) xs h.0, Pairs-impl f xs h.1)

sort-Ascends : (spans : List MaskSpan) → Ascends (sort span_before spans)
sort-Ascends spans =
    Pairs-impl (λ a b h. ground arith) (sort span_before spans)
      (sort-Pairs span_before span_before-IsStrict spans)

-- The union of spans covers the positions that they cover, no more and no fewer, in whatever order
-- they come; and in the union each span ends before a later one starts, or where it starts.
pub merge_spans_lem :
    (spans : List MaskSpan)
    → ((i : ℕ) → covers i (merge_spans spans) ≡ covers i spans) × Disjoint (merge_spans spans)
unfolding merge_spans
merge_spans_lem spans = (
  λ i. merged i (sort span_before spans) (sort-Ascends spans) ∙ covers-sort i spans,
  disjoint (sort span_before spans) (sort-Ascends spans),
)
  where
    merged : (i : ℕ) (ss : List MaskSpan) → Ascends ss → covers i (merge_sorted ss) ≡ covers i ss
    merged i [] a = refl
    merged i (s ∷ ss) a = covers-merge_from i s ss a.0 a.1 ∙ ground arith

    disjoint : (ss : List MaskSpan) → Ascends ss → Disjoint (merge_sorted ss)
    disjoint [] a = tt
    disjoint (s ∷ ss) a = merge_from-Disjoint s ss a.0 a.1
