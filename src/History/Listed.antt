-- ===== src/History/Listed.antt =====
-- history.ts: what `list` gives, in which order, and that `search` filters alike.
use mathlib.Core.List.{Perm}
use copy_clipboard_app.Base.{
  ℕ, Text, ◌≡◌, refl, sym, ap, ◌∙◌, subst, Bool, true, false, not, ◌&&◌, ◌||◌, Option, none, some,
  List, [], ◌∷◌, arith, length, take, drop, keep_if, if◌then◌else◌, Dict, values, includes, sort,
  sort-perm,
}
use copy_clipboard_app.Base.Sorted.{IsStrict, Pairs, sort-Pairs}
use copy_clipboard_app.Protocol.Types.{Item}
use copy_clipboard_app.Protocol.Tags.{normalize_tag, is_empty}
use copy_clipboard_app.History.Ports.{Port}
use copy_clipboard_app.History.Tags.{filter_by_tag}
use copy_clipboard_app.History.State.{State, is_live, get_or}
use copy_clipboard_app.History.Queries.{
  ListQuery, SearchFilter, has_kind, more_recent, matching, list, passes, wanted_tag,
}

more_recent-IsStrict : (ord : Dict ℕ) → IsStrict (more_recent ord)
more_recent-IsStrict ord = record {
  asymm = λ x y h. ground arith;
  cotrans = λ x y z h k. ground arith;
}

-- Four filters, one after another, are one.
keep_if_chain :
    {A : Type 0} (l p k t : A → Bool) (xs : List A)
    → keep_if t (keep_if k (keep_if p (keep_if l xs))) ≡ keep_if (λ x. l x && k x && p x && t x) xs
keep_if_chain l p k t [] = refl
keep_if_chain l p k t (x ∷ xs) = ground (arith, keep_if_chain l p k t xs)

keep_all : {A : Type 0} (xs : List A) → keep_if (λ _. true) xs ≡ xs
keep_all [] = refl
keep_all (x ∷ xs) = ap (λ ys. x ∷ ys) (keep_all xs)

-- A filter that applies or not.
keep_if_wanted :
    {A : Type 0} (b : Bool) (p : A → Bool) (xs : List A)
    → (if b then keep_if p xs else xs) ≡ keep_if (λ x. not b || p x) xs
keep_if_wanted true p xs = refl
keep_if_wanted false p xs = sym (keep_all xs)

keep_if_unless :
    {A : Type 0} (b : Bool) (p : A → Bool) (xs : List A)
    → (if b then xs else keep_if p xs) ≡ keep_if (λ x. b || p x) xs
keep_if_unless true p xs = sym (keep_all xs)
keep_if_unless false p xs = refl

has_tag : Text → Item → Bool
has_tag wanted it = is_empty wanted || includes wanted it.tags

filter_by_tag-keep_if :
    (lower : Text → Text) (its : List Item) (tag : Option Text)
    → filter_by_tag lower its tag
      ≡ keep_if (has_tag (elim tag [ none ↦ [] | some t ↦ normalize_tag lower t ])) its
unfolding filter_by_tag has_tag
filter_by_tag-keep_if lower its none = sym (keep_all its)
filter_by_tag-keep_if lower its (some tag) =
    keep_if_unless (is_empty (normalize_tag lower tag))
      (λ (it : Item). includes (normalize_tag lower tag) it.tags) its

-- The tests of `search` on the fields that a query shares with it.
abbrev pub filter_of : ListQuery → SearchFilter
filter_of q = record { kind = q.kind; pinned_only = q.pinned_only; tag = q.tag }

module _ (port : Port) where
  -- The filters of `list`, one after another, are the one test of `search`.
  matching_lem :
      (now : ℕ) (q : ListQuery) (st : State port)
      → matching port now q st ≡ keep_if (passes port now (filter_of q)) (values st.items)
  unfolding matching has_tag
  matching_lem now q st =
      let live : List Item = keep_if (λ (it : Item). is_live it now) (values st.items) in
      filter_by_tag-keep_if port.to_lower_case _ q.tag
      ∙ ap (λ its. keep_if (has_tag (wanted_tag port q.tag)) (keep_if (has_kind q.kind) its))
          (keep_if_wanted q.pinned_only (λ (it : Item). it.pinned) live)
      ∙ keep_if_chain (λ (it : Item). is_live it now)
          (λ (it : Item). not q.pinned_only || it.pinned) (has_kind q.kind)
          (has_tag (wanted_tag port q.tag)) (values st.items)

  -- What `list` gives is the requested part of a list that has exactly the items in memory that pass
  -- the filters (live, and of the kind, pin and tab asked for, by the test that `search` makes of an
  -- item), that stands latest first, and of two items of one time the one recorded later first. Its
  -- total is the length of that list.
  pub list_lem :
      (now : ℕ) (q : ListQuery) (st : State port)
      → (live : List Item) × Perm live (keep_if (passes port now (filter_of q)) (values st.items))
        × Pairs (λ (a b : Item). more_recent st.ord b a ≡ false) live
        × ((list port now q st).items
            ≡ take (get_or q.limit (length live)) (drop (get_or q.offset 0) live))
        × ((list port now q st).total ≡ length live)
  unfolding list
  list_lem now q st =
      let live : List Item = sort (more_recent st.ord) (matching port now q st) in
      (
        live,
        subst (Perm live) (matching_lem now q st)
            (sort-perm (more_recent st.ord) (matching port now q st)),
        sort-Pairs (more_recent st.ord) (more_recent-IsStrict st.ord) (matching port now q st),
        refl,
        refl,
      )
