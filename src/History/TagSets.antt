-- ===== src/History/TagSets.antt =====
-- history.ts: what `applyTag` makes of the tags of an item.
use copy_clipboard_app.Base.{
  suc, Text, text_lt, text_eq, text_eq_iff, ◌≡◌, ◌≤◌, refl, ◌∙◌, Bool, true, false, inl, inr, List,
  [], ◌∷◌, ◌++◌, arith, leb, leb→le, length, if◌then◌else◌, Bool-cases, includes, without,
  includes-without, includes-append, NoRepeats, NoRepeats-append, without-NoRepeats, sort,
  insert_sorted,
}
use copy_clipboard_app.Protocol.Constants.{tags_max_per_item}
use copy_clipboard_app.Protocol.Tags.{normalize_tag, is_empty}
use copy_clipboard_app.History.Tags.{
  ApplyTagOutcome, changed, unchanged, invalid, at_limit, apply_tag, apply_normal_tag, same_bool,
  sort_texts,
}

module _ (before : Text → Text → Bool) where
  includes-insert_sorted :
      (k x : Text) (ys : List Text)
      → includes k (insert_sorted before x ys) ≡ (if text_eq x k then true else includes k ys)
  unfolding insert_sorted includes
  includes-insert_sorted k x [] = refl
  includes-insert_sorted k x (y ∷ ys) = ground (arith, includes-insert_sorted k x ys)

  includes-sort : (k : Text) (xs : List Text) → includes k (sort before xs) ≡ includes k xs
  unfolding sort includes
  includes-sort k [] = refl
  includes-sort k (x ∷ xs) =
      ground (arith, includes-insert_sorted k x (sort before xs), includes-sort k xs)

  insert_sorted-NoRepeats :
      (x : Text) (ys : List Text)
      → includes x ys ≡ false
      → NoRepeats ys
      → NoRepeats (insert_sorted before x ys)
  unfolding insert_sorted includes
  insert_sorted-NoRepeats x [] e h = (refl, tt)
  insert_sorted-NoRepeats x (y ∷ ys) e h = elim (Bool-cases (before y x)) [
    | inl b ↦ rw b (
      ground (arith, includes-insert_sorted y x ys, text_eq_iff x y, text_eq_iff y x, h.0),
      insert_sorted-NoRepeats x ys (ground arith) h.1,
    )
    | inr b ↦ rw b (e, h)
  ]

  sort-NoRepeats : (xs : List Text) → NoRepeats xs → NoRepeats (sort before xs)
  unfolding sort
  sort-NoRepeats [] h = tt
  sort-NoRepeats (x ∷ xs) h =
      insert_sorted-NoRepeats x (sort before xs) (includes-sort x xs ∙ h.0) (sort-NoRepeats xs h.1)

  length-insert_sorted :
      (x : Text) (ys : List Text) → length (insert_sorted before x ys) ≡ suc (length ys)
  unfolding insert_sorted
  length-insert_sorted x [] = refl
  length-insert_sorted x (y ∷ ys) = ground (arith, length-insert_sorted x ys)

  length-sort : (xs : List Text) → length (sort before xs) ≡ length xs
  unfolding sort
  length-sort [] = refl
  length-sort (x ∷ xs) = omega (arith, length-insert_sorted x (sort before xs), length-sort xs)

length-without : (k : Text) (s : List Text) → length (without k s) ≤ length s
unfolding without
length-without k [] = omega arith
length-without k (j ∷ s) = ground (arith, length-without k s)

length-add : (s : List Text) (k : Text) → length (s ++ k ∷ []) ≡ suc (length s)
length-add [] k = refl
length-add (j ∷ s) k = omega (arith, length-add s k)

-- The tags that an item may have: at most eight, none twice.
pub record IsTagSet (tags : List Text) : Type 0 where
  pub short : length tags ≤ tags_max_per_item
  pub once : NoRepeats tags

-- Of `wanted`, the second list says what was asked, and of every other tag what the first does.
pub record IsTagged (wanted : Text) (tagged : Bool) (current tags : List Text) : Type 0 where
  pub done : includes wanted tags ≡ tagged
  pub others : (k : Text) → text_eq wanted k ≡ false → includes k tags ≡ includes k current

-- The answer is the new tags, or one of the three that change nothing, which it is rightly.
abbrev pub Answers : Text → Bool → List Text → ApplyTagOutcome → Type 0
Answers wanted tagged current (changed tags) = IsTagSet tags × IsTagged wanted tagged current tags
Answers wanted tagged current unchanged = includes wanted current ≡ tagged
Answers wanted tagged current invalid = wanted ≡ []
Answers wanted tagged current at_limit =
    (tagged ≡ true) × (includes wanted current ≡ false) × (tags_max_per_item ≤ length current)

empty_is_nil : (s : Text) → is_empty s ≡ true → s ≡ []
empty_is_nil [] h = refl
empty_is_nil (c ∷ s) h = cc

untagged :
    (wanted : Text) (current : List Text)
    → IsTagSet current
    → IsTagSet (without wanted current) × IsTagged wanted false current (without wanted current)
untagged wanted current w = (
  record {
    short = omega (arith, length-without wanted current, w.short);
    once = without-NoRepeats wanted current w.once;
  },
  record {
    done = ground (arith, includes-without wanted wanted current, text_eq_iff wanted wanted);
    others = λ k h. ground (arith, includes-without wanted k current);
  },
)

added-IsTagSet :
    (wanted : Text) (current : List Text)
    → IsTagSet current
    → includes wanted current ≡ false
    → leb tags_max_per_item (length current) ≡ false
    → IsTagSet (sort_texts (current ++ wanted ∷ []))
      × IsTagged wanted true current (sort_texts (current ++ wanted ∷ []))
unfolding includes
added-IsTagSet wanted current w new room =
    let added : List Text = current ++ wanted ∷ [] in
    (
      record {
        short = ground (arith, length-sort text_lt added, length-add current wanted);
        once = sort-NoRepeats text_lt added (NoRepeats-append current wanted w.once new);
      },
      record {
        done = ground (
          arith,
          includes-sort text_lt wanted added,
          includes-append wanted current (wanted ∷ []),
          text_eq_iff wanted wanted,
        );
        others = λ k h.
            ground (arith, includes-sort text_lt k added, includes-append k current (wanted ∷ []));
      },
    )

apply_normal_tag-Answers :
    (wanted : Text) (tagged : Bool) (current : List Text)
    → IsTagSet current
    → Answers wanted tagged current (apply_normal_tag current wanted tagged)
unfolding apply_normal_tag
apply_normal_tag-Answers wanted tagged current w = elim (Bool-cases (is_empty wanted)) [
  | inl e ↦ rw e (empty_is_nil wanted e)
  | inr named ↦ elim (Bool-cases (same_bool tagged (includes wanted current))) [
    | inl e ↦ rw (named, e) (ground arith)
    | inr other ↦ elim (Bool-cases tagged) [
      | inr off ↦ rw (named, other, off) (untagged wanted current w)
      | inl on ↦ elim (Bool-cases (leb tags_max_per_item (length current))) [
        | inl full ↦
            rw (named, other, on, full)
              (refl, ground arith, leb→le tags_max_per_item (length current) full)
        | inr room ↦
            rw (named, other, on, room) (added-IsTagSet wanted current w (ground arith) room)
      ]
    ]
  ]
]

-- Of tags that are a tag set, `applyTag` makes a tag set in which the normal form of the name stands
-- if it was asked for and else does not, and which has the other tags that were there. Otherwise it
-- says that the name is empty, or that the tags are as asked already, or that there are eight.
pub apply_tag_lem :
    (lower : Text → Text) (current : List Text) (raw : Text) (tagged : Bool)
    → IsTagSet current
    → Answers (normalize_tag lower raw) tagged current (apply_tag lower current raw tagged)
unfolding apply_tag
apply_tag_lem lower current raw tagged w =
    apply_normal_tag-Answers (normalize_tag lower raw) tagged current w
