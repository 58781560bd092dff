-- ===== src/History/Tags.antt =====
-- history.ts: the pure helpers of tabs and previews.
use copy_clipboard_app.Base.{
  Text, codes, text_eq, text_lt, Bool, true, false, not, Option, none, some, List, [], ◌∷◌, ◌++◌,
  length, take, leb, find, keep_if, if◌then◌else◌, includes, without, sort,
}
use copy_clipboard_app.Protocol.Types.{Item, ResolvedRep}
use copy_clipboard_app.Protocol.Constants.{tags_max_per_item, preview_max_chars}
use copy_clipboard_app.Protocol.Tags.{normalize_tag, one_line, is_empty}

pub data ApplyTagOutcome : Type 0 where
  changed : List Text → ApplyTagOutcome
  unchanged invalid at_limit : ApplyTagOutcome

-- `sort()` of strings: by code units
abbrev pub sort_texts : List Text → List Text
sort_texts = sort text_lt

abbrev pub same_bool : Bool → Bool → Bool
same_bool true b = b
same_bool false b = not b

-- `applyTag` after the tag is normalised
unfoldable pub apply_normal_tag : List Text → Text → Bool → ApplyTagOutcome
apply_normal_tag current tag tagged =
    if is_empty tag
    then invalid
    else if same_bool tagged (includes tag current)
    then unchanged
    else if not tagged
    then changed (without tag current)
    else if leb tags_max_per_item (length current)
    then at_limit
    else changed (sort_texts (current ++ tag ∷ []))

unfoldable pub apply_tag : (Text → Text) → List Text → Text → Bool → ApplyTagOutcome
unfolding apply_normal_tag
apply_tag lower current raw tagged = apply_normal_tag current (normalize_tag lower raw) tagged

unfoldable pub filter_by_tag : (Text → Text) → List Item → Option Text → List Item
filter_by_tag lower items none = items
filter_by_tag lower items (some tag) =
    let wanted = normalize_tag lower tag in
    if is_empty wanted then items else keep_if (λ (it : Item). includes wanted it.tags) items

-- The preview of one line, and whether it was cut.
unfoldable pub truncate_preview : Text → Text × Bool
truncate_preview text =
    let line = one_line text in
    if leb (length line) preview_max_chars
    then (line, false)
    else (take preview_max_chars line, true)

abbrev primary_order : List Text
primary_order =
    codes "text/plain"
    ∷ codes "text/uri-list"
    ∷ codes "image/png"
    ∷ codes "text/html"
    ∷ codes "text/rtf"
    ∷ []

unfoldable pub first_of_mimes : List Text → List ResolvedRep → Option ResolvedRep
first_of_mimes [] reps = none
first_of_mimes (mime ∷ mimes) reps =
    let later = first_of_mimes mimes reps in
    elim (find (λ (r : ResolvedRep). text_eq r.mime mime) reps) [ none ↦ later | some r ↦ some r ]

abbrev head? : List ResolvedRep → Option ResolvedRep
head? [] = none
head? (r ∷ reps) = some r

unfoldable pub primary_rep : List ResolvedRep → Option ResolvedRep
unfolding first_of_mimes
primary_rep reps = elim (first_of_mimes primary_order reps) [ none ↦ head? reps | some r ↦ some r ]
