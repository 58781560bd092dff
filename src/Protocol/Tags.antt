-- ===== src/Protocol/Tags.antt =====
-- packages/protocol/src/constants.ts: the normal forms of tab names and titles. `toLowerCase` of a
-- whole string depends on the tables of Unicode, and is an argument.
use copy_clipboard_app.Base.{
  ℕ, Text, Bool, true, false, Option, none, some, [], ◌∷◌, ◌&&◌, ◌||◌, leb, ◌==◌, take,
  if◌then◌else◌,
}
use copy_clipboard_app.Protocol.Constants.{tag_max_chars}

-- The code units that `\s` matches and `trim` removes.
unfoldable pub is_space : ℕ → Bool
is_space c =
    (leb 9 c && leb c 13)
    || c == 32
    || c == 160
    || c == 5760
    || (leb 8192 c && leb c 8202)
    || c == 8232
    || c == 8233
    || c == 8239
    || c == 8287
    || c == 12288
    || c == 65279

-- `replace(/\s+/g, ' ')`, after a space or not
unfoldable pub collapse : Bool → Text → Text
collapse after [] = []
collapse after (c ∷ cs) =
    let rest = collapse (is_space c) cs in
    if is_space c then if after then rest else 32 ∷ rest else c ∷ rest

unfoldable pub trim_start : Text → Text
trim_start [] = []
trim_start (c ∷ cs) = if is_space c then trim_start cs else c ∷ cs

abbrev pub is_empty : Text → Bool
is_empty [] = true
is_empty (c ∷ cs) = false

unfoldable pub trim_end : Text → Text
trim_end [] = []
trim_end (c ∷ cs) = let rest = trim_end cs in if is_space c && is_empty rest then [] else c ∷ rest

unfoldable pub trim : Text → Text
unfolding trim_start trim_end
trim s = trim_end (trim_start s)

-- `replace(/\s+/g, ' ').trim()`
unfoldable pub one_line : Text → Text
unfolding collapse trim is_space
one_line s = trim (collapse false s)

unfoldable pub normalize_tag : (Text → Text) → Text → Text
unfolding one_line trim
normalize_tag to_lower_case raw = trim (take tag_max_chars (to_lower_case (one_line raw)))

unfoldable pub normalize_title : Option Text → Option Text
unfolding one_line
normalize_title none = none
normalize_title (some raw) = let title = one_line raw in if is_empty title then none else some title
