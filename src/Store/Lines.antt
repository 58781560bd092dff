-- ===== src/Store/Lines.antt =====
-- The log file as its characters: packages/store/src/paths.ts appends to it, and log-store.ts splits
-- it into lines and cuts off a torn one. `none` stands for a file that does not exist.
use copy_clipboard_app.Base.{
  ℕ, Text, Bool, true, false, Option, none, some, List, [], ◌∷◌, ◌++◌, take, if◌then◌else◌, ◌==◌,
}

abbrev pub onto_first : ℕ → List Text → List Text
onto_first c [] = (c ∷ []) ∷ []
onto_first c (t ∷ ts) = (c ∷ t) ∷ ts

-- `text.split('\n')`
unfoldable pub split_lines : Text → List Text
split_lines [] = [] ∷ []
split_lines (c ∷ cs) = let rest = split_lines cs in if c == 10 then [] ∷ rest else onto_first c rest

-- `lines.pop()`: the array without its last element
abbrev pub pop_last : List Text → List Text
pop_last [] = []
pop_last (l ∷ []) = []
pop_last (l ∷ k ∷ ls) = l ∷ pop_last (k ∷ ls)

-- `readLines`. Of an empty text it has its own branch.
unfoldable pub read_lines : Option Text → List Text
unfolding split_lines
read_lines none = []
read_lines (some []) = []
read_lines (some (c ∷ cs)) = pop_last (split_lines (c ∷ cs))

-- `out.join('\n')` with a line feed behind it
unfoldable pub join_lines : List Text → Text
join_lines [] = 10 ∷ []
join_lines (l ∷ []) = l ++ 10 ∷ []
join_lines (l ∷ k ∷ ls) = l ++ (10 ∷ join_lines (k ∷ ls))

abbrev pub text_of : Option Text → Text
text_of none = []
text_of (some t) = t

-- `appendLine0600`. Under `none` it runs to its end; under `some n` it throws when `n` characters of
-- the line with its terminator are in the file.
unfoldable pub append_line : Option ℕ → Text → Option Text → Option Text
append_line none line file = some (text_of file ++ (line ++ 10 ∷ []))
append_line (some n) line file = some (text_of file ++ take n (line ++ 10 ∷ []))

abbrev pub up_to_here : ℕ → Text → Text
up_to_here c [] = if c == 10 then c ∷ [] else []
up_to_here c (d ∷ ds) = c ∷ d ∷ ds

-- What stands behind the last line feed is dropped: `ftruncateSync(fd, cut + 1)`.
unfoldable pub up_to_feed : Text → Text
up_to_feed [] = []
up_to_feed (c ∷ cs) = up_to_here c (up_to_feed cs)

abbrev pub ends_torn : Text → Bool
ends_torn [] = false
ends_torn (c ∷ []) = if c == 10 then false else true
ends_torn (c ∷ d ∷ cs) = ends_torn (d ∷ cs)

unfoldable pub repair : Option Text → Option Text
unfolding up_to_feed
repair none = none
repair (some t) = if ends_torn t then some (up_to_feed t) else some t
