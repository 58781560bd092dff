-- ===== src/Store/Files.antt =====
-- The log file and its lines: what is written line by line is read line by line, and the repair of a
-- torn file leaves the lines that end.
use copy_clipboard_app.Base.{
  ℕ, zero, suc, Text, true, false, some, List, [], ◌∷◌, ◌++◌, ◌≡◌, refl, sym, ap, ◌∙◌, inl, inr,
  take, ◌==◌, arith, All, Bool-cases, ◌⊎◌,
}
use mathlib.Core.List.{append_assoc, append-nil}
use copy_clipboard_app.Store.Platform.{is_one_line}
use copy_clipboard_app.Store.Lines.{
  split_lines, pop_last, read_lines, join_lines, up_to_here, up_to_feed, ends_torn, repair,
}

abbrev pub OneLine : Text → Type 0
OneLine l = is_one_line l ≡ true

-- The text of lines that each end in a line feed.
abbrev pub text_of_lines : List Text → Text
text_of_lines [] = []
text_of_lines (l ∷ ls) = l ++ (10 ∷ text_of_lines ls)

pub text_of_lines-append :
    (ls : List Text) (l : Text) → text_of_lines (ls ++ l ∷ []) ≡ text_of_lines ls ++ (l ++ 10 ∷ [])
text_of_lines-append [] l = refl
text_of_lines-append (k ∷ ls) l =
    ap (λ t. k ++ (10 ∷ t)) (text_of_lines-append ls l)
    ∙ sym (append_assoc k (10 ∷ text_of_lines ls) (l ++ 10 ∷ []))

pub join_lines-text : (l : Text) (ls : List Text) → join_lines (l ∷ ls) ≡ text_of_lines (l ∷ ls)
unfolding join_lines
join_lines-text l [] = refl
join_lines-text l (k ∷ ls) = ap (λ t. l ++ (10 ∷ t)) (join_lines-text k ls)

-- What is split behind a line that ends.
split_lines-line :
    (l rest : Text) → OneLine l → split_lines (l ++ (10 ∷ rest)) ≡ l ∷ split_lines rest
unfolding split_lines
split_lines-line [] rest h = refl
split_lines-line (c ∷ l) rest h = elim (Bool-cases (c == 10)) [
  | inl e ↦ absurd (ground (arith, e, h))
  | inr e ↦ rw (split_lines-line l rest (ground (arith, e, h))) (rw e refl)
]

split_lines_torn : (l : Text) → OneLine l → split_lines l ≡ l ∷ []
unfolding split_lines
split_lines_torn [] h = refl
split_lines_torn (c ∷ l) h = elim (Bool-cases (c == 10)) [
  | inl e ↦ absurd (ground (arith, e, h))
  | inr e ↦ rw (split_lines_torn l (ground (arith, e, h))) (rw e refl)
]

split_lines-text :
    (ls : List Text) (torn : Text)
    → All OneLine ls
    → OneLine torn
    → split_lines (text_of_lines ls ++ torn) ≡ ls ++ torn ∷ []
split_lines-text [] torn h ht = split_lines_torn torn ht
split_lines-text (l ∷ ls) torn h ht =
    ap split_lines (append_assoc l (10 ∷ text_of_lines ls) torn)
    ∙ split_lines-line l (text_of_lines ls ++ torn) h.0
    ∙ ap (λ ks. l ∷ ks) (split_lines-text ls torn h.1 ht)

pop_last-append : (ls : List Text) (l : Text) → pop_last (ls ++ l ∷ []) ≡ ls
pop_last-append [] l = refl
pop_last-append (k ∷ []) l = refl
pop_last-append (k ∷ j ∷ ls) l = ap (λ ks. k ∷ ks) (pop_last-append (j ∷ ls) l)

read_lines-split : (t : Text) → read_lines (some t) ≡ pop_last (split_lines t)
unfolding read_lines
read_lines-split [] = refl
read_lines-split (c ∷ cs) = refl

-- The lines that end are read, and what stands behind them is not.
pub read_lines-text :
    (ls : List Text) (torn : Text)
    → All OneLine ls
    → OneLine torn
    → read_lines (some (text_of_lines ls ++ torn)) ≡ ls
read_lines-text ls torn h ht =
    read_lines-split (text_of_lines ls ++ torn)
    ∙ ap pop_last (split_lines-text ls torn h ht)
    ∙ pop_last-append ls torn

pub read_lines_whole : (ls : List Text) → All OneLine ls → read_lines (some (text_of_lines ls)) ≡ ls
read_lines_whole ls h =
    ap (λ t. read_lines (some t)) (sym (append-nil (text_of_lines ls)))
    ∙ read_lines-text ls [] h refl

up_to_here-line : (c : ℕ) (l rest : Text) → up_to_here c (l ++ (10 ∷ rest)) ≡ c ∷ (l ++ (10 ∷ rest))
up_to_here-line c [] rest = refl
up_to_here-line c (d ∷ l) rest = refl

up_to_here_feed : (t : Text) → up_to_here 10 t ≡ 10 ∷ t
up_to_here_feed [] = refl
up_to_here_feed (d ∷ t) = refl

up_to_feed-line : (l rest : Text) → up_to_feed (l ++ (10 ∷ rest)) ≡ l ++ (10 ∷ up_to_feed rest)
unfolding up_to_feed
up_to_feed-line [] rest = up_to_here_feed (up_to_feed rest)
up_to_feed-line (c ∷ l) rest =
    ap (up_to_here c) (up_to_feed-line l rest) ∙ up_to_here-line c l (up_to_feed rest)

up_to_feed_torn : (l : Text) → OneLine l → up_to_feed l ≡ []
unfolding up_to_feed
up_to_feed_torn [] h = refl
up_to_feed_torn (c ∷ l) h = elim (Bool-cases (c == 10)) [
  | inl e ↦ absurd (ground (arith, e, h))
  | inr e ↦ rw (up_to_feed_torn l (ground (arith, e, h))) (rw e refl)
]

up_to_feed-text :
    (ls : List Text) (torn : Text)
    → OneLine torn
    → up_to_feed (text_of_lines ls ++ torn) ≡ text_of_lines ls
up_to_feed-text [] torn ht = up_to_feed_torn torn ht
up_to_feed-text (l ∷ ls) torn ht =
    ap up_to_feed (append_assoc l (10 ∷ text_of_lines ls) torn)
    ∙ up_to_feed-line l (text_of_lines ls ++ torn)
    ∙ ap (λ t. l ++ (10 ∷ t)) (up_to_feed-text ls torn ht)

up_to_feed_whole : (t : Text) → ends_torn t ≡ false → up_to_feed t ≡ t
unfolding up_to_feed
up_to_feed_whole [] h = refl
up_to_feed_whole (c ∷ []) h = ground arith
up_to_feed_whole (c ∷ d ∷ cs) h = ap (up_to_here c) (up_to_feed_whole (d ∷ cs) h)

repair_lem : (t : Text) → repair (some t) ≡ some (up_to_feed t)
unfolding repair
repair_lem t = elim (Bool-cases (ends_torn t)) [
  | inl e ↦ rw e refl
  | inr e ↦ rw e (ap some (sym (up_to_feed_whole t e)))
]

-- The repair of a file leaves the lines that end, and they alone.
pub repair-text :
    (ls : List Text) (torn : Text)
    → OneLine torn
    → repair (some (text_of_lines ls ++ torn)) ≡ some (text_of_lines ls)
repair-text ls torn ht =
    repair_lem (text_of_lines ls ++ torn) ∙ ap some (up_to_feed-text ls torn ht)

-- A part of a line has no line feed, unless it is the line with its terminator.
pub take-line :
    (n : ℕ) (l : Text)
    → OneLine l
    → OneLine (take n (l ++ 10 ∷ [])) ⊎ (take n (l ++ 10 ∷ []) ≡ l ++ 10 ∷ [])
take-line zero l h = inl refl
take-line (suc zero) [] h = inr refl
take-line (suc (suc n)) [] h = inr refl
take-line (suc n) (c ∷ l) h = elim (Bool-cases (c == 10)) [
  | inl e ↦ absurd (ground (arith, e, h))
  | inr e ↦ elim (take-line n l (ground (arith, e, h))) [
    | inl torn ↦ inl (rw e torn)
    | inr whole ↦ inr (ap (λ t. c ∷ t) whole)
  ]
]
