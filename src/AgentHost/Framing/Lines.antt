-- ===== src/AgentHost/Framing/Lines.antt =====
-- The lines of a stream of bytes, and the loop of the splitter over them.
use copy_clipboard_app.Base.{
  ℕ, zero, suc, ◌≤◌, ◌==◌, ◌≡◌, refl, sym, ap, ◌∙◌, false, inl, inr, Option, none, some, List, [],
  ◌∷◌, ◌++◌, length, if◌then◌else◌, Bool-cases, arith, All,
}
use copy_clipboard_app.Protocol.Types.{Bytes}
use copy_clipboard_app.AgentHost.Framing.{
  Splitter, line_feed, prepend, cut, take_line, cut_round, cut_lines,
}

abbrev pub lines_prepend : ℕ → List Bytes × Bytes → List Bytes × Bytes
lines_prepend c ([], tail) = ([], c ∷ tail)
lines_prepend c (l ∷ ls, tail) = ((c ∷ l) ∷ ls, tail)

-- The lines of a stream that end in a line feed, and what stands after the last of them.
unfoldable pub lines_of : Bytes → List Bytes × Bytes
lines_of [] = ([], [])
lines_of (c ∷ cs) =
    let (ls, tail) = lines_of cs in
    if c == line_feed then ([] ∷ ls, tail) else lines_prepend c (ls, tail)

-- What the splitter's first cut says of the lines.
CutLines : Bytes → Option (Bytes × Bytes) → Type 0
CutLines s none = lines_of s ≡ ([], s)
CutLines s (some (bytes, rest)) =
    (lines_of s ≡ (bytes ∷ (lines_of rest).0, (lines_of rest).1)) × (suc (length rest) ≤ length s)

prepend-CutLines :
    (c : ℕ) (cs : Bytes) (o : Option (Bytes × Bytes))
    → (c == line_feed) ≡ false
    → CutLines cs o
    → CutLines (c ∷ cs) (prepend c o)
unfolding CutLines lines_of
prepend-CutLines c cs none e h = rw (e, h) refl
prepend-CutLines c cs (some (bytes, rest)) e h = (rw (e, h.0) refl, omega (arith, h.1))

cut-CutLines : (s : Bytes) → CutLines s (cut s)
unfolding cut CutLines lines_of
cut-CutLines [] = refl
cut-CutLines (c ∷ cs) = elim (Bool-cases (c == line_feed)) [
  | inl e ↦ rw e (rw e refl, omega arith)
  | inr e ↦ rw e (prepend-CutLines c cs (cut cs) e (cut-CutLines cs))
]

-- The lines of a stream, one after another, and then its tail.
abbrev pub take_all : ℕ → List Bytes → Bytes → Splitter → Splitter
take_all max [] tail s = record s { buf = tail }
take_all max (l ∷ ls) tail s = take_all max ls tail (take_line max l [] s)

take_all-buf :
    (max : ℕ) (ls : List Bytes) (tail b : Bytes) (s : Splitter)
    → take_all max ls tail (record s { buf = b }) ≡ take_all max ls tail s
take_all-buf max [] tail b s = refl
take_all-buf max (l ∷ ls) tail b s = refl

cut_round_lem :
    (max fuel : ℕ) (s : Splitter) (o : Option (Bytes × Bytes))
    → CutLines s.buf o
    → length s.buf ≤ suc fuel
    → ((w : Splitter)
        → length w.buf ≤ fuel
        → cut_lines max fuel w ≡ take_all max (lines_of w.buf).0 (lines_of w.buf).1 w)
    → cut_round max (cut_lines max fuel) o s ≡ take_all max (lines_of s.buf).0 (lines_of s.buf).1 s
unfolding CutLines
cut_round_lem max fuel s none h short f = rw h refl
cut_round_lem max fuel s (some (bytes, rest)) h short f =
    let next : Splitter = take_line max bytes rest s in
    f next (omega (arith, h.1, short))
    ∙ take_all-buf max (lines_of rest).0 (lines_of rest).1 rest (take_line max bytes [] s)
    ∙ sym (ap (λ (x : List Bytes × Bytes). take_all max x.0 x.1 s) h.0)

none_left :
    (max : ℕ) (b : Bytes) (s : Splitter)
    → length b ≤ 0
    → s.buf ≡ b
    → s ≡ take_all max (lines_of b).0 (lines_of b).1 s
unfolding lines_of
none_left max [] s h e = ap (λ w. record s { buf = w }) e
none_left max (c ∷ b) s h e = absurd (omega (arith, h))

-- With as much fuel as there are bytes, the loop takes all the lines.
pub cut_lines_lem :
    (max fuel : ℕ) (s : Splitter)
    → length s.buf ≤ fuel
    → cut_lines max fuel s ≡ take_all max (lines_of s.buf).0 (lines_of s.buf).1 s
unfolding cut_lines
cut_lines_lem max zero s h = none_left max s.buf s h refl
cut_lines_lem max (suc fuel) s h =
    cut_round_lem max fuel s (cut s.buf) (cut-CutLines s.buf) h (cut_lines_lem max fuel)

prepend_append :
    (c : ℕ) (ls : List Bytes) (tail b : Bytes)
    → (c == line_feed) ≡ false
    → lines_prepend c (ls ++ (lines_of (tail ++ b)).0, (lines_of (tail ++ b)).1) ≡ (
      (lines_prepend c (ls, tail)).0 ++ (lines_of ((lines_prepend c (ls, tail)).1 ++ b)).0,
      (lines_of ((lines_prepend c (ls, tail)).1 ++ b)).1,
    )
unfolding lines_of
prepend_append c [] tail b e = rw e refl
prepend_append c (l ∷ ls) tail b e = refl

-- The lines of a stream that goes on: what was left over begins the next.
pub lines_of-append :
    (a b : Bytes)
    → lines_of (a ++ b)
      ≡ ((lines_of a).0 ++ (lines_of ((lines_of a).1 ++ b)).0, (lines_of ((lines_of a).1 ++ b)).1)
unfolding lines_of
lines_of-append [] b = refl
lines_of-append (c ∷ a) b = elim (Bool-cases (c == line_feed)) [
  | inl e ↦ rw e (ap (λ (x : List Bytes × Bytes). ([] ∷ x.0, x.1)) (lines_of-append a b))
  | inr e ↦ rw e (
      ap (lines_prepend c) (lines_of-append a b)
      ∙ prepend_append c (lines_of a).0 (lines_of a).1 b e)
]

-- No line feed stands in the bytes.
abbrev pub NoFeed : Bytes → Type 0
NoFeed = All λ c. (c == line_feed) ≡ false

prepend-NoFeed :
    (c : ℕ) (x : List Bytes × Bytes)
    → (c == line_feed) ≡ false
    → NoFeed x.1
    → NoFeed (lines_prepend c x).1
prepend-NoFeed c ([], tail) e h = (e, h)
prepend-NoFeed c (l ∷ ls, tail) e h = h

-- Nor in what stands after the last one.
pub tail-NoFeed : (s : Bytes) → NoFeed (lines_of s).1
unfolding lines_of
tail-NoFeed [] = tt
tail-NoFeed (c ∷ s) = elim (Bool-cases (c == line_feed)) [
  | inl e ↦ rw e (tail-NoFeed s)
  | inr e ↦ rw e (prepend-NoFeed c (lines_of s) e (tail-NoFeed s))
]

-- Bytes without a line feed lengthen the first line that follows, or the tail if there is none.
abbrev pub lengthen : Bytes → List Bytes × Bytes → List Bytes × Bytes
lengthen t ([], tail) = ([], t ++ tail)
lengthen t (l ∷ ls, tail) = ((t ++ l) ∷ ls, tail)

prepend_lengthen :
    (c : ℕ) (t : Bytes) (x : List Bytes × Bytes)
    → lines_prepend c (lengthen t x) ≡ lengthen (c ∷ t) x
prepend_lengthen c t ([], tail) = refl
prepend_lengthen c t (l ∷ ls, tail) = refl

lengthen_nil : (x : List Bytes × Bytes) → x ≡ lengthen [] x
lengthen_nil ([], tail) = refl
lengthen_nil (l ∷ ls, tail) = refl

pub lines_of-lengthen : (t b : Bytes) → NoFeed t → lines_of (t ++ b) ≡ lengthen t (lines_of b)
unfolding lines_of
lines_of-lengthen [] b h = lengthen_nil (lines_of b)
lines_of-lengthen (c ∷ t) b h =
    rw h.0 (ap (lines_prepend c) (lines_of-lengthen t b h.1) ∙ prepend_lengthen c t (lines_of b))
