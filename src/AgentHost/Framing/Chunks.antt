-- ===== src/AgentHost/Framing/Chunks.antt =====
-- framing.ts: what the splitter reports does not depend on how the stream is cut into chunks.
use mathlib.Core.List.{append_assoc, append-nil}
use copy_clipboard_app.Base.{
  ℕ, ◌≤◌, ◌≡◌, refl, sym, ap, ◌∙◌, subst, true, false, inl, inr, none, List, [], ◌∷◌, ◌++◌, length,
  ltb, if◌then◌else◌, Bool-cases, arith, length-append,
}
use copy_clipboard_app.Protocol.Types.{Bytes}
use copy_clipboard_app.AgentHost.Framing.{
  overflow, Splitter, new_splitter, take_line, settle, push, push_all,
}
use copy_clipboard_app.AgentHost.Framing.Lines.{
  lines_of, take_all, cut_lines_lem, lines_of-append, tail-NoFeed, lengthen, lines_of-lengthen,
}
use copy_clipboard_app.AgentHost.Framing.Says.{
  said, says, say_all, joined, to_say, IsAt, said-append, said-report, say_all-append,
}

-- Without discarding, the lines are all said, and the tail is held.
take_all_plain :
    (max : ℕ) (ls : List Bytes) (tail : Bytes) (s : Splitter)
    → s.discarding ≡ false
    → (said (take_all max ls tail s).events ≡ said s.events ++ say_all max ls)
      × ((take_all max ls tail s).discarding ≡ false)
      × ((take_all max ls tail s).buf ≡ tail)
take_all_plain max [] tail s e = (sym (append-nil (said s.events)), e, refl)
take_all_plain max (l ∷ ls) tail s e =
    let (f, g, h) = take_all_plain max ls tail (take_line max l [] s) refl in
    (
      f
          ∙ ap (λ x. x ++ say_all max ls) (rw e (said-report max l s.events))
          ∙ append_assoc (said s.events) (says max l) (say_all max ls),
      g,
      h,
    )

-- After the lines `ls` and with `tail` in hand, the end of a push.
settle-IsAt :
    (max : ℕ) (ls : List Bytes) (tail stream : Bytes) (s : Splitter)
    → lines_of stream ≡ (ls, tail)
    → said s.events ≡ say_all max ls
    → s.discarding ≡ false
    → s.buf ≡ tail
    → IsAt max stream (settle max s)
settle-IsAt max ls tail stream s e f g h = elim (Bool-cases (ltb max (length tail))) [
  | inl long ↦
      rw (g, h, long)
        (record {
          events =
              rw (e, long)
                (said-append s.events (overflow (length tail) ∷ []) ∙ ap (λ x. x ++ none ∷ []) f);
          discarding = rw e (sym long);
          buf = rw (e, long) refl;
        })
  | inr short ↦
      rw (g, h, short)
        (record {
          events = rw (e, short) (f ∙ sym (append-nil (say_all max ls)));
          discarding = rw e (sym short);
          buf = rw (e, short) refl;
        })
]

-- A line of which the beginning has been discarded.
long_line : (max : ℕ) (t l : Bytes) → ltb max (length t) ≡ true → says max (t ++ l) ≡ none ∷ []
long_line max t l h = ground (arith, length-append t l)

-- The end of a push that began while no line was being discarded.
plain-IsAt :
    (max : ℕ) (ls : List Bytes) (stream held : Bytes) (s : Splitter)
    → lines_of stream ≡ (ls ++ (lines_of held).0, (lines_of held).1)
    → said s.events ≡ say_all max ls
    → s.discarding ≡ false
    → IsAt max stream (settle max (take_all max (lines_of held).0 (lines_of held).1 s))
plain-IsAt max ls stream held s e f g =
    let (told, open', rest) = take_all_plain max (lines_of held).0 (lines_of held).1 s g in
    settle-IsAt max (ls ++ (lines_of held).0) (lines_of held).1 stream
      (take_all max (lines_of held).0 (lines_of held).1 s) e
      (told
        ∙ ap (λ x. x ++ say_all max (lines_of held).0) f
        ∙ sym (say_all-append max ls (lines_of held).0))
      open' rest

-- And of one that began in the middle of a line that is too long: `t` is its beginning.
long-IsAt :
    (max : ℕ) (ls : List Bytes) (t stream : Bytes) (x : List Bytes × Bytes) (s : Splitter)
    → lines_of stream ≡ (ls ++ (lengthen t x).0, (lengthen t x).1)
    → said s.events ≡ say_all max ls ++ none ∷ []
    → s.discarding ≡ true
    → ltb max (length t) ≡ true
    → IsAt max stream (settle max (take_all max x.0 x.1 s))
long-IsAt max ls t stream ([], tail) s e f g h =
    let longer : ltb max (length (t ++ tail)) ≡ true = ground (arith, length-append t tail) in
    rw g (record {
      events = rw (e, longer) (f ∙ ap (λ x. say_all max x ++ none ∷ []) (sym (append-nil ls)));
      discarding = rw e (sym longer);
      buf = rw (e, longer) refl;
    })
long-IsAt max ls t stream (l ∷ ks, tail) s e f g h =
    let (told, open', rest) = take_all_plain max ks tail (take_line max l [] s) refl in
    settle-IsAt max (ls ++ (t ++ l) ∷ ks) tail stream (take_all max (l ∷ ks) tail s) e
      (told
        ∙ ap (λ x. x ++ say_all max ks) (rw g f)
        ∙ append_assoc (say_all max ls) (none ∷ []) (say_all max ks)
        ∙ ap (λ x. say_all max ls ++ (x ++ say_all max ks)) (sym (long_line max t l h))
        ∙ sym (say_all-append max ls ((t ++ l) ∷ ks)))
      open' rest

push-IsAt :
    (max : ℕ) (stream chunk : Bytes) (s : Splitter)
    → IsAt max stream s
    → IsAt max (stream ++ chunk) (push max chunk s)
unfolding push
push-IsAt max stream chunk s a =
    let held : Bytes = s.buf ++ chunk in
    let ls : List Bytes = (lines_of stream).0 in
    let t : Bytes = (lines_of stream).1 in
    subst (λ w. IsAt max (stream ++ chunk) (settle max w))
      (sym (cut_lines_lem max (length held) (record s { buf = held }) (omega arith)))
      (elim (Bool-cases (ltb max (length t))) [
        | inr short ↦
            resume (t ++ chunk) (ap (λ b. b ++ chunk) (a.buf ∙ ap (λ b. if b then [] else t) short))
              (plain-IsAt max ls (stream ++ chunk) (t ++ chunk) (record s { buf = t ++ chunk })
                (lines_of-append stream chunk)
                (a.events
                  ∙ ap (λ b. say_all max ls ++ (if b then none ∷ [] else [])) short
                  ∙ append-nil (say_all max ls))
                (a.discarding ∙ short))
        | inl long ↦
            resume chunk (ap (λ b. b ++ chunk) (a.buf ∙ ap (λ b. if b then [] else t) long)) (
              long-IsAt max ls t (stream ++ chunk) (lines_of chunk) (record s { buf = chunk })
                (lines_of-append stream chunk
                  ∙ ap (λ (x : List Bytes × Bytes). (ls ++ x.0, x.1))
                      (lines_of-lengthen t chunk (tail-NoFeed stream)))
                (a.events ∙ ap (λ b. say_all max ls ++ (if b then none ∷ [] else [])) long)
                (a.discarding ∙ long) long)
      ])
  where
    resume :
        (h : Bytes)
        → s.buf ++ chunk ≡ h
        → IsAt max
            (stream ++ chunk)
            (settle max (take_all max (lines_of h).0 (lines_of h).1 (record s { buf = h })))
        → IsAt max (stream ++ chunk) (
            settle max (
              take_all max
                (lines_of (s.buf ++ chunk)).0
                (lines_of (s.buf ++ chunk)).1
                (record s { buf = s.buf ++ chunk })))
    resume h e k =
        subst
          (λ z.
            IsAt max (stream ++ chunk)
              (settle max (take_all max (lines_of z).0 (lines_of z).1 (record s { buf = z }))))
          (sym e) k

push_all-IsAt :
    (max : ℕ) (chunks : List Bytes) (stream : Bytes) (s : Splitter)
    → IsAt max stream s
    → IsAt max (stream ++ joined chunks) (push_all max chunks s)
unfolding push_all
push_all-IsAt max [] stream s a = subst (λ z. IsAt max z s) (sym (append-nil stream)) a
push_all-IsAt max (chunk ∷ chunks) stream s a =
    subst (λ z. IsAt max z (push_all max chunks (push max chunk s)))
      (append_assoc stream chunk (joined chunks))
      (push_all-IsAt max chunks (stream ++ chunk) (push max chunk s)
        (push-IsAt max stream chunk s a))

new_splitter-IsAt : (max : ℕ) → IsAt max [] new_splitter
unfolding lines_of
new_splitter-IsAt max = elim (Bool-cases (ltb max 0)) [
  | inl e ↦ absurd (ground arith)
  | inr e ↦ record { events = rw e refl; discarding = sym e; buf = rw e refl }
]

held_bound : (max : ℕ) (t : Bytes) → length (if ltb max (length t) then [] else t) ≤ max
held_bound max t = ground arith

-- However the stream is cut into chunks, a new splitter reports the same: of each line that ends in a
-- line feed, in order, that it is too long if it has more than `max` bytes, nothing if it is empty,
-- and else the line; and of the unfinished rest, once, if it is too long. It holds that rest, or
-- nothing if it is too long, so never more than `max` bytes.
pub push_all_lem :
    (max : ℕ) (chunks : List Bytes)
    → let s : Splitter = push_all max chunks new_splitter in
      (said s.events ≡ to_say max (joined chunks))
      × (s.buf ≡ (
          if ltb max (length (lines_of (joined chunks)).1)
          then []
          else (lines_of (joined chunks)).1))
      × (length s.buf ≤ max)
push_all_lem max chunks =
    let a = push_all-IsAt max chunks [] new_splitter (new_splitter-IsAt max) in
    (
      a.events,
      a.buf,
      subst (λ b. length b ≤ max) (sym a.buf) (held_bound max (lines_of (joined chunks)).1),
    )
