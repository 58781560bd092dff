-- ===== src/AgentHost/Framing/Says.antt =====
-- framing.ts: what the splitter is to report of a stream, whatever its chunks.
use mathlib.Core.List.{append_assoc, append-nil}
use copy_clipboard_app.Base.{
  ℕ, ◌≡◌, refl, sym, ap, ◌∙◌, inl, inr, Option, none, some, List, [], ◌∷◌, ◌++◌, length, ltb,
  if◌then◌else◌, Bool-cases,
}
use copy_clipboard_app.Protocol.Types.{Bytes}
use copy_clipboard_app.AgentHost.Framing.{Event, line, overflow, Splitter, report}
use copy_clipboard_app.AgentHost.Framing.Lines.{lines_of}

-- What an event says: a line, or that some line was too long.
abbrev pub Said : Type 0
Said = Option Bytes

abbrev pub said : List Event → List Said
said [] = []
said (line l ∷ es) = some l ∷ said es
said (overflow n ∷ es) = none ∷ said es

-- What a line of the stream is to say: that it is too long, or itself, unless it is empty.
abbrev pub says : ℕ → Bytes → List Said
says max l = if ltb max (length l) then none ∷ [] else if ltb 0 (length l) then some l ∷ [] else []

abbrev pub say_all : ℕ → List Bytes → List Said
say_all max [] = []
say_all max (l ∷ ls) = says max l ++ say_all max ls

-- A stream to which a splitter that starts anew has come.
abbrev pub joined : List Bytes → Bytes
joined [] = []
joined (chunk ∷ chunks) = chunk ++ joined chunks

-- What the whole stream is to say, its unfinished line included if that is too long already.
abbrev pub to_say : ℕ → Bytes → List Said
to_say max stream =
    say_all max (lines_of stream).0
    ++ (if ltb max (length (lines_of stream).1) then none ∷ [] else [])

-- The splitter has said what the stream is to say, and holds its unfinished line, or discards it.
pub record IsAt (max : ℕ) (stream : Bytes) (s : Splitter) : Type 0 where
  pub events : said s.events ≡ to_say max stream
  pub discarding : s.discarding ≡ ltb max (length (lines_of stream).1)
  pub buf : s.buf ≡ (if ltb max (length (lines_of stream).1) then [] else (lines_of stream).1)

pub said-append : (es fs : List Event) → said (es ++ fs) ≡ said es ++ said fs
said-append [] fs = refl
said-append (line l ∷ es) fs = ap (λ x. some l ∷ x) (said-append es fs)
said-append (overflow n ∷ es) fs = ap (λ x. none ∷ x) (said-append es fs)

pub said-report :
    (max : ℕ) (l : Bytes) (es : List Event) → said (report max l es) ≡ said es ++ says max l
said-report max l es = elim (Bool-cases (ltb max (length l))) [
  | inl e ↦ rw e (said-append es (overflow (length l) ∷ []))
  | inr e ↦ elim (Bool-cases (ltb 0 (length l))) [
    | inl f ↦ rw (e, f) (said-append es (line l ∷ []))
    | inr f ↦ rw (e, f) (sym (append-nil (said es)))
  ]
]

pub say_all-append :
    (max : ℕ) (ls ks : List Bytes) → say_all max (ls ++ ks) ≡ say_all max ls ++ say_all max ks
say_all-append max [] ks = refl
say_all-append max (l ∷ ls) ks =
    ap (λ x. says max l ++ x) (say_all-append max ls ks)
    ∙ sym (append_assoc (says max l) (say_all max ls) (say_all max ks))
