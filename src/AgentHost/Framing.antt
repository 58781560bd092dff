-- ===== src/AgentHost/Framing.antt =====
-- packages/agent-host/src/framing.ts: the splitter of the agent's output into lines, over bytes. A
-- call of `onLine` or `onOverflow` is an event; `onLine` gets the bytes of its line, decoded.
pub mod Lines
pub mod Says
pub mod Chunks
pub mod Examples
use copy_clipboard_app.Base.{
  ℕ, zero, suc, ◌==◌, Bool, true, false, Option, none, some, List, [], ◌∷◌, ◌++◌, length, ltb,
  if◌then◌else◌,
}
use copy_clipboard_app.Protocol.Types.{Bytes}

pub data Event : Type 0 where
  line : Bytes → Event
  overflow : ℕ → Event

pub record Splitter : Type 0 where
  pub buf : Bytes
  pub discarding : Bool
  pub events : List Event

abbrev pub new_splitter : Splitter
new_splitter = record { buf = []; discarding = false; events = [] }

abbrev pub line_feed : ℕ
line_feed = 10

abbrev pub prepend : ℕ → Option (Bytes × Bytes) → Option (Bytes × Bytes)
prepend c none = none
prepend c (some (before, after)) = some (c ∷ before, after)

-- `indexOf(LF)` with the two `subarray`s: what stands before the first line feed, and after it
unfoldable pub cut : Bytes → Option (Bytes × Bytes)
cut [] = none
cut (c ∷ cs) = let later = cut cs in if c == line_feed then some ([], cs) else prepend c later

abbrev pub report : ℕ → Bytes → List Event → List Event
report max bytes events =
    if ltb max (length bytes)
    then events ++ overflow (length bytes) ∷ []
    else if ltb 0 (length bytes)
    then events ++ line bytes ∷ []
    else events

-- What a complete line does: the end of one that is being discarded only ends the discarding.
abbrev pub take_line : ℕ → Bytes → Bytes → Splitter → Splitter
take_line max bytes rest s = record {
  buf = rest;
  discarding = false;
  events = if s.discarding then s.events else report max bytes s.events;
}

abbrev pub cut_round : ℕ → (Splitter → Splitter) → Option (Bytes × Bytes) → Splitter → Splitter
cut_round max again none s = s
cut_round max again (some (bytes, rest)) s = again (take_line max bytes rest s)

-- The loop over the complete lines, for at most `fuel` rounds.
unfoldable pub cut_lines : ℕ → ℕ → Splitter → Splitter
unfolding cut
cut_lines max zero s = s
cut_lines max (suc fuel) s = cut_round max (cut_lines max fuel) (cut s.buf) s

-- What is left: nothing while discarding, and no more than a line may have.
abbrev pub settle : ℕ → Splitter → Splitter
settle max s =
    if s.discarding
    then record s { buf = [] }
    else if ltb max (length s.buf)
    then record { buf = []; discarding = true; events = s.events ++ overflow (length s.buf) ∷ [] }
    else s

-- `push`: a round takes at least the line feed, so there are at most as many as bytes.
unfoldable pub push : ℕ → Bytes → Splitter → Splitter
unfolding cut_lines
push max chunk s =
    let held = s.buf ++ chunk in settle max (cut_lines max (length held) (record s { buf = held }))

unfoldable pub reset : Splitter → Splitter
reset s = record s { buf = []; discarding = false }

unfoldable pub push_all : ℕ → List Bytes → Splitter → Splitter
unfolding push
push_all max [] s = s
push_all max (chunk ∷ chunks) s = push_all max chunks (push max chunk s)
