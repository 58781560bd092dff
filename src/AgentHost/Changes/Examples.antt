-- ===== src/AgentHost/Changes/Examples.antt =====
-- A change that waits for chunks, one whose bytes are inline, and one that asks for a stream that is
-- taken.
use copy_clipboard_app.Base.{
  ℕ, ◌+◌, ◌≡◌, refl, Text, text_eq, codes, true, Option, none, some, List, [], ◌∷◌, map, get, set,
  delete,
}
use copy_clipboard_app.Protocol.Result.{rep_timeout}
use copy_clipboard_app.Protocol.Types.{Confidence}
use copy_clipboard_app.AgentHost.Reassembler.{
  Codec, declare, chunk, take_bytes, decode_base64, is_strict_base64, finish, abort, mark_ended,
}
use copy_clipboard_app.AgentHost.Reassembler
use copy_clipboard_app.AgentHost.Changes.{
  Rep, ChangedWire, ChangedPayload, new_assembler, Event, changed, chunk_came, handle, handle_each,
  handle_changed, handle_chunk, declare_each, reassemble, settle, call_back, call_back_each,
  abort_all,
}
use copy_clipboard_app.AgentHost.Changes
use copy_clipboard_app.AgentHost.Changes.Counts.{occurs, times_emitted}
use copy_clipboard_app.AgentHost.Changes.Once.{change_once}

-- A codec that copies, and a hash that is the bytes.
plain : Codec
plain = record { from_base64 = λ s. s; to_base64 = λ b. b; content_hash = λ b. b }

abbrev rep : Option Text → Option Text → Rep
rep inline rep_id = record {
  mime = codes "text/plain";
  uti = none;
  byte_length = 4;
  sha256 = codes "abcd";
  inline = inline;
  rep_id = rep_id;
}

abbrev wire : List Rep → ChangedWire
wire reps = record {
  change_count = 7;
  hints = [];
  reps = reps;
  frontmost_bundle_id = none;
  frontmost_name = none;
  attribution_confidence = Confidence.unknown;
}

abbrev events : List Event
events =
    changed 0 (wire (rep none (some (codes "r1")) ∷ rep (some (codes "abcd")) none ∷ []))
    ∷ changed 1 (wire (rep (some (codes "abcd")) none ∷ []))
    ∷ changed 2 (wire (rep none (some (codes "r1")) ∷ rep none (some (codes "r2")) ∷ []))
    ∷ chunk_came 3 (record { rep_id = codes "r1"; seq = 0; final = true; b64 = codes "abcd" })
    ∷ []

-- The second change is emitted at once, the first when its chunk has come; the third still waits.
order :
    map (λ (e : ℕ × ChangedPayload). e.0) (handle_each plain events new_assembler).emitted
    ≡ 1 ∷ 0 ∷ []
unfolding handle_each handle handle_changed handle_chunk declare_each reassemble settle call_back
    call_back_each declare chunk take_bytes decode_base64 is_strict_base64 finish abort mark_ended
    Changes.finish Reassembler.refuse get set delete text_eq plain
order = refl

change_once_example :
    (let a = handle_each plain events new_assembler in
      (times_emitted 2 a.emitted + occurs 2 a.pending ≡ 1)
      × (times_emitted 2 (abort_all rep_timeout a).emitted ≡ 1))
change_once_example = change_once plain events rep_timeout 2
