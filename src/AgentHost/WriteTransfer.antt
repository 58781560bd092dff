-- ===== src/AgentHost/WriteTransfer.antt =====
-- packages/agent-host/src/write-transfer.ts: a write to the clipboard, in one line if it fits and
-- else in chunks. The agent, the clock and the codec are arguments; the bytes that are overwritten
-- with zeros at the end are left out.
pub mod Pieces
pub mod Examples
use copy_clipboard_app.Base.{
  ℕ, zero, suc, ◌+◌, ◌-◌, min, Text, text_eq, Bool, true, false, not, ◌||◌, Option, none, some,
  List, [], ◌∷◌, length, leb, ltb, take, drop, sum_by, if◌then◌else◌,
}
use copy_clipboard_app.Protocol.Result.{
  Result, ErrorCode, ok, err, timeout, line_too_long, bad_params, rep_too_many, rep_overflow,
  rep_bad_base64,
}
use copy_clipboard_app.Protocol.Types.{Bytes}
use copy_clipboard_app.Protocol.Tags.{is_empty}
use copy_clipboard_app.Protocol.Constants.{
  chunk_payload_bytes, max_line_bytes, max_rep_bytes, max_write_reps, max_write_bytes,
  write_transfer_timeout_ms,
}

pub record WriteRep : Type 0 where
  pub mime : Text
  pub uti : Option Text
  pub b64 : Text

pub record WriteParams : Type 0 where
  pub transient : Bool
  pub reps : List WriteRep

pub record BeginRep : Type 0 where
  pub mime : Text
  pub uti : Option Text
  pub byte_length : ℕ
  pub sha256 : Text

pub data Request : Type 0 where
  write : WriteParams → Request
  write_begin : Text → Bool → List BeginRep → Request
  write_chunk : Text → ℕ → ℕ → Text → Request
  write_commit : Text → Request
  write_abort : Text → Request

-- The agent and what stands around it; `Answer` is the result of a write.
pub record Transport : Type 1 where
  pub State : Type 0
  pub Answer : Type 0
  pub request : Request → ℕ → State → Result Answer × State
  pub now : State → ℕ
  pub supports_chunks : State → Bool
  pub next_id : State → Text × State
  pub from_base64 : Text → Bytes
  pub to_base64 : Bytes → Text
  pub content_hash : Bytes → Text
  -- The length of the line of a write whose representations are empty
  pub envelope_bytes : WriteParams → ℕ

-- `Math.ceil(MAX_REP_BYTES / 3) * 4`
abbrev max_b64_chars : ℕ
max_b64_chars = 27_962_028

abbrev uti_too_long : Option Text → Bool
uti_too_long none = false
uti_too_long (some uti) = ltb 255 (length uti)

abbrev cons_bytes : Bytes → Result (List Bytes) → Result (List Bytes)
cons_bytes b (ok bs) = ok (b ∷ bs)
cons_bytes b (err c) = err c

-- The slices of at most `CHUNK_PAYLOAD_BYTES`, with their numbers, for at most `fuel` rounds.
unfoldable pub pieces : ℕ → ℕ → Bytes → List (ℕ × Bytes)
pieces zero seq bytes = []
pieces (suc fuel) seq [] = []
pieces (suc fuel) seq (b ∷ bytes) =
    (seq, take chunk_payload_bytes (b ∷ bytes))
    ∷ pieces fuel (suc seq) (drop chunk_payload_bytes (b ∷ bytes))

-- A round takes at least one byte.
unfoldable pub pieces_of : Bytes → List (ℕ × Bytes)
unfolding pieces
pieces_of bytes = pieces (length bytes) 0 bytes

module _ (t : Transport) where
  -- The loop over the representations, with the bytes that came before.
  unfoldable pub decode_all : ℕ → List WriteRep → Result (List Bytes)
  decode_all total [] = ok []
  decode_all total (rep ∷ reps) =
      let bytes = t.from_base64 rep.b64 in
      let sum = total + length bytes in
      let rest = decode_all sum reps in
      if ltb max_b64_chars (length rep.b64)
      then err rep_overflow
      else if is_empty rep.mime || ltb 255 (length rep.mime) || uti_too_long rep.uti
      then err bad_params
      else if not (text_eq (t.to_base64 bytes) rep.b64)
      then err rep_bad_base64
      else if ltb max_rep_bytes (length bytes) || ltb max_write_bytes sum
      then err rep_overflow
      else cons_bytes bytes rest

  -- `send`: no request begins after the deadline.
  unfoldable pub send : ℕ → ℕ → Request → t.State → Result t.Answer × t.State
  send deadline timeout_ms req s =
      if leb deadline (t.now s)
      then (err timeout, s)
      else t.request req (min timeout_ms (deadline - t.now s)) s

  abbrev when_sent :
      Result t.Answer × t.State
      → (t.State → Result (Unit {0}) × t.State)
      → Result (Unit {0}) × t.State
  when_sent (ok a, s) next = next s
  when_sent (err c, s) next = (err c, s)

  unfoldable pub send_pieces :
      ℕ → ℕ → Text → ℕ → List (ℕ × Bytes) → t.State → Result (Unit {0}) × t.State
  unfolding send
  send_pieces deadline timeout_ms id index [] s = (ok tt, s)
  send_pieces deadline timeout_ms id index ((seq, bytes) ∷ ps) s =
      when_sent (send deadline timeout_ms (write_chunk id index seq (t.to_base64 bytes)) s)
        (send_pieces deadline timeout_ms id index ps)

  abbrev and_then :
      Result (Unit {0}) × t.State
      → (t.State → Result (Unit {0}) × t.State)
      → Result (Unit {0}) × t.State
  and_then (ok u, s) next = next s
  and_then (err c, s) next = (err c, s)

  unfoldable pub send_reps : ℕ → ℕ → Text → ℕ → List Bytes → t.State → Result (Unit {0}) × t.State
  unfolding send_pieces pieces_of
  send_reps deadline timeout_ms id index [] s = (ok tt, s)
  send_reps deadline timeout_ms id index (bytes ∷ rest) s =
      and_then (send_pieces deadline timeout_ms id index (pieces_of bytes) s)
        (send_reps deadline timeout_ms id (suc index) rest)

  begin_reps : List WriteRep → List Bytes → List BeginRep
  begin_reps [] bs = []
  begin_reps (rep ∷ reps) [] = []
  begin_reps (rep ∷ reps) (b ∷ bs) =
      record { mime = rep.mime; uti = rep.uti; byte_length = length b; sha256 = t.content_hash b }
      ∷ begin_reps reps bs

  -- `finally`: what was not committed is aborted, and the abort's own answer is not looked at.
  abbrev abort_with : ℕ → Text → ErrorCode → t.State → Result t.Answer × t.State
  abort_with timeout_ms id c s = (err c, (t.request (write_abort id) (min timeout_ms 1_000) s).1)

  abbrev finally : ℕ → Text → Result t.Answer × t.State → Result t.Answer × t.State
  finally timeout_ms id (ok a, s) = (ok a, s)
  finally timeout_ms id (err c, s) = abort_with timeout_ms id c s

  abbrev commit : ℕ → ℕ → Text → Result (Unit {0}) × t.State → Result t.Answer × t.State
  commit deadline timeout_ms id (err c, s) = (err c, s)
  commit deadline timeout_ms id (ok u, s) = send deadline timeout_ms (write_commit id) s

  unfoldable pub upload : ℕ → WriteParams → List Bytes → t.State → Result t.Answer × t.State
  unfolding send_reps begin_reps
  upload timeout_ms params decoded s0 =
      let (id, s) = t.next_id s0 in
      let deadline = t.now s + write_transfer_timeout_ms in
      finally timeout_ms id (
        commit deadline timeout_ms id (
          when_sent
            (send deadline timeout_ms
              (write_begin id params.transient (begin_reps params.reps decoded)) s)
            (send_reps deadline timeout_ms id 0 decoded)))

  abbrev transfer : ℕ → WriteParams → Result (List Bytes) → t.State → Result t.Answer × t.State
  transfer timeout_ms params (err c) s = (err c, s)
  transfer timeout_ms params (ok decoded) s =
      let line = t.envelope_bytes params + sum_by (λ (r : WriteRep). length r.b64) params.reps in
      if leb line max_line_bytes
      then t.request (write params) timeout_ms s
      else if not (t.supports_chunks s)
      then (err line_too_long, s)
      else upload timeout_ms params decoded s

  -- A write, while another is in progress or not.
  unfoldable pub write_clipboard : Bool → WriteParams → ℕ → t.State → Result t.Answer × t.State
  unfolding decode_all upload
  write_clipboard in_progress params timeout_ms s =
      if in_progress || leb (length params.reps) 0 || ltb max_write_reps (length params.reps)
      then (err rep_too_many, s)
      else transfer timeout_ms params (decode_all 0 params.reps) s
