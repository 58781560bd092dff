-- ===== src/Store/Log.antt =====
-- packages/store/src/log-store.ts: the state of an open store, `sealAndAppend`, `appendEvent`,
-- `checkpoint` and `readAll`. A `Tick` has what the platform does during one append.
use copy_clipboard_app.Base.{
  ℕ, ◌+◌, ◌-◌, Text, text_eq, Bool, true, false, Option, none, some, List, [], ◌∷◌, ◌++◌, map,
  if◌then◌else◌, ◌==◌, Dict, get,
}
use copy_clipboard_app.Protocol.Types.{Bytes, RepRef, StoreEvent}
use copy_clipboard_app.Protocol.Result.{
  Result, ok, err, ◌>>=◌, ◌>>◌, ensure, store_io, store_corrupt, blob_missing,
}
use copy_clipboard_app.History.Ports.{StoreEventInput, to_stored, stamp}
use copy_clipboard_app.Store.Platform.{Platform}
use copy_clipboard_app.Store.Lines.{append_line, read_lines}
use copy_clipboard_app.Store.Chain.{chain_genesis, chain_next, check_link}
use copy_clipboard_app.Store.Record.{
  StoreEventKind, kind_text, anchor_aad_seq, seal_record, open_record_any_kind,
}
use copy_clipboard_app.Store.Payload.{Extra, no_extra, payload_with, decode_payload, to_store_event}

-- The time, the random nonce, and whether the append throws: under `some n` it does, with `n`
-- characters of the line and its terminator in the file.
pub record Tick : Type 0 where
  pub now : ℕ
  pub nonce : Bytes
  pub fault : Option ℕ

-- `log` is the log file, `blobs` the files of the blob directory by their names.
pub record Store : Type 0 where
  pub log : Option Text
  pub blobs : Dict Bytes
  pub anchor_seq : ℕ
  pub line_count : ℕ
  pub tip_hash : Text
  pub torn_repaired : Bool

abbrev pub max_seq : Store → ℕ
max_seq s = s.anchor_seq + s.line_count - 1

-- The number that goes into the additional data of a line.
abbrev pub aad_seq : ℕ → ℕ → ℕ
aad_seq line_index seq = if line_index == 0 then anchor_aad_seq else seq

abbrev pub kind_of_input : StoreEventInput → StoreEventKind
kind_of_input (StoreEventInput.item_added it) = StoreEventKind.item_added
kind_of_input (StoreEventInput.item_updated id patch) = StoreEventKind.item_updated
kind_of_input (StoreEventInput.item_deleted id reason) = StoreEventKind.item_deleted
kind_of_input (StoreEventInput.tab_created tag) = StoreEventKind.tab_created
kind_of_input (StoreEventInput.tab_deleted tag) = StoreEventKind.tab_deleted

abbrev pub extra_of_input : StoreEventInput → Extra
extra_of_input (StoreEventInput.item_added it) = record no_extra { item = some (to_stored it) }
extra_of_input (StoreEventInput.item_updated id patch) = record no_extra {
  id = some id;
  patch = some patch;
}
extra_of_input (StoreEventInput.item_deleted id reason) = record no_extra {
  id = some id;
  reason = some reason;
}
extra_of_input (StoreEventInput.tab_created tag) = record no_extra { tag = some tag }
extra_of_input (StoreEventInput.tab_deleted tag) = record no_extra { tag = some tag }

abbrev also : List Text → Option Text → List Text
also ids none = ids
also ids (some id) = ids ++ id ∷ []

-- The blobs that a new item refers to; another record refers to none.
abbrev pub referenced : StoreEventInput → List Text
referenced (StoreEventInput.item_added it) =
    also (map (λ (r : RepRef). r.blob_id) it.rep_refs) it.thumbnail_blob_id
referenced _ = []

abbrev is_there : Option Bytes → Bool
is_there none = false
is_there (some bytes) = true

abbrev pub checkpoint_extra : ℕ → ℕ → Extra
checkpoint_extra before live = record no_extra {
  max_seq = some before;
  live_item_count = some live;
  watermarks = true;
}

abbrev pub Written : Type 0
Written = Result (ℕ × ℕ) × Store

module _ (p : Platform) (key : Bytes) where
  -- The line that `sealAndAppend` writes next.
  unfoldable pub next_line : Tick → StoreEventKind → Extra → Store → Text
  unfolding seal_record
  next_line tick kind extra s =
      let seq = max_seq s + 1 in
      seal_record p key tick.nonce s.line_count (aad_seq s.line_count seq) kind
        (p.stringify (payload_with seq tick.now kind s.tip_hash extra))

  abbrev pub appended : Option ℕ → ℕ → Text → Store → Store → Written
  appended (some n) now line before s = (err store_io, s)
  appended none now line before s = (
    ok (max_seq before + 1, now),
    record s { tip_hash = chain_next p s.tip_hash line; line_count = s.line_count + 1 },
  )

  unfoldable pub seal_and_append : Tick → StoreEventKind → Extra → Store → Written
  unfolding next_line append_line
  seal_and_append tick kind extra s =
      let line = next_line tick kind extra s in
      appended tick.fault tick.now line s (record s { log = append_line tick.fault line s.log })

  -- `has`
  abbrev pub has_blob : Store → Text → Bool
  has_blob s id = is_there (get (p.file_name key id) s.blobs)

  unfoldable pub has_all : Store → List Text → Bool
  has_all s [] = true
  has_all s (id ∷ ids) = if has_blob s id then has_all s ids else false

  abbrev pub stamped : StoreEventInput → Written → Result StoreEvent × Store
  stamped input (ok (seq, at), s) = (ok (stamp seq at input), s)
  stamped input (err c, s) = (err c, s)

  unfoldable pub append_event : Tick → StoreEventInput → Store → Result StoreEvent × Store
  unfolding seal_and_append has_all
  append_event tick input s =
      if has_all s (referenced input)
      then stamped input (seal_and_append tick (kind_of_input input) (extra_of_input input) s)
      else (err blob_missing, s)

  abbrev pub checkpointed : ℕ → ℕ → Written → Result StoreEvent × Store
  checkpointed before live (ok (seq, at), s) = (ok (StoreEvent.checkpoint seq at before live), s)
  checkpointed before live (err c, s) = (err c, s)

  unfoldable pub checkpoint : Tick → ℕ → Store → Result StoreEvent × Store
  unfolding seal_and_append
  checkpoint tick live s =
      checkpointed (max_seq s) live
        (seal_and_append tick StoreEventKind.checkpoint (checkpoint_extra (max_seq s) live) s)

  -- The event of a line of the log, with the hash that is expected next.
  unfoldable pub read_line : ℕ → ℕ → Text → Text → Result (StoreEvent × Text)
  unfolding open_record_any_kind decode_payload check_link to_store_event
  read_line anchor i expected line = do
    opened ← open_record_any_kind p key i (aad_seq i (anchor + i)) line
    payload ← decode_payload p opened.payload
    ensure (text_eq payload.kind (kind_text opened.kind)) store_corrupt
    ensure (payload.seq == anchor + i) store_corrupt
    next ← check_link p expected line payload.prev
    event ← to_store_event payload
    ok (event, next)

  -- The first error is the last value that the reader gives.
  abbrev pub then_more :
      Result (StoreEvent × Text) → (Text → List (Result StoreEvent)) → List (Result StoreEvent)
  then_more (ok (event, next)) rest = ok event ∷ rest next
  then_more (err c) rest = err c ∷ []

  unfoldable pub read_from : ℕ → ℕ → Text → List Text → List (Result StoreEvent)
  unfolding read_line
  read_from anchor i expected [] = []
  read_from anchor i expected (line ∷ lines) =
      then_more (read_line anchor i expected line) λ next. read_from anchor (i + 1) next lines

  unfoldable pub read_all : Store → List (Result StoreEvent)
  unfolding read_from read_lines
  read_all s = read_from s.anchor_seq 0 (chain_genesis p) (read_lines s.log)
