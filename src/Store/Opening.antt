-- ===== src/Store/Opening.antt =====
-- packages/store/src/log-store.ts: `openStore`. A key that has not 32 bytes makes it throw, which is
-- `none`. `meta.json` and the modes of the files are left out.
use copy_clipboard_app.Base.{
  ℕ, Text, text_eq, Bool, false, Option, none, some, List, [], ◌∷◌, length, if◌then◌else◌, ◌==◌,
  Dict,
}
use copy_clipboard_app.Protocol.Types.{Bytes}
use copy_clipboard_app.Protocol.Result.{Result, ok, err, ◌>>=◌, ◌>>◌, ensure, store_corrupt}
use copy_clipboard_app.Store.Platform.{Platform}
use copy_clipboard_app.Store.Lines.{read_lines, ends_torn, repair, text_of}
use copy_clipboard_app.Store.Chain.{chain_genesis, chain_tip}
use copy_clipboard_app.Store.Record.{StoreEventKind, kind_text, anchor_aad_seq, open_record}
use copy_clipboard_app.Store.Blobs.{total_bytes}
use copy_clipboard_app.Store.Payload.{decode_payload}
use copy_clipboard_app.Store.Log.{Tick, Store, max_seq, Written, checkpoint_extra, seal_and_append}

abbrev pub is_torn : Option Text → Bool
is_torn none = false
is_torn (some t) = ends_torn t

abbrev pub Opening : Type 0
Opening = Result (Unit {0}) × Store

module _ (p : Platform) (key : Bytes) where
  -- What the store knows before it has read the log.
  unfoldable pub unread : Option Text → Dict Bytes → Store
  unfolding repair
  unread file blobs = record {
    log = repair file;
    blobs = blobs;
    anchor_seq = 0;
    line_count = 0;
    tip_hash = chain_genesis p;
    torn_repaired = is_torn file;
  }

  abbrev pub begun : Written → Opening
  begun (ok _, s) = (ok tt, s)
  begun (err c, s) = (err c, s)

  -- The number of the anchor of the log, from its first line.
  unfoldable pub read_anchor : Text → Result ℕ
  unfolding open_record decode_payload
  read_anchor first = do
    bytes ← open_record p key 0 anchor_aad_seq StoreEventKind.checkpoint first
    payload ← decode_payload p bytes
    ensure (text_eq payload.kind (kind_text StoreEventKind.checkpoint)) store_corrupt
    ok payload.seq

  abbrev pub adopted : List Text → Store → Result ℕ → Opening
  adopted existing s (err c) = (err c, s)
  adopted existing s (ok anchor) = (
    ok tt,
    record s { anchor_seq = anchor; line_count = length existing; tip_hash = chain_tip p existing },
  )

  abbrev pub open_lines : Tick → List Text → Store → Opening
  open_lines tick [] s = begun (
      seal_and_append p key tick StoreEventKind.checkpoint (checkpoint_extra 0 0)
        (record s { anchor_seq = 1 }))
  open_lines tick (first ∷ rest) s = adopted (first ∷ rest) s (read_anchor first)

  unfoldable pub open_log : Tick → Option Text → Dict Bytes → Opening
  unfolding unread read_anchor seal_and_append read_lines chain_tip
  open_log tick file blobs = let s = unread file blobs in open_lines tick (read_lines s.log) s

  unfoldable pub open_store : Tick → Option Text → Dict Bytes → Option Opening
  unfolding open_log
  open_store tick file blobs = if length key == 32 then some (open_log tick file blobs) else none

pub record StoreStats : Type 0 where
  pub line_count : ℕ
  pub anchor_seq : ℕ
  pub last_seq : ℕ
  pub log_bytes : ℕ
  pub blob_count : ℕ
  pub blob_bytes : ℕ
  pub torn_line_repaired_on_open : Bool

pub stat : Store → StoreStats
stat s = record {
  line_count = s.line_count;
  anchor_seq = s.anchor_seq;
  last_seq = max_seq s;
  log_bytes = length (text_of s.log);
  blob_count = length s.blobs;
  blob_bytes = total_bytes s.blobs;
  torn_line_repaired_on_open = s.torn_repaired;
}
