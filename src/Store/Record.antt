-- ===== src/Store/Record.antt =====
-- packages/store/src/record.ts: the sealing of a record into a line, and the opening of a line. A key
-- and a nonce are arguments, as are the cipher and base64.
use copy_clipboard_app.Base.{
  ℕ, zero, suc, ◌+◌, ◌-◌, ◌/◌, ◌%◌, Text, codes, Option, none, some, List, [], ◌∷◌, ◌++◌, length,
  take, drop, ltb, if◌then◌else◌,
}
use copy_clipboard_app.Protocol.Types.{Bytes}
use copy_clipboard_app.Protocol.Result.{Result, ok, err, store_decrypt}
use copy_clipboard_app.Store.Platform.{Platform}

-- packages/protocol/src/types.ts: StoreEventKind
pub data StoreEventKind : Type 0 where
  item_added item_updated item_deleted checkpoint tab_created tab_deleted : StoreEventKind

abbrev pub kind_text : StoreEventKind → Text
kind_text item_added = codes "ITEM_ADDED"
kind_text item_updated = codes "ITEM_UPDATED"
kind_text item_deleted = codes "ITEM_DELETED"
kind_text checkpoint = codes "CHECKPOINT"
kind_text tab_created = codes "TAB_CREATED"
kind_text tab_deleted = codes "TAB_DELETED"

abbrev pub record_kinds : List StoreEventKind
record_kinds =
    item_added ∷ item_updated ∷ item_deleted ∷ checkpoint ∷ tab_created ∷ tab_deleted ∷ []

abbrev pub nonce_bytes : ℕ
nonce_bytes = 12

abbrev pub tag_bytes : ℕ
tag_bytes = 16

abbrev pub anchor_aad_seq : ℕ
anchor_aad_seq = 0

-- The last `width` bytes of a number, the highest first; `writeBigUInt64BE` has eight.
unfoldable pub big_endian : ℕ → ℕ → Bytes
big_endian zero n = []
big_endian (suc width) n = big_endian width (n / 256) ++ (n % 256) ∷ []

unfoldable pub record_aad : ℕ → ℕ → StoreEventKind → Bytes
unfolding big_endian
record_aad line_index seq kind =
    codes "cairn/store/v1" ++ big_endian 8 line_index ++ big_endian 8 seq ++ kind_text kind

pub record Opened : Type 0 where
  pub kind : StoreEventKind
  pub payload : Bytes

abbrev pub opened_or : Option Bytes → Result Bytes
opened_or none = err store_decrypt
opened_or (some plain) = ok plain

abbrev pub as_kind : StoreEventKind → Result Bytes → Result Opened → Result Opened
as_kind kind (ok payload) later = ok (record { kind = kind; payload = payload })
as_kind kind (err c) later = later

module _ (p : Platform) (key : Bytes) where
  unfoldable pub seal_record : Bytes → ℕ → ℕ → StoreEventKind → Bytes → Text
  unfolding record_aad
  seal_record nonce line_index seq kind payload =
      let aad = record_aad line_index seq kind in
      p.to_base64 (nonce ++ (p.encrypt key nonce aad payload ++ p.auth_tag key nonce aad payload))

  abbrev pub open_raw : Bytes → Bytes → Result Bytes
  open_raw raw aad =
      if ltb (length raw) (nonce_bytes + tag_bytes)
      then err store_decrypt
      else opened_or (
          p.decrypt key (take nonce_bytes raw) aad (drop (length raw - tag_bytes) raw)
            (drop nonce_bytes (take (length raw - tag_bytes) raw)))

  unfoldable pub open_record : ℕ → ℕ → StoreEventKind → Text → Result Bytes
  unfolding record_aad
  open_record line_index seq kind line =
      open_raw (p.from_base64 line) (record_aad line_index seq kind)

  -- The loop over the kinds: the first under which the line opens.
  unfoldable pub open_kinds : List StoreEventKind → ℕ → ℕ → Text → Result Opened
  unfolding open_record
  open_kinds [] line_index seq line = err store_decrypt
  open_kinds (kind ∷ kinds) line_index seq line =
      as_kind kind (open_record line_index seq kind line) (open_kinds kinds line_index seq line)

  unfoldable pub open_record_any_kind : ℕ → ℕ → Text → Result Opened
  unfolding open_kinds
  open_record_any_kind = open_kinds record_kinds
