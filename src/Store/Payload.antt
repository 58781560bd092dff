-- ===== src/Store/Payload.antt =====
-- packages/store/src/log-store.ts: the payload of a record, written and read.
use copy_clipboard_app.Base.{
  ℕ, Text, text_eq, Bool, true, false, Option, none, some, List, [], ◌∷◌, if◌then◌else◌, ltb,
  length,
}
use copy_clipboard_app.Protocol.Types.{Bytes, StoredItem, ItemPatch, DeleteReason, StoreEvent}
use copy_clipboard_app.Protocol.Result.{Result, ok, err, store_corrupt}
use copy_clipboard_app.Store.Platform.{Platform, RecordPayload, ParsedObject, Parsed, is_hash}
use copy_clipboard_app.Store.Record.{
  StoreEventKind, item_added, item_updated, item_deleted, checkpoint, tab_created, tab_deleted,
  kind_text,
}

-- What a record has beside its number, time, kind and link.
pub record Extra : Type 0 where
  pub item : Option StoredItem
  pub id : Option Text
  pub patch : Option ItemPatch
  pub reason : Option DeleteReason
  pub tag : Option Text
  pub max_seq : Option ℕ
  pub live_item_count : Option ℕ
  pub watermarks : Bool

abbrev pub no_extra : Extra
no_extra = record {
  item = none;
  id = none;
  patch = none;
  reason = none;
  tag = none;
  max_seq = none;
  live_item_count = none;
  watermarks = false;
}

abbrev pub payload_with : ℕ → ℕ → StoreEventKind → Text → Extra → RecordPayload
payload_with seq at kind prev extra = record {
  seq = seq;
  at = at;
  kind = kind_text kind;
  prev = prev;
  item = extra.item;
  id = extra.id;
  patch = extra.patch;
  reason = extra.reason;
  tag = extra.tag;
  max_seq = extra.max_seq;
  live_item_count = extra.live_item_count;
  watermarks = extra.watermarks;
}

abbrev pub decode_kind : ParsedObject → ℕ → ℕ → Text → Option Text → Result RecordPayload
decode_kind o seq at prev none = err store_corrupt
decode_kind o seq at prev (some kind) = ok (record {
  seq = seq;
  at = at;
  kind = kind;
  prev = prev;
  item = o.item;
  id = o.id;
  patch = o.patch;
  reason = o.reason;
  tag = o.tag;
  max_seq = o.max_seq;
  live_item_count = o.live_item_count;
  watermarks = o.watermarks;
})

abbrev pub decode_object :
    ParsedObject → Option ℕ → Option ℕ → Option Text → Option Text → Result RecordPayload
decode_object o (some seq) (some at) (some prev) kind =
    if is_hash prev then decode_kind o seq at prev kind else err store_corrupt
decode_object o _ _ _ _ = err store_corrupt

abbrev pub decode_parsed : Parsed → Result RecordPayload
decode_parsed Parsed.not_json = err store_corrupt
decode_parsed Parsed.not_object = err store_corrupt
decode_parsed (Parsed.object o) = decode_object o o.seq o.at o.prev o.kind

-- The kind that a text names, for the `switch` over it.
abbrev pub kind_named : Text → List StoreEventKind → Option StoreEventKind
kind_named t [] = none
kind_named t (k ∷ ks) = if text_eq t (kind_text k) then some k else kind_named t ks

abbrev pub added_event : ℕ → ℕ → Option StoredItem → Result StoreEvent
added_event seq at none = err store_corrupt
added_event seq at (some item) = ok (StoreEvent.item_added seq at item)

abbrev pub updated_event : ℕ → ℕ → Option Text → Option ItemPatch → Result StoreEvent
updated_event seq at (some id) (some patch) = ok (StoreEvent.item_updated seq at id patch)
updated_event seq at _ _ = err store_corrupt

abbrev pub deleted_event : ℕ → ℕ → Option Text → Option DeleteReason → Result StoreEvent
deleted_event seq at (some id) (some reason) = ok (StoreEvent.item_deleted seq at id reason)
deleted_event seq at _ _ = err store_corrupt

abbrev pub tab_event : (Text → StoreEvent) → Option Text → Result StoreEvent
tab_event event none = err store_corrupt
tab_event event (some tag) = if ltb 0 (length tag) then ok (event tag) else err store_corrupt

abbrev pub checkpoint_event : ℕ → ℕ → Option ℕ → Option ℕ → Bool → Result StoreEvent
checkpoint_event seq at (some max_seq) (some live) true =
    ok (StoreEvent.checkpoint seq at max_seq live)
checkpoint_event seq at _ _ _ = err store_corrupt

abbrev pub event_of_kind : Option StoreEventKind → RecordPayload → Result StoreEvent
event_of_kind none r = err store_corrupt
event_of_kind (some item_added) r = added_event r.seq r.at r.item
event_of_kind (some item_updated) r = updated_event r.seq r.at r.id r.patch
event_of_kind (some item_deleted) r = deleted_event r.seq r.at r.id r.reason
event_of_kind (some tab_created) r = tab_event (StoreEvent.tab_created r.seq r.at) r.tag
event_of_kind (some tab_deleted) r = tab_event (StoreEvent.tab_deleted r.seq r.at) r.tag
event_of_kind (some checkpoint) r =
    checkpoint_event r.seq r.at r.max_seq r.live_item_count r.watermarks

-- `toStoreEvent`
unfoldable pub to_store_event : RecordPayload → Result StoreEvent
to_store_event r =
    event_of_kind
      (kind_named r.kind
        (item_added ∷ item_updated ∷ item_deleted ∷ tab_created ∷ tab_deleted ∷ checkpoint ∷ []))
      r

module _ (p : Platform) where
  -- `decodePayload`
  unfoldable pub decode_payload : Bytes → Result RecordPayload
  unfolding is_hash
  decode_payload bytes = decode_parsed (p.parse bytes)
