-- ===== src/History/Ports.antt =====
-- What the history is given (`HistoryDeps`): the interfaces of the store, the search index and the
-- privacy layer, and the functions of the platform that it calls.
use copy_clipboard_app.Base.{ℕ, ◌<◌, length, Text, Bool, ◌≡◌, some, List, [], ◌∷◌, ◌++◌}
use copy_clipboard_app.Protocol.Result.{Result, ErrorCode, ok, err}
use copy_clipboard_app.Protocol.Types.{
  Item, StoredItem, ItemPatch, DeleteReason, StoreEvent, Snapshot, Classification, MaskSpan, Bytes,
}

-- packages/store/src/log-store.ts: what a caller may append. Numbers and times are the store's.
pub data StoreEventInput : Type 0 where
  item_added : Item → StoreEventInput
  item_updated : Text → ItemPatch → StoreEventInput
  item_deleted : Text → DeleteReason → StoreEventInput
  tab_created : Text → StoreEventInput
  tab_deleted : Text → StoreEventInput

-- An item as its record holds it: every field of today is there.
abbrev pub to_stored : Item → StoredItem
to_stored it = record { core = it.core; title = some it.title; tags = some it.tags }

-- The event that an input becomes under a sequence number and a time.
abbrev pub stamp : ℕ → ℕ → StoreEventInput → StoreEvent
stamp seq at (item_added it) = StoreEvent.item_added seq at (to_stored it)
stamp seq at (item_updated id patch) = StoreEvent.item_updated seq at id patch
stamp seq at (item_deleted id reason) = StoreEvent.item_deleted seq at id reason
stamp seq at (tab_created tag) = StoreEvent.tab_created seq at tag
stamp seq at (tab_deleted tag) = StoreEvent.tab_deleted seq at tag

-- packages/search/src/index.ts: a row of the index, and a hit. A score is 1 / (1 + place), and
-- stands here as the place.
pub record SearchEntry : Type 0 where
  pub id : Text
  pub preview : Text
  pub pinned : Bool
  pub tagged : Bool
  pub updated_at : ℕ
  pub ord : ℕ

pub record SearchHit : Type 0 where
  pub id : Text
  pub score : ℕ
  pub ranges : List ℕ

-- The state of the store and of the index is their own: an operation returns the next one.
pub record Port : Type 1 where
  pub Store : Type 0
  pub append_event : StoreEventInput → Store → Result StoreEvent × Store
  pub read_all : Store → List (Result StoreEvent)
  pub put_blob : Bytes → Store → Result Text × Store
  pub get_blob : Text → Store → Result Bytes
  pub delete_blob : Text → Store → Result Bool × Store
  pub Index : Type 0
  pub index_add : SearchEntry → Index → Index
  pub index_remove : Text → Index → Index
  pub index_clear : Index → Index
  pub index_size : Index → ℕ
  pub index_query : Text → ℕ → Index → List SearchHit
  pub classify : Snapshot → Classification
  pub mask : Text → Text × List MaskSpan
  pub content_hash : Bytes → Text
  pub decode_utf8 : Bytes → Text
  pub to_lower_case : Text → Text

-- The record of a tab can be read only if the tab has a name.
abbrev pub IsRecordable : StoreEventInput → Type 0
IsRecordable (tab_created tag) = 0 < length tag
IsRecordable (tab_deleted tag) = 0 < length tag
IsRecordable _ = Unit

-- The reading of a log ends without an error.
abbrev pub IsClean : List (Result StoreEvent) → Type 0
IsClean [] = Unit
IsClean (ok e ∷ recs) = IsClean recs
IsClean (err c ∷ recs) = ⊥

-- What the history relies on of the store's log: an append that succeeds adds its event at the end,
-- if the log can be read and the event too; one that fails adds nothing; and blobs are kept apart.
pub record IsLog (port : Port) : Type 0 where
  pub appended :
      (input : StoreEventInput) (s : port.Store) (e : StoreEvent)
      → IsRecordable input
      → IsClean (port.read_all s)
      → (port.append_event input s).0 ≡ ok e
      → (seq : ℕ) × (at : ℕ) × (e ≡ stamp seq at input)
        × (port.read_all (port.append_event input s).1 ≡ port.read_all s ++ ok e ∷ [])
  pub refused :
      (input : StoreEventInput) (s : port.Store) (c : ErrorCode)
      → (port.append_event input s).0 ≡ err c
      → port.read_all (port.append_event input s).1 ≡ port.read_all s
  pub put_blob_apart :
      (bytes : Bytes) (s : port.Store) → port.read_all (port.put_blob bytes s).1 ≡ port.read_all s
  pub delete_blob_apart :
      (id : Text) (s : port.Store) → port.read_all (port.delete_blob id s).1 ≡ port.read_all s

pub data ChangeReason : Type 0 where
  ingest update delete evict : ChangeReason
