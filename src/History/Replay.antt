-- ===== src/History/Replay.antt =====
-- history.ts: what `replay` makes of the events of the store, up to the point where it publishes.
use copy_clipboard_app.Base.{
  add_all, ℕ, Text, Option, none, some, List, [], ◌∷◌, if◌then◌else◌, Dict, get, set, delete,
  values, insert, includes, without,
}
use copy_clipboard_app.Protocol.Result.{Result, ok, err}
use copy_clipboard_app.Protocol.Types.{
  Item, StoredItem, ItemPatch, StoreEvent, item_added, item_updated, item_deleted, tab_created,
  tab_deleted, checkpoint,
}
use copy_clipboard_app.History.State.{get_or, blob_ids}

-- `withDefaults`, for records that predate tags or titles
abbrev pub with_defaults : StoredItem → Item
with_defaults s = record { core = s.core; title = get_or s.title none; tags = get_or s.tags [] }

-- `{ ...it, ...patch }`
abbrev pub apply_patch : Item → ItemPatch → Item
apply_patch it patch = record {
  core = record it.core {
    updated_at = patch.updated_at;
    pinned = get_or patch.pinned it.pinned;
    expires_at = get_or patch.expires_at it.expires_at;
  };
  title = get_or patch.title it.title;
  tags = get_or patch.tags it.tags;
}

abbrev pub untag : Text → Item → Item
untag tag it = record it { tags = without tag it.tags }

-- The items that carry the tag lose it, each in its place.
unfoldable pub untag_each : Text → List Item → Dict Item → Dict Item
untag_each tag [] items = items
untag_each tag (it ∷ its) items =
    untag_each tag its (if includes tag it.tags then set it.id (untag tag it) items else items)

-- The maps that the replay builds before it publishes them.
pub record Restored : Type 0 where
  pub items : Dict Item
  pub tabs : List Text
  pub ord : Dict ℕ
  pub deletes : List Text

abbrev pub nothing : Restored
nothing = record { items = []; tabs = []; ord = []; deletes = [] }

abbrev pub update_found : Text → ItemPatch → Option Item → Restored → Restored
update_found id patch none r = r
update_found id patch (some cur) r = record r { items = set id (apply_patch cur patch) r.items }

abbrev pub deletes_of : Option Item → List Text → List Text
deletes_of none deletes = deletes
deletes_of (some removed) deletes = add_all deletes (blob_ids removed)

unfoldable pub apply_event : Restored → StoreEvent → Restored
apply_event r (item_added seq at item) = record r {
  items = set item.core.id (with_defaults item) r.items;
  ord = set item.core.id seq r.ord;
}
apply_event r (item_updated seq at id patch) = update_found id patch (get id r.items) r
apply_event r (item_deleted seq at id reason) = record r {
  items = delete id r.items;
  ord = delete id r.ord;
  deletes = deletes_of (get id r.items) r.deletes;
}
apply_event r (tab_created seq at tag) = record r { tabs = insert tag r.tabs }
apply_event r (tab_deleted seq at tag) = record r {
  tabs = without tag r.tabs;
  items = untag_each tag (values r.items) r.items;
}
apply_event r (checkpoint seq at max_seq live) = r

-- The loop over the records: the first that cannot be read ends it.
unfoldable pub replay_from : Restored → List (Result StoreEvent) → Result Restored
replay_from r [] = ok r
replay_from r (err c ∷ recs) = err c
replay_from r (ok ev ∷ recs) = replay_from (apply_event r ev) recs

unfoldable pub replay : List (Result StoreEvent) → Result Restored
unfolding replay_from
replay = replay_from nothing
