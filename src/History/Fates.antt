-- ===== src/History/Fates.antt =====
-- history.ts: what `replay` restores of each item and each tab, by the events that concern it alone.
use copy_clipboard_app.Base.{
  ℕ, Text, text_eq, ◌≡◌, ◌≢◌, ◌⊎◌, Bool, true, false, not, Option, none, some, List, [], ◌∷◌, ◌++◌,
  All, keep_if, if◌then◌else◌, get, includes,
}
use copy_clipboard_app.Protocol.Result.{Result, ok, err}
use copy_clipboard_app.Protocol.Types.{
  Item, StoredItem, DeleteReason, StoreEvent, item_added, item_updated, item_deleted, tab_created,
  tab_deleted,
}
use copy_clipboard_app.History.Replay.{Restored}
pub mod Revised
pub mod Rebuilt

-- The event does not add the item; it neither adds nor deletes it.
abbrev pub NeverAdds : Text → StoreEvent → Type 0
NeverAdds id (item_added seq at s) = s.core.id ≢ id
NeverAdds id _ = Unit

abbrev pub LeavesAlive : Text → StoreEvent → Type 0
LeavesAlive id (item_added seq at s) = s.core.id ≢ id
LeavesAlive id (item_deleted seq at j reason) = j ≢ id
LeavesAlive id _ = Unit

abbrev pub latest {ℓ} : {A : Type ℓ} → Option A → A → A
latest none old = old
latest (some new) old = new

-- The item as it was added; titles and tags came later than the first records.
abbrev pub initial : StoredItem → Item
initial s = record { core = s.core; title = latest s.title none; tags = latest s.tags [] }

-- A patch of the item sets the fields that it has, and a tab that is deleted takes its tag along.
abbrev pub revise : Text → StoreEvent → Item → Item
revise id (item_updated seq at j patch) it =
    if text_eq j id
    then record {
      core = record it.core {
        updated_at = patch.updated_at;
        pinned = latest patch.pinned it.pinned;
        expires_at = latest patch.expires_at it.expires_at;
      };
      title = latest patch.title it.title;
      tags = latest patch.tags it.tags;
    }
    else it
revise id (tab_deleted seq at tag) it = record it {
  tags = keep_if (λ t. not (text_eq t tag)) it.tags;
}
revise id _ it = it

abbrev pub revise_all : Text → List StoreEvent → Item → Item
revise_all id [] it = it
revise_all id (e ∷ es) it = revise_all id es (revise id e it)

-- Whether the last event on the tab creates it.
abbrev pub is_tab_from : Bool → Text → List StoreEvent → Bool
is_tab_from b tag [] = b
is_tab_from b tag (tab_created seq at t ∷ es) =
    is_tab_from (if text_eq t tag then true else b) tag es
is_tab_from b tag (tab_deleted seq at t ∷ es) =
    is_tab_from (if text_eq t tag then false else b) tag es
is_tab_from b tag (_ ∷ es) = is_tab_from b tag es

abbrev pub IsAbsent : Text → Restored → Type 0
IsAbsent id r = (get id r.items ≡ none) × (get id r.ord ≡ none)

-- The last event that deletes the item, and none after it that adds it.
pub record IsDeleted (id : Text) (events : List StoreEvent) : Type 0 where
  pub before : List StoreEvent
  pub after : List StoreEvent
  pub seq : ℕ
  pub at : ℕ
  pub reason : DeleteReason
  pub split : events ≡ before ++ item_deleted seq at id reason ∷ after
  pub final : All (NeverAdds id) after

-- The last event that adds the item, and none after it that adds or deletes it: it is restored as it
-- was added and then revised, with the number of that event.
pub record IsAlive (id : Text) (events : List StoreEvent) (r : Restored) : Type 0 where
  pub before : List StoreEvent
  pub after : List StoreEvent
  pub seq : ℕ
  pub at : ℕ
  pub added : StoredItem
  pub split : events ≡ before ++ item_added seq at added ∷ after
  pub named : added.core.id ≡ id
  pub alive : All (LeavesAlive id) after
  pub restored : get id r.items ≡ some (revise_all id after (initial added))
  pub numbered : get id r.ord ≡ some seq

abbrev pub IsFate : Text → List StoreEvent → Restored → Type 0
IsFate id events r =
    (All (NeverAdds id) events × IsAbsent id r)
    ⊎ (IsDeleted id events × IsAbsent id r)
    ⊎ IsAlive id events r

abbrev pub IsReplay : List StoreEvent → Result Restored → Type 0
IsReplay events (err c) = ⊥
IsReplay events (ok r) =
    ((id : Text) → IsFate id events r)
    × ((tag : Text) → includes tag r.tabs ≡ is_tab_from false tag events)
