-- ===== src/History/Examples/Restarts.antt =====
-- Runs of the history, and the theorems on loads and restarts at them.
use copy_clipboard_app.Base.{
  codes, ◌≡◌, refl, true, none, some, List, [], ◌∷◌, ◌++◌, map, map_values,
}
use copy_clipboard_app.Protocol.Result.{ok, err, store_corrupt}
use copy_clipboard_app.Protocol.Types.{ItemPatch, StoreEvent, DeleteReason}
use copy_clipboard_app.History.Ports.{to_stored}
use copy_clipboard_app.Retention.{default_retention}
use copy_clipboard_app.History.State.{State, shown}
use copy_clipboard_app.History.Load.{load, begin_load, finish_load, epoch_of}
use copy_clipboard_app.History.Removal.{evict_preview_cache}
use copy_clipboard_app.History.Run.{
  Call, call_ingest, call_create_tab, call_evict_now, call_evict_preview_cache, begins_load,
  ends_load, create_history, run,
}
use copy_clipboard_app.History.Synced.Runs.{restart_lem, run-Synced, load_fresh}
use copy_clipboard_app.History.Synced.{Synced}
use copy_clipboard_app.History.Replay.{replay}
use copy_clipboard_app.History.Fates.{IsReplay}
use copy_clipboard_app.History.Fates.Rebuilt.{replay_lem}
use copy_clipboard_app.History.Synced.Previews.{Hidden, evicted_load}
use copy_clipboard_app.History.Examples.{
  one_item, one_store, one_state, one_restored, one_log, no_rows, memory_port, memory_port-IsLog,
  copied, random_bytes,
}

-- Two copies, one of them again, a tab, a refused name and a sweep.
abbrev calls : List Call
calls =
    call_ingest 1_000 random_bytes (copied (codes "hello") 1_000)
    ∷ call_ingest 2_000 random_bytes (copied (codes "sesame") 2_000)
    ∷ call_ingest 3_000 random_bytes (copied (codes "hello") 3_000)
    ∷ call_create_tab 3_500 (codes "work")
    ∷ call_create_tab 3_500 (codes "  ")
    ∷ begins_load
    ∷ call_evict_preview_cache
    ∷ ends_load
    ∷ call_evict_now 400_000
    ∷ []

abbrev used : State memory_port
used = run calls (load (create_history memory_port one_store no_rows default_retention)).1

restart_lem_example :
    let fresh : State memory_port =
      (load (create_history memory_port used.store no_rows default_retention)).1 in
    (used.items ≡ map_values (shown used.previews_loaded) fresh.items)
    × (used.explicit_tabs ≡ fresh.explicit_tabs)
    × (used.ord ≡ fresh.ord)
restart_lem_example =
    restart_lem memory_port-IsLog one_store no_rows no_rows default_retention default_retention
      one_restored calls one_log

loaded-Synced : Synced (load (create_history memory_port one_store no_rows default_retention)).1
loaded-Synced = (
  one_restored,
  (load_fresh memory_port-IsLog one_store no_rows default_retention one_restored one_log).0,
)

evicted_load_example :
    Hidden
      (finish_load
        (epoch_of one_state.loading one_state.eviction_epoch)
        (evict_preview_cache (begin_load one_state))).1
evicted_load_example = evicted_load memory_port-IsLog one_state one_restored one_log refl

run-Synced_example : Synced used
run-Synced_example =
    run-Synced memory_port-IsLog calls
      (load (create_history memory_port one_store no_rows default_retention)).1 loaded-Synced

-- An item that is added, pinned and tagged, of which a tab is then deleted; another that is deleted.
abbrev tagging : ItemPatch
tagging = record {
  updated_at = 20;
  pinned = some true;
  expires_at = none;
  title = none;
  tags = some (codes "work" ∷ codes "home" ∷ []);
}

abbrev events : List StoreEvent
events =
    StoreEvent.item_added 1 0 (to_stored one_item)
    ∷ StoreEvent.tab_created 2 10 (codes "work")
    ∷ StoreEvent.item_updated 3 20 one_item.id tagging
    ∷ StoreEvent.tab_deleted 4 30 (codes "work")
    ∷ StoreEvent.item_deleted 5 40 (codes "B") DeleteReason.user
    ∷ []

replay_lem_example :
    IsReplay events (replay (map ok events))
    × (replay (map ok events ++ err store_corrupt ∷ map ok events) ≡ err store_corrupt)
replay_lem_example = replay_lem events store_corrupt (map ok events)
