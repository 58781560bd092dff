-- ===== src/Store/Examples/Starts.antt =====
-- The history over the toy store, and its next start.
use copy_clipboard_app.Base.{Bool, ◌≡◌, refl, codes, List, [], ◌∷◌, none}
use copy_clipboard_app.Protocol.Result.{ok}
use copy_clipboard_app.Retention.{default_retention}
use copy_clipboard_app.History.Ports.{IsLog, SearchEntry}
use copy_clipboard_app.History.State.{State}
use copy_clipboard_app.History.Load.{load}
use copy_clipboard_app.History.Run.{
  Call, call_create_tab, call_remove_tab, call_evict_now, create_history, run,
}
use copy_clipboard_app.Store.Opening.{open_log}
use copy_clipboard_app.Store.Ports.{Ticks, Others, OpenStore, store_port, store_port-IsLog}
use copy_clipboard_app.Store.Restarts.{Continues, process_restart_lem}
use copy_clipboard_app.Store.Examples.Toy.{toy, toy-IsPlatform}
use copy_clipboard_app.Store.Examples.Logs.{
  zeros, tick_at, tabbed_store, tabbed_entries, tabbed_store-IsOpen, tabbed, tabbed_restored,
}

abbrev ticks : Ticks
ticks = record { now = λ n. n; nonce = λ n. zeros; nonce_length = λ n. refl }

abbrev others : Others
others = record {
  Index = List SearchEntry;
  index_add = λ e es. e ∷ es;
  index_remove = λ id es. es;
  index_clear = λ es. [];
  index_size = λ es. 0;
  index_query = λ q n es. [];
  classify = λ s. record { records = Bool.true; flags = [] };
  mask = λ s. (s, []);
  decode_utf8 = λ bytes. bytes;
  to_lower_case = λ s. s;
}

abbrev opened_store : OpenStore toy [] toy-IsPlatform ticks others
opened_store = record {
  store = tabbed_store;
  entries = tabbed_entries;
  is_open = tabbed_store-IsOpen;
  taken = 0;
}

store_port-IsLog_example : IsLog (store_port toy [] toy-IsPlatform ticks others)
store_port-IsLog_example = store_port-IsLog toy [] toy-IsPlatform ticks others

abbrev calls : List Call
calls =
    call_create_tab 3_000 (codes "home")
    ∷ call_remove_tab (codes "work")
    ∷ call_evict_now 4_000
    ∷ []

abbrev used : State (store_port toy [] toy-IsPlatform ticks others)
used =
    run calls
      (load (
        create_history (store_port toy [] toy-IsPlatform ticks others) opened_store []
          default_retention)).1

process_restart_lem_example :
    let opened = open_log toy [] (tick_at 9_000 none) used.store.store.log used.store.store.blobs in
    (opened.0 ≡ ok tt)
    × ((reopened : OpenStore toy [] toy-IsPlatform ticks others) × (reopened.store ≡ opened.1)
        × Continues toy [] toy-IsPlatform ticks others used
            (load (
              create_history
                (store_port toy [] toy-IsPlatform ticks others)
                reopened
                []
                default_retention)).1)
process_restart_lem_example =
    process_restart_lem toy [] toy-IsPlatform ticks others opened_store [] [] default_retention
      default_retention tabbed calls (tick_at 9_000 none) tabbed_restored
