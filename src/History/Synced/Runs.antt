-- ===== src/History/Synced/Runs.antt =====
-- history.ts: memory and log agree after any sequence of calls, so a restart loses nothing.
use copy_clipboard_app.Base.{
  ℕ, ◌≡◌, refl, ap, ◌∙◌, sym, true, Option, none, some, Dict, map_values, List, [], ◌∷◌,
}
use copy_clipboard_app.Protocol.Result.{ok}
use copy_clipboard_app.Protocol.Types.{Item}
use copy_clipboard_app.Retention.{RetentionLimits}
use copy_clipboard_app.History.Ports.{Port, IsLog}
use copy_clipboard_app.History.State.{State, shown}
use copy_clipboard_app.History.Replay.{Restored, replay}
use copy_clipboard_app.History.Load.{load}
use copy_clipboard_app.History.Updates.{pin, tag, set_title, pin_body, tag_body, set_title_body}
use copy_clipboard_app.History.Tabs.{create_tab, remove_tab, create_tab_body, remove_tab_body}
use copy_clipboard_app.History.Ingest.{ingest, ingest_body}
use copy_clipboard_app.History.Removal.{remove, evict_now, remove_body, evict_now_body}
use copy_clipboard_app.History.Run.{
  Call, call_ingest, call_pin, call_tag, call_create_tab, call_remove_tab, call_set_title,
  call_remove, call_evict_now, call_evict_preview_cache, call_set_max_items, begins_load, ends_load,
  create_history, end_load, step, run,
}
use copy_clipboard_app.History.Synced.{Synced}
use copy_clipboard_app.History.Synced.Updates.{
  pin_body-Synced, tag_body-Synced, set_title_body-Synced,
}
use copy_clipboard_app.History.Synced.Tabs.{create_tab_body-Synced, remove_tab_body-Synced}
use copy_clipboard_app.History.Synced.Ingest.{ingest_body-Synced}
use copy_clipboard_app.History.Synced.Removal.{remove_body-Synced, evict_now_body-Synced}
use copy_clipboard_app.History.Synced.Load.{
  Filled, evict_preview_cache-Synced, set_max_items-Synced,
}
use copy_clipboard_app.History.Synced.Restart.{
  begin_load-Synced, finish_load-Filled, finish_load-Synced, after_load-Synced,
}

pub map_values-shown-true : (m : Dict Item) → map_values (shown true) m ≡ m
map_values-shown-true [] = refl
map_values-shown-true ((k, it) ∷ m) = ap (λ rest. (k, it) ∷ rest) (map_values-shown-true m)

module _ {port : Port} (contract : IsLog port) where
  end_load-Synced :
      (loading : Option ℕ) (st : State port) → Synced st → Synced (end_load loading st)
  end_load-Synced none st h = h
  end_load-Synced (some epoch) st h = finish_load-Synced contract epoch st h

  step-Synced : (call : Call) (st : State port) → Synced st → Synced (step call st)
  unfolding step ingest pin tag set_title create_tab remove_tab remove evict_now
  step-Synced (call_ingest now rnd c) st h =
      after_load-Synced contract (ingest_body now rnd c) st (ingest_body-Synced contract now rnd c)
        h
  step-Synced (call_pin id pinned) st h =
      after_load-Synced contract (pin_body id pinned) st (pin_body-Synced contract id pinned) h
  step-Synced (call_tag id raw tagged) st h =
      after_load-Synced contract (tag_body id raw tagged) st
        (tag_body-Synced contract id raw tagged) h
  step-Synced (call_create_tab now raw) st h =
      after_load-Synced contract (create_tab_body now raw) st
        (create_tab_body-Synced contract now raw) h
  step-Synced (call_remove_tab raw) st h =
      after_load-Synced contract (remove_tab_body raw) st (remove_tab_body-Synced contract raw) h
  step-Synced (call_set_title id raw) st h =
      after_load-Synced contract (set_title_body id raw) st (set_title_body-Synced contract id raw)
        h
  step-Synced (call_remove id) st h =
      after_load-Synced contract (remove_body id) st (remove_body-Synced contract id) h
  step-Synced (call_evict_now now) st h =
      after_load-Synced contract (evict_now_body now) st (evict_now_body-Synced contract now) h
  step-Synced call_evict_preview_cache st h = evict_preview_cache-Synced st h
  step-Synced (call_set_max_items n) st h = set_max_items-Synced n st h
  step-Synced begins_load st h = begin_load-Synced st h
  step-Synced ends_load st h = end_load-Synced st.loading st h

  -- From a state in which memory and log agree, any sequence of calls, those that fail included,
  -- leads to states in which they agree.
  pub run-Synced : (calls : List Call) (st : State port) → Synced st → Synced (run calls st)
  unfolding run
  run-Synced [] st h = h
  run-Synced (call ∷ calls) st h = run-Synced calls (step call st) (step-Synced call st h)

  pub load_fresh :
      (store : port.Store) (index : port.Index) (limits : RetentionLimits) (r : Restored)
      → replay (port.read_all store) ≡ ok r
      → Filled true r (load (create_history port store index limits)).1
  unfolding load create_history
  load_fresh store index limits r log =
      finish_load-Filled contract 0 r (create_history port store index limits) log

  -- A history is created over a store whose log can be read, loaded, and used by any sequence of
  -- calls, those that fail included. A second history is created over the store as it then is, and
  -- loaded. Then the items of the first are those of the second, in the same order, scrubbed if the
  -- first counts its previews as not loaded; and both have the same created tabs and the same
  -- numbers of arrival.
  pub restart_lem :
      (store : port.Store) (index again : port.Index) (limits others : RetentionLimits)
      (r : Restored) (calls : List Call)
      → replay (port.read_all store) ≡ ok r
      → let used : State port = run calls (load (create_history port store index limits)).1 in
        let fresh : State port = (load (create_history port used.store again others)).1 in
        (used.items ≡ map_values (shown used.previews_loaded) fresh.items)
        × (used.explicit_tabs ≡ fresh.explicit_tabs)
        × (used.ord ≡ fresh.ord)
  restart_lem store index again limits others r calls log =
      let (s, a) =
        run-Synced calls (load (create_history port store index limits)).1
          (r, (load_fresh store index limits r log).0) in
      let used : State port = run calls (load (create_history port store index limits)).1 in
      let fresh : State port = (load (create_history port used.store again others)).1 in
      let (b, loaded) = load_fresh used.store again others s a.log in
      let kept : s.items ≡ fresh.items =
        sym (
          b.items
          ∙ ap (λ l. map_values (shown l) s.items) loaded
          ∙ map_values-shown-true s.items) in
      (
        a.items ∙ ap (map_values (shown used.previews_loaded)) kept,
        a.tabs ∙ sym b.tabs,
        a.ord ∙ sym b.ord,
      )
