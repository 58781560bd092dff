-- ===== src/Store/Restarts.antt =====
-- The history over the store: packages/history/src/history.ts on packages/store/src, through the end of
-- the process and the next start.
use copy_clipboard_app.Base.{◌≡◌, refl, sym, ap, ◌∙◌, List, map_values}
use copy_clipboard_app.Protocol.Types.{Bytes}
use copy_clipboard_app.Protocol.Result.{ok}
use copy_clipboard_app.Retention.{RetentionLimits}
use copy_clipboard_app.History.State.{State, shown}
use copy_clipboard_app.History.Replay.{Restored, replay}
use copy_clipboard_app.History.Load.{load}
use copy_clipboard_app.History.Run.{Call, create_history, run}
use copy_clipboard_app.History.Synced.Runs.{run-Synced, load_fresh, map_values-shown-true}
use copy_clipboard_app.Store.Platform.{Platform, IsPlatform}
use copy_clipboard_app.Store.Log.{Tick, read_all}
use copy_clipboard_app.Store.Written.{read_all-IsOpen}
use copy_clipboard_app.Store.Opening.{open_log}
use copy_clipboard_app.Store.Crashes.{reopened-IsOpen}
use copy_clipboard_app.Store.Ports.{Ticks, Others, OpenStore, store_port, store_port-IsLog}

module _ (p : Platform) (key : Bytes) (laws : IsPlatform p) (ticks : Ticks) (others : Others) where
  abbrev History : Type 0
  History = State (store_port p key laws ticks others)

  -- What a second history has in memory, if the first had `used`.
  abbrev pub Continues : History → History → Type 0
  Continues used fresh =
      (used.items ≡ map_values (shown used.previews_loaded) fresh.items)
      × (used.explicit_tabs ≡ fresh.explicit_tabs)
      × (used.ord ≡ fresh.ord)

  -- A history is created over an open store whose log can be read, loaded, and used by any sequence
  -- of calls, those that fail included, in which no write of the store throws. Then the process ends,
  -- and the store is opened anew from the files that are left. The opening succeeds; and a second
  -- history over it, when it is loaded, has the items of the first, in the same order and with their
  -- previews and titles, which the first may have scrubbed; the same created tabs; and the same
  -- numbers of arrival.
  pub process_restart_lem :
      (store : OpenStore p key laws ticks others) (index again : others.Index)
      (limits later_limits : RetentionLimits) (r : Restored) (calls : List Call) (tick : Tick)
      → replay (read_all p key store.store) ≡ ok r
      → let port = store_port p key laws ticks others in
        let used : History = run calls (load (create_history port store index limits)).1 in
        let opened = open_log p key tick used.store.store.log used.store.store.blobs in
        (opened.0 ≡ ok tt)
        × ((reopened : OpenStore p key laws ticks others) × (reopened.store ≡ opened.1)
            × Continues used (load (create_history port reopened again later_limits)).1)
  process_restart_lem store index again limits later_limits r calls tick log =
      let port = store_port p key laws ticks others in
      let contract = store_port-IsLog p key laws ticks others in
      let used : History = run calls (load (create_history port store index limits)).1 in
      let (s, a) =
        run-Synced contract calls (load (create_history port store index limits)).1
          (r, (load_fresh contract store index limits r log).0) in
      let opened = open_log p key tick used.store.store.log used.store.store.blobs in
      let (succeeded, opens) =
        reopened-IsOpen p laws key tick used.store.store used.store.entries used.store.is_open in
      let reopened : OpenStore p key laws ticks others = record {
        store = opened.1;
        entries = used.store.entries;
        is_open = opens;
        taken = used.store.taken;
      } in
      let same : read_all p key opened.1 ≡ read_all p key used.store.store =
        read_all-IsOpen p key laws opened.1 used.store.entries opens
        ∙ sym (read_all-IsOpen p key laws used.store.store used.store.entries used.store.is_open) in
      let (b, loaded) =
        load_fresh contract reopened again later_limits s (ap replay same ∙ a.log) in
      let fresh : History = (load (create_history port reopened again later_limits)).1 in
      let kept : s.items ≡ fresh.items =
        sym (
          b.items
          ∙ ap (λ l. map_values (shown l) s.items) loaded
          ∙ map_values-shown-true s.items) in
      (
        succeeded,
        (
          reopened,
          refl,
          (
            a.items ∙ ap (map_values (shown used.previews_loaded)) kept,
            a.tabs ∙ sym b.tabs,
            a.ord ∙ sym b.ord,
          ),
        ),
      )
