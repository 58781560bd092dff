-- ===== src/History/Synced/Restart.antt =====
-- history.ts: a load, begun and finished, and the wait of every operation for it, after which memory
-- and log agree.
use copy_clipboard_app.Base.{
  ℕ, Text, ◌≡◌, refl, ◌∙◌, Option, none, some, ◌==◌, values, List, [], ◌∷◌,
}
use copy_clipboard_app.Protocol.Result.{Result, ok, err}
use copy_clipboard_app.History.Ports.{Port, IsLog}
use copy_clipboard_app.History.State.{State, delete_blobs, delete_unreferenced_blobs, spare}
use copy_clipboard_app.History.Replay.{Restored, replay}
use copy_clipboard_app.History.Load.{
  begin_load, finish_load, install, with_size, after_load, wait_for, go_on,
}
use copy_clipboard_app.History.Synced.{Agrees, Synced}
use copy_clipboard_app.History.Synced.Removal.{delete_unreferenced_blobs-Agrees}
use copy_clipboard_app.History.Synced.Load.{Filled, install-Filled}

module _ {port : Port} where
  with_size-state : (x : Result (Unit {0}) × State port) → (with_size x).1 ≡ x.1
  with_size-state (ok u, st) = refl
  with_size-state (err c, st) = refl

  delete_blobs-loaded :
      (ids : List Text) (result : Result (Unit {0})) (st : State port)
      → (delete_blobs ids result st).1.previews_loaded ≡ st.previews_loaded
  unfolding delete_blobs
  delete_blobs-loaded [] result st = refl
  delete_blobs-loaded (id ∷ ids) result st = delete_blobs-loaded ids _ _

  delete_unreferenced_blobs-loaded :
      (st : State port) → (delete_unreferenced_blobs st).1.previews_loaded ≡ st.previews_loaded
  unfolding delete_unreferenced_blobs
  delete_unreferenced_blobs-loaded st =
      let pending : List Text = spare (values st.items) st.pending_blob_deletes in
      delete_blobs-loaded pending (ok tt) (record st { pending_blob_deletes = pending })

  -- Beginning a load changes nothing that the agreement is about.
  pub begin_load-Synced : (st : State port) → Synced st → Synced (begin_load st)
  unfolding begin_load
  begin_load-Synced st (r, a) =
      (r, record { log = a.log; items = a.items; tabs = a.tabs; ord = a.ord })

module _ {port : Port} (contract : IsLog port) where
  pub finish_load-Filled :
      (epoch : ℕ) (r : Restored) (st : State port)
      → replay (port.read_all st.store) ≡ ok r
      → Filled (st.eviction_epoch == epoch) r (finish_load epoch st).1
  unfolding finish_load
  finish_load-Filled epoch r st log =
      let (a, e) = install-Filled epoch r st log in
      let settled : State port = (delete_unreferenced_blobs (install epoch r st)).1 in
      let kept : Agrees port settled r =
        delete_unreferenced_blobs-Agrees contract (install epoch r st) r a in
      rw log (
        rw (with_size-state (delete_unreferenced_blobs (install epoch r st))) (
          record { log = kept.log; items = kept.items; tabs = kept.tabs; ord = kept.ord },
          delete_unreferenced_blobs-loaded (install epoch r st) ∙ e,
        ))

  pub finish_load-Synced :
      (epoch : ℕ) (st : State port) → Synced st → Synced (finish_load epoch st).1
  finish_load-Synced epoch st (r, a) = (r, (finish_load-Filled epoch r st a.log).0)

  go_on-Synced :
      {A : Type 0} (op : State port → Result A × State port) (x : Result ℕ × State port)
      → ((w : State port) → Synced w → Synced (op w).1)
      → Synced x.1
      → Synced (go_on op x).1
  go_on-Synced op (ok n, st) f h = f st h
  go_on-Synced op (err c, st) f h = h

  wait_for-Synced :
      {A : Type 0} (loading : Option ℕ) (op : State port → Result A × State port) (st : State port)
      → ((w : State port) → Synced w → Synced (op w).1)
      → Synced st
      → Synced (wait_for loading op st).1
  wait_for-Synced none op st f h = f st h
  wait_for-Synced (some epoch) op st f h =
      go_on-Synced op (finish_load epoch st) f (finish_load-Synced epoch st h)

  -- An operation that keeps the agreement keeps it when it waits for a load.
  pub after_load-Synced :
      {A : Type 0} (op : State port → Result A × State port) (st : State port)
      → ((w : State port) → Synced w → Synced (op w).1)
      → Synced st
      → Synced (after_load op st).1
  unfolding after_load
  after_load-Synced op st f h = wait_for-Synced st.loading op st f h
