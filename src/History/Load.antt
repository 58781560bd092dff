-- ===== src/History/Load.antt =====
-- history.ts: `load`, the publication of a replay, and the wait of every operation for a load that
-- is in progress. A load holds the eviction epoch at which it began; the log cannot change until it
-- is done, since whatever appends to it waits.
use copy_clipboard_app.Base.{
  add_all, set_each, ℕ, Text, Option, none, some, List, [], ◌∷◌, ◌==◌, length, Dict, set, values,
}
use copy_clipboard_app.Protocol.Result.{Result, ok, err}
use copy_clipboard_app.Protocol.Types.{Item}
use copy_clipboard_app.History.Ports.{Port}
use copy_clipboard_app.History.State.{State, remember, reindex, delete_unreferenced_blobs}
use copy_clipboard_app.History.Replay.{Restored, replay}

-- packages/history/src/dedupe.ts, into a map that is there
unfoldable pub index_by_content_hash : List Item → Dict Text → Dict Text
index_by_content_hash [] m = m
index_by_content_hash (it ∷ its) m = index_by_content_hash its (set it.content_hash it.id m)

-- The epoch of the load that is in progress, which a second call joins, or of one that begins now.
abbrev pub epoch_of : Option ℕ → ℕ → ℕ
epoch_of none current = current
epoch_of (some started) current = started

module _ {port : Port} where
  unfoldable pub remember_each : List Item → State port → State port
  unfolding remember
  remember_each [] st = st
  remember_each (it ∷ its) st = remember_each its (remember it st)

  unfoldable pub reindex_each : List Item → State port → State port
  unfolding reindex
  reindex_each [] st = st
  reindex_each (it ∷ its) st = reindex_each its (reindex it st)

  -- The empty maps that a complete replay fills.
  unfoldable pub cleared : ℕ → Restored → State port → State port
  cleared epoch r st = record st {
    previews_loaded = st.eviction_epoch == epoch;
    items = [];
    explicit_tabs = add_all [] r.tabs;
    ord = [];
    by_hash = [];
    index = port.index_clear st.index;
  }

  unfoldable pub ordered : Restored → State port → State port
  unfolding index_by_content_hash
  ordered r st = record st {
    ord = set_each r.ord [];
    by_hash = index_by_content_hash (values st.items) [];
  }

  -- The maps of a complete replay take the place of those in memory.
  unfoldable pub install : ℕ → Restored → State port → State port
  unfolding remember_each reindex_each cleared ordered
  install epoch r st =
      let numbered = ordered r (remember_each (values r.items) (cleared epoch r st)) in
      let indexed = reindex_each (values numbered.items) numbered in
      record indexed { pending_blob_deletes = add_all indexed.pending_blob_deletes r.deletes }

  abbrev pub with_size : Result (Unit {0}) × State port → Result ℕ × State port
  with_size (ok u, st) = (ok (length st.items), st)
  with_size (err c, st) = (err c, st)

  abbrev pub publish : ℕ → Result Restored → State port → Result ℕ × State port
  publish epoch (err c) st = (err c, st)
  publish epoch (ok r) st = with_size (delete_unreferenced_blobs (install epoch r st))

  -- `load()` up to its first wait.
  unfoldable pub begin_load : State port → State port
  begin_load st = record st { loading = some (epoch_of st.loading st.eviction_epoch) }

  -- The rest of it, with `finally`.
  unfoldable pub finish_load : ℕ → State port → Result ℕ × State port
  unfolding install delete_unreferenced_blobs
  finish_load epoch st =
      let (r, st') = publish epoch (replay (port.read_all st.store)) st in
      (r, record st' { loading = none })

  unfoldable pub load : State port → Result ℕ × State port
  unfolding finish_load
  load st = finish_load (epoch_of st.loading st.eviction_epoch) st

  -- `while (loading !== null) { … }` at the head of an operation
  abbrev pub go_on {ℓ} :
      {A : Type ℓ}
      → (State port → Result A × State port)
      → Result ℕ × State port
      → Result A × State port
  go_on op (ok n, st) = op st
  go_on op (err c, st) = (err c, st)

  abbrev pub wait_for {ℓ} :
      {A : Type ℓ}
      → Option ℕ
      → (State port → Result A × State port)
      → State port
      → Result A × State port
  wait_for none op st = op st
  wait_for (some epoch) op st = go_on op (finish_load epoch st)

  unfoldable pub after_load {ℓ} :
      {A : Type ℓ} → (State port → Result A × State port) → State port → Result A × State port
  unfolding finish_load
  after_load op st = wait_for st.loading op st
