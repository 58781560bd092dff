-- ===== src/History/Removal.antt =====
-- history.ts: `remove`, the sweep `evictNow`, `evictPreviewCache` and `setMaxItems`.
use copy_clipboard_app.Base.{
  add_all, ℕ, suc, Text, Bool, true, false, Option, none, some, List, [], ◌∷◌, ltb, if◌then◌else◌,
  get, values,
}
use copy_clipboard_app.Protocol.Result.{Result, ok, err}
use copy_clipboard_app.Protocol.Types.{Item, StoreEvent, user}
use copy_clipboard_app.Retention.{Eviction, plan_eviction}
use copy_clipboard_app.History.Ports.{Port, item_deleted, ChangeReason}
use copy_clipboard_app.History.State.{
  State, blob_ids, forget, emit, append, delete_unreferenced_blobs,
}
use copy_clipboard_app.History.Load.{remember_each, after_load}

abbrev sweep_result : ℕ → Result (Unit {0}) → Result (Unit {0}) → Result ℕ
sweep_result evicted (err c) deleted = err c
sweep_result evicted (ok u) (err c) = err c
sweep_result evicted (ok u) (ok v) = ok evicted

-- What the loop over a plan leaves: how many were evicted, whether every record was written, and
-- the state.
pub record Swept (port : Port) : Type 0 where
  pub evicted : ℕ
  pub persisted : Result (Unit {0})
  pub state : State port

module _ {port : Port} where
  -- The blobs of an item wait for deletion, and the item is forgotten.
  unfoldable pub drop_item : Text → Item → State port → State port
  unfolding forget
  drop_item id it st =
      forget id (record st { pending_blob_deletes = add_all st.pending_blob_deletes (blob_ids it) })

  abbrev pub answer {ℓ} : {A : Type ℓ} → A → Result (Unit {0}) × State port → Result A × State port
  answer a (ok u, st) = (ok a, st)
  answer a (err c, st) = (err c, st)

  abbrev pub emit_delete : Result (Unit {0}) × State port → Result (Unit {0}) × State port
  emit_delete (deleted, st) = (deleted, emit ChangeReason.delete st)

  abbrev pub removed_item : Text → Item → Result StoreEvent × State port → Result Bool × State port
  removed_item id it (err c, st) = (err c, st)
  removed_item id it (ok e, st) =
      answer true (emit_delete (delete_unreferenced_blobs (drop_item id it st)))

  abbrev pub remove_found : Text → Option Item → State port → Result Bool × State port
  remove_found id none st = answer false (delete_unreferenced_blobs st)
  remove_found id (some it) st = removed_item id it (append (item_deleted id user) st)

  unfoldable pub remove_body : Text → State port → Result Bool × State port
  unfolding append emit drop_item delete_unreferenced_blobs
  remove_body id st = remove_found id (get id st.items) st

  unfoldable pub remove : Text → State port → Result Bool × State port
  unfolding remove_body
  remove id = after_load (remove_body id)

  unfoldable pub evict_appended :
      Text → Item → (ℕ → State port → Swept port) → ℕ → Result StoreEvent × State port → Swept port
  unfolding drop_item
  evict_appended id it rest evicted (err c, st) = record {
    evicted = evicted;
    persisted = err c;
    state = st;
  }
  evict_appended id it rest evicted (ok e, st) = rest (suc evicted) (drop_item id it st)

  unfoldable pub evict_found :
      Eviction → Option Item → (ℕ → State port → Swept port) → ℕ → State port → Swept port
  unfolding append evict_appended
  evict_found ev none rest evicted st = rest evicted st
  evict_found ev (some it) rest evicted st =
      evict_appended ev.id it rest evicted (append (item_deleted ev.id ev.reason) st)

  -- The loop over the plan; a record that cannot be written ends it.
  unfoldable pub evict_loop : List Eviction → ℕ → State port → Swept port
  unfolding evict_found
  evict_loop [] evicted st = record { evicted = evicted; persisted = ok tt; state = st }
  evict_loop (ev ∷ evs) evicted st = evict_found ev (get ev.id st.items) (evict_loop evs) evicted st

  unfoldable pub finish_sweep : Swept port → Result ℕ × State port
  unfolding emit delete_unreferenced_blobs
  finish_sweep s =
      let (deleted, st) = delete_unreferenced_blobs s.state in
      (
        sweep_result s.evicted s.persisted deleted,
        if ltb 0 s.evicted then emit ChangeReason.evict st else st,
      )

  unfoldable pub evict_now_body : ℕ → State port → Result ℕ × State port
  unfolding evict_loop finish_sweep
  evict_now_body now st =
      finish_sweep (evict_loop (plan_eviction (values st.items) now st.limits) 0 st)

  unfoldable pub evict_now : ℕ → State port → Result ℕ × State port
  unfolding evict_now_body
  evict_now now = after_load (evict_now_body now)

  -- These two do not wait for a load.
  unfoldable pub evict_preview_cache : State port → State port
  unfolding remember_each
  evict_preview_cache st = remember_each (values st.items) (record st {
    index = port.index_clear st.index;
    previews_loaded = false;
    eviction_epoch = suc st.eviction_epoch;
  })

  unfoldable pub set_max_items : ℕ → State port → State port
  set_max_items n st = record st { limits = record st.limits { max_items = n } }
