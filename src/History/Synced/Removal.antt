-- ===== src/History/Synced/Removal.antt =====
-- `remove`, the sweep and the eviction of previews keep memory and log in agreement.
use copy_clipboard_app.Base.{
  ℕ, suc, Text, ◌≡◌, ap, ◌∙◌, true, false, inl, inr, Option, none, some, List, [], ◌∷◌, ltb,
  Bool-cases, get, delete, values, delete-map_values,
}
use copy_clipboard_app.Protocol.Result.{Result, ok, err}
use copy_clipboard_app.Protocol.Types.{Item, StoreEvent, DeleteReason, user}
use copy_clipboard_app.Retention.{Eviction, plan_eviction}
use copy_clipboard_app.History.Ports.{Port, IsLog, item_deleted, ChangeReason}
use copy_clipboard_app.History.State.{State, shown, delete_blobs, delete_unreferenced_blobs, spare}
use copy_clipboard_app.History.Replay.{Restored, apply_event, replay}
use copy_clipboard_app.History.Removal.{
  drop_item, answer, removed_item, remove_found, remove_body, emit_delete, evict_found,
  evict_appended, evict_loop, finish_sweep, evict_now_body, Swept,
}
use copy_clipboard_app.History.Synced.{Agrees, Synced, append_cases, with_store, emit-Agrees}

module _ {port : Port} (contract : IsLog port) where
  delete_blobs-Agrees :
      (ids : List Text) (result : Result (Unit {0})) (st : State port) (r : Restored)
      → Agrees port st r
      → Agrees port (delete_blobs ids result st).1 r
  unfolding delete_blobs
  delete_blobs-Agrees [] result st r a = a
  delete_blobs-Agrees (id ∷ ids) result st r a = delete_blobs-Agrees ids _ _ r (record {
    log = ap replay (contract.delete_blob_apart id st.store) ∙ a.log;
    items = a.items;
    tabs = a.tabs;
    ord = a.ord;
  })

  pub delete_unreferenced_blobs-Agrees :
      (st : State port) (r : Restored)
      → Agrees port st r
      → Agrees port (delete_unreferenced_blobs st).1 r
  unfolding delete_unreferenced_blobs
  delete_unreferenced_blobs-Agrees st r a =
      let pending : List Text = spare (values st.items) st.pending_blob_deletes in
      delete_blobs-Agrees pending (ok tt) (record st { pending_blob_deletes = pending }) r
        (record { log = a.log; items = a.items; tabs = a.tabs; ord = a.ord })

  -- After the record of a deletion, the item is forgotten in memory too.
  drop_item-Synced :
      (id : Text) (it : Item) (reason : DeleteReason) (st : State port) (r : Restored) (seq at : ℕ)
      (s : port.Store)
      → Agrees port st r
      → replay (port.read_all s) ≡ ok (apply_event r (StoreEvent.item_deleted seq at id reason))
      → Synced (drop_item id it (record st { store = s }))
  unfolding drop_item apply_event
  drop_item-Synced id it reason st r seq at s a log = (
    apply_event r (StoreEvent.item_deleted seq at id reason),
    record {
      log = log;
      items = ap (delete id) a.items ∙ delete-map_values (shown st.previews_loaded) id r.items;
      tabs = a.tabs;
      ord = ap (delete id) a.ord;
    },
  )

  answer-Synced :
      {A : Type 0} (a : A) (x : Result (Unit {0}) × State port) → Synced x.1 → Synced (answer a x).1
  answer-Synced a (ok u, st) h = h
  answer-Synced a (err c, st) h = h

  settled-Synced :
      (st : State port) → Synced st → Synced (emit_delete (delete_unreferenced_blobs st)).1
  settled-Synced st (r, a) =
      (r, emit-Agrees ChangeReason.delete _ r (delete_unreferenced_blobs-Agrees st r a))

  remove_found-Synced :
      (id : Text) (o : Option Item) (st : State port) → Synced st → Synced (remove_found id o st).1
  remove_found-Synced id none st (r, a) =
      answer-Synced false (delete_unreferenced_blobs st)
        (r, delete_unreferenced_blobs-Agrees st r a)
  remove_found-Synced id (some it) st (r, a) =
      append_cases contract (item_deleted id user) tt st r a.log (removed_item id it)
        (λ x. Synced x.1) (λ c s log. (r, with_store a s log))
        (λ seq at s log.
          answer-Synced true _ (settled-Synced _ (drop_item-Synced id it user st r seq at s a log)))

  pub remove_body-Synced : (id : Text) (st : State port) → Synced st → Synced (remove_body id st).1
  unfolding remove_body
  remove_body-Synced id st h = remove_found-Synced id (get id st.items) st h

  evict_found-Synced :
      (ev : Eviction) (o : Option Item) (rest : ℕ → State port → Swept port) (n : ℕ)
      (st : State port)
      → ((m : ℕ) (w : State port) → Synced w → Synced (rest m w).state)
      → Synced st
      → Synced (evict_found ev o rest n st).state
  unfolding evict_found
  evict_found-Synced ev none rest n st f h = f n st h
  evict_found-Synced ev (some it) rest n st f (r, a) =
      append_cases contract (item_deleted ev.id ev.reason) tt st r a.log
        (evict_appended ev.id it rest n) (λ x. Synced x.state) (λ c s log. (r, with_store a s log))
        (λ seq at s log. f (suc n) _ (drop_item-Synced ev.id it ev.reason st r seq at s a log))

  evict_loop-Synced :
      (evs : List Eviction) (n : ℕ) (st : State port)
      → Synced st
      → Synced (evict_loop evs n st).state
  unfolding evict_loop
  evict_loop-Synced [] n st h = h
  evict_loop-Synced (ev ∷ evs) n st h =
      evict_found-Synced ev (get ev.id st.items) (evict_loop evs) n st (evict_loop-Synced evs) h

  finish_sweep-Synced : (s : Swept port) → Synced s.state → Synced (finish_sweep s).1
  unfolding finish_sweep
  finish_sweep-Synced s (r, a) = elim (Bool-cases (ltb 0 s.evicted)) [
    | inl e ↦
        rw e (r, emit-Agrees ChangeReason.evict _ r (delete_unreferenced_blobs-Agrees s.state r a))
    | inr e ↦ rw e (r, delete_unreferenced_blobs-Agrees s.state r a)
  ]

  pub evict_now_body-Synced :
      (now : ℕ) (st : State port) → Synced st → Synced (evict_now_body now st).1
  unfolding evict_now_body
  evict_now_body-Synced now st h =
      finish_sweep-Synced (evict_loop (plan_eviction (values st.items) now st.limits) 0 st)
        (evict_loop-Synced (plan_eviction (values st.items) now st.limits) 0 st h)
