-- ===== src/History/Synced/Load.antt =====
-- history.ts: `load` and `evictPreviewCache`, and the agreement of memory and log after them.
use copy_clipboard_app.Base.{
  ℕ, suc, ◌≡◌, refl, ap, ◌∙◌, sym, subst, Bool, true, false, List, [], ◌∷◌, ◌==◌, Dict, values,
  map_values, add_all_self, set_each_self,
}
use copy_clipboard_app.Protocol.Result.{ok}
use copy_clipboard_app.Protocol.Types.{Item}
use copy_clipboard_app.History.Ports.{Port}
use copy_clipboard_app.History.State.{State, shown, scrub_preview, remember, reindex}
use copy_clipboard_app.History.Replay.{Restored, replay}
use copy_clipboard_app.History.Replayed.{IsWellFormed, replay-IsWellFormed}
use copy_clipboard_app.History.Keyed.{
  IsKeyed, set_all, set_all-values, set_all_self, map_values-IsKeyed,
}
use copy_clipboard_app.History.Load.{remember_each, reindex_each, install, cleared, ordered}
use copy_clipboard_app.History.Removal.{evict_preview_cache, set_max_items}
use copy_clipboard_app.History.Synced.{Agrees, Synced, shown-id}

scrub_preview-shown :
    (loaded : Bool) (it : Item) → scrub_preview (shown loaded it) ≡ scrub_preview it
unfolding scrub_preview
scrub_preview-shown true it = refl
scrub_preview-shown false it = refl

map_values-shown :
    (loaded : Bool) (m : Dict Item)
    → map_values scrub_preview (map_values (shown loaded) m) ≡ map_values scrub_preview m
map_values-shown loaded [] = refl
map_values-shown loaded ((k, it) ∷ m) =
    cc (scrub_preview-shown loaded it, map_values-shown loaded m)

module _ {port : Port} where
  pub remember_each-set_all :
      (its : List Item) (st : State port)
      → remember_each its st ≡ record st { items = set_all (shown st.previews_loaded) its st.items }
  unfolding remember_each remember set_all
  remember_each-set_all [] st = refl
  remember_each-set_all (it ∷ its) st = remember_each-set_all its (remember it st)

  pub evict_preview_cache-Synced : (st : State port) → Synced st → Synced (evict_preview_cache st)
  unfolding evict_preview_cache
  evict_preview_cache-Synced st (r, a) =
      let cleared : State port = record st {
        index = port.index_clear st.index;
        previews_loaded = false;
        eviction_epoch = suc st.eviction_epoch;
      } in
      let keyed : IsKeyed r.items = (replay-IsWellFormed (port.read_all st.store) r a.log).keyed in
      let stands : IsKeyed st.items = subst IsKeyed (sym a.items) (
        map_values-IsKeyed (shown st.previews_loaded) r.items (shown-id st.previews_loaded)
          keyed) in
      subst Synced (sym (remember_each-set_all (values st.items) cleared)) (
        r,
        record {
          log = a.log;
          items =
              set_all_self scrub_preview st.items stands
              ∙ ap (map_values scrub_preview) a.items
              ∙ map_values-shown st.previews_loaded r.items;
          tabs = a.tabs;
          ord = a.ord;
        },
      )

  pub set_max_items-Synced : (n : ℕ) (st : State port) → Synced st → Synced (set_max_items n st)
  unfolding set_max_items
  set_max_items-Synced n st (r, a) =
      (r, record { log = a.log; items = a.items; tabs = a.tabs; ord = a.ord })

  -- Memory agrees with the restored maps, and previews are loaded or not.
  abbrev pub Filled : Bool → Restored → State port → Type 0
  Filled loaded r st = Agrees port st r × (st.previews_loaded ≡ loaded)

  reindex_each-Filled :
      (loaded : Bool) (r : Restored) (its : List Item) (st : State port)
      → Filled loaded r st
      → Filled loaded r (reindex_each its st)
  unfolding reindex_each reindex
  reindex_each-Filled loaded r [] st f = f
  reindex_each-Filled loaded r (it ∷ its) st (a, e) =
      reindex_each-Filled loaded r its (reindex it st)
        (record { log = a.log; items = a.items; tabs = a.tabs; ord = a.ord }, e)

  ordered-Filled :
      (epoch : ℕ) (r : Restored) (st : State port)
      → replay (port.read_all st.store) ≡ ok r
      → Filled
          (st.eviction_epoch == epoch)
          r
          (ordered r (remember_each (values r.items) (cleared epoch r st)))
  unfolding ordered cleared
  ordered-Filled epoch r st log =
      let w : IsWellFormed r = replay-IsWellFormed (port.read_all st.store) r log in
      subst (λ s. Filled (st.eviction_epoch == epoch) r (ordered r s))
        (sym (remember_each-set_all (values r.items) (cleared epoch r st)))
        (
          record {
            log = log;
            items = set_all-values (shown (st.eviction_epoch == epoch)) r.items w.keyed;
            tabs = add_all_self r.tabs w.distinct;
            ord = set_each_self r.ord w.numbered;
          },
          refl,
        )

  -- What a load puts into memory is what the log restores.
  pub install-Filled :
      (epoch : ℕ) (r : Restored) (st : State port)
      → replay (port.read_all st.store) ≡ ok r
      → Filled (st.eviction_epoch == epoch) r (install epoch r st)
  unfolding install
  install-Filled epoch r st log =
      let numbered : State port = ordered r (remember_each (values r.items) (cleared epoch r st)) in
      let (a, e) =
        reindex_each-Filled (st.eviction_epoch == epoch) r (values numbered.items) numbered
          (ordered-Filled epoch r st log) in
      (record { log = a.log; items = a.items; tabs = a.tabs; ord = a.ord }, e)
