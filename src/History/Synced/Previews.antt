-- ===== src/History/Synced/Previews.antt =====
-- history.ts: an eviction of previews while a load is in progress is not undone by the load.
use copy_clipboard_app.Base.{
  ℕ, suc, ◌≡◌, refl, ap, ◌∙◌, sym, subst, Bool, true, false, none, arith, All, ◌==◌, leb, Dict,
  map_values, values, [], ◌∷◌,
}
use copy_clipboard_app.Protocol.Result.{ok}
use copy_clipboard_app.Protocol.Types.{Item}
use copy_clipboard_app.History.Ports.{Port, IsLog}
use copy_clipboard_app.History.State.{State, shown, scrub_preview}
use copy_clipboard_app.History.Replay.{Restored, replay}
use copy_clipboard_app.History.Load.{begin_load, finish_load, epoch_of}
use copy_clipboard_app.History.Removal.{evict_preview_cache}
use copy_clipboard_app.History.Keyed.{set_all}
use copy_clipboard_app.History.Synced.Load.{Filled, remember_each-set_all}
use copy_clipboard_app.History.Synced.Restart.{finish_load-Filled}

-- Neither the preview nor the title of the item is in memory.
pub IsScrubbed : Item → Type 0
IsScrubbed it = (it.preview ≡ []) × (it.mask_spans ≡ []) × (it.title ≡ none)

map_values-IsScrubbed : (m : Dict Item) → All IsScrubbed (values (map_values scrub_preview m))
unfolding IsScrubbed scrub_preview
map_values-IsScrubbed [] = tt
map_values-IsScrubbed ((k, it) ∷ m) = ((refl, refl, refl), map_values-IsScrubbed m)

later_epoch : (epoch now : ℕ) → leb epoch now ≡ true → (suc now == epoch) ≡ false
later_epoch epoch now h = ground arith

module _ {port : Port} where
  -- Nothing in memory shows what was copied.
  abbrev pub Hidden : State port → Type 0
  Hidden st = (st.previews_loaded ≡ false) × All IsScrubbed (values st.items)

  Filled-Hidden :
      (loaded : Bool) (r : Restored) (st : State port)
      → loaded ≡ false
      → Filled loaded r st
      → Hidden st
  Filled-Hidden loaded r st e (a, f) =
      let hidden : st.previews_loaded ≡ false = f ∙ e in
      let gone : st.items ≡ map_values scrub_preview r.items =
        a.items ∙ ap (λ l. map_values (shown l) r.items) hidden in
      (hidden, subst (λ m. All IsScrubbed (values m)) (sym gone) (map_values-IsScrubbed r.items))

module _ {port : Port} (contract : IsLog port) where
  finish_load-Hidden :
      (epoch now : ℕ) (r : Restored) (st : State port)
      → replay (port.read_all st.store) ≡ ok r
      → leb epoch now ≡ true
      → st.eviction_epoch ≡ suc now
      → Hidden (finish_load epoch st).1
  finish_load-Hidden epoch now r st log h e =
      Filled-Hidden (st.eviction_epoch == epoch) r (finish_load epoch st).1
        (ap (λ n. n == epoch) e ∙ later_epoch epoch now h)
        (finish_load-Filled contract epoch r st log)

  -- Previews are evicted after a load has begun and before it is done. The load began at the
  -- eviction epoch of that time, or at an earlier one if it was joined, and the log can be read.
  -- When it is done, previews count as not loaded, and no item in memory has a preview, mask spans
  -- or a title.
  pub evicted_load :
      (st : State port) (r : Restored)
      → replay (port.read_all st.store) ≡ ok r
      → leb (epoch_of st.loading st.eviction_epoch) st.eviction_epoch ≡ true
      → Hidden
          (finish_load
            (epoch_of st.loading st.eviction_epoch)
            (evict_preview_cache (begin_load st))).1
  unfolding begin_load evict_preview_cache
  evicted_load st r log h =
      let begun : State port = begin_load st in
      let emptied : State port = record begun {
        index = port.index_clear st.index;
        previews_loaded = false;
        eviction_epoch = suc st.eviction_epoch;
      } in
      let epoch : ℕ = epoch_of st.loading st.eviction_epoch in
      subst (λ (s : State port). Hidden (finish_load epoch s).1)
        (sym (remember_each-set_all (values st.items) emptied))
        (finish_load-Hidden epoch st.eviction_epoch r
          (record emptied { items = set_all scrub_preview (values st.items) st.items }) log h refl)
