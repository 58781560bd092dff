-- ===== src/History/Run.antt =====
-- history.ts: what `createHistory` starts with, and the calls of the `History` it returns. A load is
-- two steps, since a preview eviction or a new limit may come between them; any other call waits.
use copy_clipboard_app.Base.{ℕ, Text, Bool, true, Option, none, some, List, [], ◌∷◌}
use copy_clipboard_app.Protocol.Types.{Candidate, Bytes}
use copy_clipboard_app.Retention.{RetentionLimits}
use copy_clipboard_app.History.Ports.{Port}
use copy_clipboard_app.History.State.{State}
use copy_clipboard_app.History.Load.{begin_load, finish_load}
use copy_clipboard_app.History.Updates.{pin, tag, set_title}
use copy_clipboard_app.History.Tabs.{create_tab, remove_tab}
use copy_clipboard_app.History.Ingest.{ingest}
use copy_clipboard_app.History.Removal.{remove, evict_now, evict_preview_cache, set_max_items}

-- A call, with the time and the random bytes that it reads.
pub data Call : Type 0 where
  call_ingest : ℕ → Bytes → Candidate → Call
  call_pin : Text → Bool → Call
  call_tag : Text → Text → Bool → Call
  call_create_tab : ℕ → Text → Call
  call_remove_tab : Text → Call
  call_set_title : Text → Option Text → Call
  call_remove : Text → Call
  call_evict_now : ℕ → Call
  call_evict_preview_cache : Call
  call_set_max_items : ℕ → Call
  begins_load : Call
  ends_load : Call

-- `createHistory` over a store, an index and limits
unfoldable pub create_history :
    (port : Port) → port.Store → port.Index → RetentionLimits → State port
create_history port store index limits = record {
  store = store;
  index = index;
  limits = limits;
  items = [];
  explicit_tabs = [];
  ord = [];
  by_hash = [];
  pending_blob_deletes = [];
  previews_loaded = true;
  eviction_epoch = 0;
  loading = none;
  emitted = [];
}

module _ {port : Port} where
  abbrev pub end_load : Option ℕ → State port → State port
  end_load none st = st
  end_load (some epoch) st = (finish_load epoch st).1

  unfoldable pub step : Call → State port → State port
  step (call_ingest now rnd c) st = (ingest now rnd c st).1
  step (call_pin id pinned) st = (pin id pinned st).1
  step (call_tag id raw tagged) st = (tag id raw tagged st).1
  step (call_create_tab now raw) st = (create_tab now raw st).1
  step (call_remove_tab raw) st = (remove_tab raw st).1
  step (call_set_title id raw) st = (set_title id raw st).1
  step (call_remove id) st = (remove id st).1
  step (call_evict_now now) st = (evict_now now st).1
  step call_evict_preview_cache st = evict_preview_cache st
  step (call_set_max_items n) st = set_max_items n st
  step begins_load st = begin_load st
  step ends_load st = end_load st.loading st

  unfoldable pub run : List Call → State port → State port
  unfolding step
  run [] st = st
  run (call ∷ calls) st = run calls (step call st)
