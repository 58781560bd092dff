-- ===== src/Store/Compact.antt =====
-- packages/store/src/log-store.ts: `compact`. The clock and the nonces are those of the lines, by their
-- index.
use copy_clipboard_app.Base.{
  ℕ, zero, suc, ◌+◌, Text, Bool, true, false, Option, none, some, List, [], ◌∷◌, ◌++◌, map, length,
  if◌then◌else◌, Dict, get, set, delete, values, keys, includes, insert, without, keep_if,
}
use copy_clipboard_app.Protocol.Types.{
  Bytes, StoredItem, ItemPatch, RepRef, StoreEvent, item_added, item_updated, item_deleted,
  tab_created, tab_deleted, checkpoint,
}
use copy_clipboard_app.Protocol.Result.{Result, ok, err, ◌>>=◌, store_io}
use copy_clipboard_app.History.State.{get_or}
use copy_clipboard_app.Store.Platform.{Platform}
use copy_clipboard_app.Store.Lines.{read_lines, join_lines}
use copy_clipboard_app.Store.Chain.{chain_genesis, chain_next, check_link}
use copy_clipboard_app.Store.Record.{StoreEventKind, seal_record, open_record_any_kind}
use copy_clipboard_app.Store.Payload.{Extra, no_extra, payload_with, decode_payload, to_store_event}
use copy_clipboard_app.Store.Log.{Store, aad_seq, max_seq, checkpoint_extra}

-- The replay of the log: the items and the created tabs.
pub record Live : Type 0 where
  pub items : Dict StoredItem
  pub tabs : List Text

abbrev pub nothing_live : Live
nothing_live = record { items = []; tabs = [] }

abbrev pub first_of {ℓ} : {A : Type ℓ} → Option A → Option A → Option A
first_of none b = b
first_of (some a) b = some a

-- `{ ...current, ...patch }`: a field that the patch does not have stays as it is.
abbrev pub patch_stored : StoredItem → ItemPatch → StoredItem
patch_stored current patch = record {
  core = record current.core {
    updated_at = patch.updated_at;
    pinned = get_or patch.pinned current.core.pinned;
    expires_at = get_or patch.expires_at current.core.expires_at;
  };
  title = first_of patch.title current.title;
  tags = first_of patch.tags current.tags;
}

abbrev pub patch_found : Text → ItemPatch → Option StoredItem → Dict StoredItem → Dict StoredItem
patch_found id patch none items = items
patch_found id patch (some current) items = set id (patch_stored current patch) items

-- `item.tags?.includes(tag)`
abbrev pub carries : Text → Option (List Text) → Bool
carries tag none = false
carries tag (some tags) = includes tag tags

abbrev pub untag_stored : Text → StoredItem → StoredItem
untag_stored tag item = record item { tags = some (without tag (get_or item.tags [])) }

unfoldable pub untag_all : Text → List StoredItem → Dict StoredItem → Dict StoredItem
untag_all tag [] items = items
untag_all tag (it ∷ its) items =
    untag_all tag its
      (if carries tag it.tags then set it.core.id (untag_stored tag it) items else items)

unfoldable pub apply_live : Live → StoreEvent → Live
unfolding untag_all
apply_live r (item_added seq at item) = record r { items = set item.core.id item r.items }
apply_live r (item_updated seq at id patch) = record r {
  items = patch_found id patch (get id r.items) r.items;
}
apply_live r (item_deleted seq at id reason) = record r { items = delete id r.items }
apply_live r (tab_created seq at tag) = record r { tabs = insert tag r.tabs }
apply_live r (tab_deleted seq at tag) = record r {
  tabs = without tag r.tabs;
  items = untag_all tag (values r.items) r.items;
}
apply_live r (checkpoint seq at max_seq live) = r

-- The times and nonces of the lines, by their index.
pub record LineTicks : Type 0 where
  pub now : ℕ → ℕ
  pub nonce : ℕ → Bytes

-- How the writing of the new generation ends: it may throw before the rename, or behind it.
pub data Rewrite : Type 0 where
  done before_rename after_rename : Rewrite

pub record CompactSummary : Type 0 where
  pub live_item_count : ℕ
  pub lines_before : ℕ
  pub lines_after : ℕ
  pub blobs_removed : ℕ
  pub last_seq : ℕ

pub record Built : Type 0 where
  pub out : List Text
  pub tip : Text

abbrev optional : Option Text → List Text
optional none = []
optional (some id) = id ∷ []

module _ (p : Platform) (key : Bytes) where
  -- The event of a line, with the hash that is expected next. Unlike `readAll` it does not look at
  -- the kind and the number of the payload.
  unfoldable pub live_line : ℕ → ℕ → Text → Text → Result (StoreEvent × Text)
  unfolding open_record_any_kind decode_payload check_link to_store_event
  live_line anchor i expected line = do
    opened ← open_record_any_kind p key i (aad_seq i (anchor + i)) line
    payload ← decode_payload p opened.payload
    next ← check_link p expected line payload.prev
    event ← to_store_event payload
    ok (event, next)

  abbrev pub live_then :
      Result (StoreEvent × Text) → (StoreEvent → Text → Result Live) → Result Live
  live_then (ok (event, next)) rest = rest event next
  live_then (err c) rest = err c

  unfoldable pub live_from : ℕ → ℕ → Text → Live → List Text → Result Live
  unfolding live_line apply_live
  live_from anchor i expected r [] = ok r
  live_from anchor i expected r (line ∷ lines) =
      live_then (live_line anchor i expected line)
        λ event next. live_from anchor (suc i) next (apply_live r event) lines

  -- A line behind those that are there.
  unfoldable pub push_line : LineTicks → ℕ → StoreEventKind → Extra → Built → Built
  unfolding seal_record
  push_line ticks base kind extra b =
      let i = length b.out in
      let seq = base + i in
      let line =
        seal_record p key (ticks.nonce i) i (aad_seq i seq) kind
          (p.stringify (payload_with seq (ticks.now i) kind b.tip extra)) in
      record { out = b.out ++ line ∷ []; tip = chain_next p b.tip line }

  abbrev pub push_items : LineTicks → ℕ → List StoredItem → Built → Built
  push_items ticks base [] b = b
  push_items ticks base (it ∷ its) b =
      push_items ticks base its
        (push_line ticks base StoreEventKind.item_added (record no_extra { item = some it }) b)

  abbrev pub push_tabs : LineTicks → ℕ → List Text → Built → Built
  push_tabs ticks base [] b = b
  push_tabs ticks base (tag ∷ tags) b =
      push_tabs ticks base tags
        (push_line ticks base StoreEventKind.tab_created (record no_extra { tag = some tag }) b)

  -- The new generation in memory. Its numbers go on above the old ones.
  unfoldable pub build : LineTicks → ℕ → List StoredItem → List Text → Built
  unfolding push_line
  build ticks before keep tabs =
      let base = before + 1 in
      push_tabs ticks base tabs (
        push_items ticks base keep (
          push_line ticks base StoreEventKind.checkpoint (checkpoint_extra before (length keep))
            (record { out = []; tip = chain_genesis p })))

  -- The files that the items refer to.
  unfoldable pub keep_files : List StoredItem → List Text
  keep_files [] = []
  keep_files (it ∷ its) =
      map (λ (r : RepRef). p.file_name key r.blob_id) it.core.rep_refs
      ++ (map (λ (id : Text). p.file_name key id) (optional it.core.thumbnail_blob_id)
          ++ keep_files its)

  -- The loop over the files of the blobs: `some n` throws at the removal behind `n` others.
  unfoldable pub collect_blobs :
      Option ℕ → List Text → List Text → ℕ → Dict Bytes → Result ℕ × Dict Bytes
  collect_blobs fault kept [] removed blobs = (ok removed, blobs)
  collect_blobs fault kept (file ∷ files) removed blobs = elim (includes file kept) [
    | true ↦ collect_blobs fault kept files removed blobs
    | false ↦ elim fault [
      | some zero ↦ (err store_io, blobs)
      | some (suc n) ↦ collect_blobs (some n) kept files (suc removed) (delete file blobs)
      | none ↦ collect_blobs none kept files (suc removed) (delete file blobs)
    ]
  ]

  abbrev pub Compaction : Type 0
  Compaction = Result CompactSummary × Store

  abbrev pub collected : ℕ → ℕ → Store → Result ℕ × Dict Bytes → Compaction
  collected live before s (err c, blobs) = (err c, record s { blobs = blobs })
  collected live before s (ok removed, blobs) = (
    ok (record {
      live_item_count = live;
      lines_before = before;
      lines_after = s.line_count;
      blobs_removed = removed;
      last_seq = max_seq s;
    }),
    record s { blobs = blobs },
  )

  abbrev pub installed : Built → Store → Store
  installed b s = record s {
    log = some (join_lines b.out);
    anchor_seq = max_seq s + 1;
    line_count = length b.out;
    tip_hash = b.tip;
  }

  abbrev pub rewritten : Rewrite → Option ℕ → List StoredItem → Built → Store → Compaction
  rewritten Rewrite.before_rename fault keep b s = (err store_io, s)
  rewritten Rewrite.after_rename fault keep b s =
      (err store_io, record s { log = some (join_lines b.out) })
  rewritten Rewrite.done fault keep b s =
      collected (length keep) s.line_count (installed b s)
        (collect_blobs fault (keep_files keep) (keys s.blobs) 0 s.blobs)

  -- The items that the caller asked_for for, in the order in which they were added.
  abbrev pub asked_for : List Text → Live → List StoredItem
  asked_for ids r = keep_if (λ (it : StoredItem). includes it.core.id ids) (values r.items)

  abbrev pub compacted :
      LineTicks → Rewrite → Option ℕ → List Text → Store → Result Live → Compaction
  compacted ticks how fault ids s (err c) = (err c, s)
  compacted ticks how fault ids s (ok r) =
      rewritten how fault (asked_for ids r) (build ticks (max_seq s) (asked_for ids r) r.tabs) s

  unfoldable pub compact : LineTicks → Rewrite → Option ℕ → List Text → Store → Compaction
  unfolding live_from build collect_blobs keep_files read_lines
  compact ticks how fault ids s =
      compacted ticks how fault ids s
        (live_from s.anchor_seq 0 (chain_genesis p) nothing_live (read_lines s.log))
