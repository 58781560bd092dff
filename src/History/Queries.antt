-- ===== src/History/Queries.antt =====
-- history.ts: what reads the history and changes nothing: `list`, `search`, `resolveReps`,
-- `pinnedCount`, `previewsEvicted` and `get`.
use copy_clipboard_app.Base.{
  ℕ, zero, suc, Text, text_eq, Bool, true, false, not, ◌&&◌, ◌||◌, Option, none, some, List, [],
  ◌∷◌, length, take, drop, ltb, ◌==◌, keep_if, if◌then◌else◌, Dict, get, values, includes, sort,
}
use copy_clipboard_app.Protocol.Result.{
  Result, ok, err, item_not_found, item_expired, store_corrupt,
}
use copy_clipboard_app.Protocol.Types.{
  Item, ItemKind, text, richtext, image, files, ResolvedRep, RepRef, Bytes,
}
use copy_clipboard_app.Protocol.Tags.{normalize_tag, is_empty}
use copy_clipboard_app.History.Ports.{Port, SearchHit}
use copy_clipboard_app.History.Tags.{filter_by_tag}
use copy_clipboard_app.History.State.{State, is_live, get_or}
use copy_clipboard_app.History.Load.{after_load}

-- Without `offset` and `limit` a query gives everything.
pub record ListQuery : Type 0 where
  pub limit : Option ℕ
  pub offset : Option ℕ
  pub kind : Option ItemKind
  pub pinned_only : Bool
  pub tag : Option Text

pub record ListResult : Type 0 where
  pub items : List Item
  pub total : ℕ

pub record SearchFilter : Type 0 where
  pub kind : Option ItemKind
  pub pinned_only : Bool
  pub tag : Option Text

pub record ScoredItem : Type 0 where
  pub item : Item
  pub score : ℕ
  pub ranges : List ℕ

unfoldable pub same_kind : ItemKind → ItemKind → Bool
same_kind text text = true
same_kind richtext richtext = true
same_kind image image = true
same_kind files files = true
same_kind _ _ = false

abbrev pub has_kind : Option ItemKind → Item → Bool
has_kind none it = true
has_kind (some kind) it = same_kind it.kind kind

-- `recency`, as "stands strictly before": later first, and of one time the later record first
abbrev pub more_recent : Dict ℕ → Item → Item → Bool
more_recent ord a b =
    if a.updated_at == b.updated_at
    then ltb (get_or (get b.id ord) 0) (get_or (get a.id ord) 0)
    else ltb b.updated_at a.updated_at

module _ (port : Port) where
  -- The rows that pass every filter of a query, before they are ordered.
  unfoldable pub matching : ℕ → ListQuery → State port → List Item
  matching now q st =
      let live = keep_if (λ (it : Item). is_live it now) (values st.items) in
      let pinned = if q.pinned_only then keep_if (λ (it : Item). it.pinned) live else live in
      let kind = keep_if (has_kind q.kind) pinned in filter_by_tag port.to_lower_case kind q.tag

  unfoldable pub list : ℕ → ListQuery → State port → ListResult
  unfolding matching
  list now q st =
      let live = sort (more_recent st.ord) (matching now q st) in
      record {
        items = take (get_or q.limit (length live)) (drop (get_or q.offset 0) live);
        total = length live;
      }

  abbrev pub wanted_tag : Option Text → Text
  wanted_tag none = []
  wanted_tag (some tag) = normalize_tag port.to_lower_case tag

  abbrev pub passes : ℕ → SearchFilter → Item → Bool
  passes now filter it =
      is_live it now
      && has_kind filter.kind it
      && (not filter.pinned_only || it.pinned)
      && (is_empty (wanted_tag filter.tag) || includes (wanted_tag filter.tag) it.tags)

  abbrev pub scored : SearchHit → Item → ScoredItem
  scored hit it = record { item = it; score = hit.score; ranges = hit.ranges }

  abbrev pub collect_one :
      ℕ → SearchFilter → SearchHit → Option Item → (ℕ → List ScoredItem) → ℕ → List ScoredItem
  collect_one now filter hit none rest room = rest room
  collect_one now filter hit (some it) rest zero = []
  collect_one now filter hit (some it) rest (suc room) =
      if passes now filter it then scored hit it ∷ rest room else rest (suc room)

  -- The loop over the hits; `room` is how many more may be collected.
  unfoldable pub collect : ℕ → SearchFilter → State port → List SearchHit → ℕ → List ScoredItem
  collect now filter st [] room = []
  collect now filter st (hit ∷ hits) room =
      collect_one now filter hit (get hit.id st.items) (collect now filter st hits) room

  unfoldable pub search_items : ℕ → Text → ℕ → SearchFilter → State port → List ScoredItem
  unfolding collect
  search_items now q limit filter st =
      if not st.previews_loaded || ltb limit 1
      then []
      else collect now filter st (port.index_query q (port.index_size st.index) st.index) limit

  unfoldable pub pinned_count : ℕ → State port → ℕ
  pinned_count now st =
      length (keep_if (λ (it : Item). it.pinned && is_live it now) (values st.items))

  abbrev pub cons_rep : ResolvedRep → Result (List ResolvedRep) → Result (List ResolvedRep)
  cons_rep rep (ok reps) = ok (rep ∷ reps)
  cons_rep rep (err c) = err c

  abbrev pub resolved_ref :
      RepRef → Result (List ResolvedRep) → Result Bytes → Result (List ResolvedRep)
  resolved_ref ref rest (err c) = err c
  resolved_ref ref rest (ok bytes) =
      if text_eq (port.content_hash bytes) ref.sha256
      then cons_rep
          (record {
            mime = ref.mime;
            uti = ref.uti;
            bytes = bytes;
            byte_length = length bytes;
            sha256 = ref.sha256;
          })
          rest
      else err store_corrupt

  -- The first blob that is missing or corrupt is the result.
  unfoldable pub resolve_refs : List RepRef → State port → Result (List ResolvedRep)
  resolve_refs [] st = ok []
  resolve_refs (ref ∷ refs) st =
      resolved_ref ref (resolve_refs refs st) (port.get_blob ref.blob_id st.store)

  abbrev pub resolve_found : ℕ → Option Item → State port → Result (List ResolvedRep)
  resolve_found now none st = err item_not_found
  resolve_found now (some it) st =
      if is_live it now then resolve_refs it.rep_refs st else err item_expired

  unfoldable pub resolve_reps_body : ℕ → Text → State port → Result (List ResolvedRep) × State port
  unfolding resolve_refs
  resolve_reps_body now id st = (resolve_found now (get id st.items) st, st)

  pub resolve_reps : ℕ → Text → State port → Result (List ResolvedRep) × State port
  unfolding resolve_reps_body
  resolve_reps now id = after_load (resolve_reps_body now id)

  -- `previewsEvicted` and `get`, which waits for nothing
  abbrev pub previews_evicted : State port → Bool
  previews_evicted st = not st.previews_loaded

  abbrev pub get_item : Text → State port → Option Item
  get_item id st = get id st.items
