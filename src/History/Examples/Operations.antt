-- ===== src/History/Examples/Operations.antt =====
-- The theorems on single operations of the history, at a history of one item.
use mathlib.Core.List.{Perm}
use copy_clipboard_app.Base.{
  Text, codes, text_eq, ◌≡◌, ◌≤◌, refl, ap, ◌∙◌, true, false, none, some, List, [], ◌∷◌, arith, All,
  keep_if, length, take, drop, values, get, get-delete, includes, without, insert, if◌then◌else◌,
}
use copy_clipboard_app.Base.Sorted.{Pairs}
use copy_clipboard_app.Protocol.Result.{ok, store_io}
use copy_clipboard_app.Protocol.Types.{Item, ResolvedRep}
use copy_clipboard_app.Protocol.Tags.{normalize_tag}
use copy_clipboard_app.History.Tags.{apply_tag}
use copy_clipboard_app.History.State.{
  State, remember, reindex, blob_ids, get_or, is_live, spare, delete_blobs,
  delete_unreferenced_blobs, append,
}
use copy_clipboard_app.History.Queries.{
  ListQuery, list, passes, more_recent, search_items, resolve_reps_body, resolve_refs,
}
use copy_clipboard_app.History.Load.{
  begin_load, finish_load, after_load, install, remember_each, reindex_each, cleared, ordered,
  index_by_content_hash,
}
use copy_clipboard_app.History.Replay.{replay, replay_from, apply_event}
use copy_clipboard_app.History.Updates.{pin, pin_body, pin_found, patch_item}
use copy_clipboard_app.History.Blobs.{
  IsBlobStore, IsKeptBlob, delete_unreferenced_blobs_keeps, delete_unreferenced_blobs_done,
}
use copy_clipboard_app.History.Listed.{filter_of, list_lem}
use copy_clipboard_app.History.Found.{IsMatch, Resolves, search_items_lem, resolve_reps_lem}
use copy_clipboard_app.History.TagSets.{Answers, apply_tag_lem}
use copy_clipboard_app.History.Untouched.{IsUntouched}
use copy_clipboard_app.History.Failures.{edit, edit_pin, waited, edit-IsUntouched}
use copy_clipboard_app.History.Examples.{found_blob, memory_port, one_store, one_state}

memory_port-IsBlobStore : IsBlobStore memory_port
unfolding memory_port
memory_port-IsBlobStore = record {
  delete_other = λ id other m h.
      ap found_blob
        (get-delete id other m.blobs ∙ ap (λ b. if b then none else get other m.blobs) h);
}

-- A blob that no item refers to waits, and one that the item refers to.
abbrev waiting : State memory_port
waiting = record one_state { pending_blob_deletes = codes "hello" ∷ codes "gone" ∷ [] }

delete_unreferenced_blobs_keeps_example :
    All
      (λ it. All (IsKeptBlob (delete_unreferenced_blobs waiting).1 waiting) (blob_ids it))
      (values waiting.items)
delete_unreferenced_blobs_keeps_example =
    delete_unreferenced_blobs_keeps memory_port-IsBlobStore waiting

deleted : (delete_unreferenced_blobs waiting).0 ≡ ok tt
unfolding memory_port delete_unreferenced_blobs delete_blobs spare blob_ids includes without insert
    text_eq
deleted = refl

delete_unreferenced_blobs_done_example :
    (delete_unreferenced_blobs waiting).1.pending_blob_deletes ≡ []
delete_unreferenced_blobs_done_example = delete_unreferenced_blobs_done waiting deleted

abbrev all_work : ListQuery
all_work = record {
  limit = some 10;
  offset = none;
  kind = none;
  pinned_only = false;
  tag = some (codes "work");
}

list_lem_example :
    (live : List Item) × Perm live
      (keep_if (passes memory_port 2_000 (filter_of all_work)) (values one_state.items))
    × Pairs (λ (a b : Item). more_recent one_state.ord b a ≡ false) live
    × ((list memory_port 2_000 all_work one_state).items
        ≡ take (get_or all_work.limit (length live)) (drop (get_or all_work.offset 0) live))
    × ((list memory_port 2_000 all_work one_state).total ≡ length live)
list_lem_example = list_lem memory_port 2_000 all_work one_state

search_items_lem_example :
    (length (search_items memory_port 2_000 (codes "hel") 5 (filter_of all_work) one_state) ≤ 5)
    × All
        (IsMatch memory_port 2_000 (filter_of all_work) one_state)
        (search_items memory_port 2_000 (codes "hel") 5 (filter_of all_work) one_state)
    × (one_state.previews_loaded ≡ false
        → search_items memory_port 2_000 (codes "hel") 5 (filter_of all_work) one_state ≡ [])
search_items_lem_example =
    search_items_lem memory_port 2_000 (filter_of all_work) one_state (codes "hel") 5

abbrev one_rep : ResolvedRep
one_rep = record {
  mime = codes "text/plain";
  uti = none;
  bytes = codes "hello";
  byte_length = 5;
  sha256 = codes "hello";
}

resolved : (resolve_reps_body memory_port 2_000 (codes "A") one_state).0 ≡ ok (one_rep ∷ [])
unfolding memory_port resolve_reps_body resolve_refs get text_eq
resolved = refl

resolve_reps_lem_example :
    (it : Item) × (get (codes "A") one_state.items ≡ some it)
    × (is_live it 2_000 ≡ true)
    × Resolves memory_port it.rep_refs (one_rep ∷ [])
resolve_reps_lem_example =
    resolve_reps_lem memory_port 2_000 (codes "A") one_state (one_rep ∷ []) resolved

same_case : Text → Text
same_case s = s

apply_tag_lem_example :
    Answers
      (normalize_tag same_case (codes " play  time "))
      true
      (codes "work" ∷ [])
      (apply_tag same_case (codes "work" ∷ []) (codes " play  time ") true)
unfolding includes
apply_tag_lem_example =
    apply_tag_lem same_case (codes "work" ∷ []) (codes " play  time ") true
      (record { short = omega arith; once = (refl, tt) })

-- The same history over a store that takes no more records.
abbrev full_state : State memory_port
unfolding memory_port
full_state = record one_state { store = record one_store { capacity = 0 } }

-- A pin that waits for a load, and that the store then refuses.
abbrev loading_state : State memory_port
unfolding begin_load memory_port
loading_state = begin_load full_state

refused : (edit (edit_pin (codes "A") true) loading_state).0 ≡ some store_io
unfolding memory_port edit pin after_load begin_load finish_load install replay replay_from
    apply_event remember_each remember reindex_each reindex cleared ordered index_by_content_hash
    delete_unreferenced_blobs delete_blobs spare pin_body pin_found patch_item append get text_eq
    includes without insert copy_clipboard_app.Base.set blob_ids
refused = refl

edit-IsUntouched_example :
    IsUntouched (waited loading_state) (edit (edit_pin (codes "A") true) loading_state).1
edit-IsUntouched_example =
    edit-IsUntouched (edit_pin (codes "A") true) loading_state store_io refused
