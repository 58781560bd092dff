-- ===== src/History/Blobs.antt =====
-- history.ts: `deleteUnreferencedBlobs` deletes what no item refers to, and nothing else.
use copy_clipboard_app.Base.{
  Text, text_eq, text_eq_iff, ◌≡◌, refl, ◌∙◌, Bool, true, false, List, [], ◌∷◌, arith, All,
  All-map_impl, if◌then◌else◌, includes, without, includes-without, values,
}
use copy_clipboard_app.Protocol.Result.{Result, ErrorCode, ok, err}
use copy_clipboard_app.Protocol.Types.{Item}
use copy_clipboard_app.History.Ports.{Port}
use copy_clipboard_app.History.State.{
  State, blob_ids, drop_all, spare, succeeded, keep_first, delete_blobs, delete_unreferenced_blobs,
}

-- What the history relies on of the store's blobs: a deletion leaves every other blob as it is.
pub record IsBlobStore (port : Port) : Type 0 where
  pub delete_other :
      (id other : Text) (s : port.Store)
      → text_eq id other ≡ false
      → port.get_blob other (port.delete_blob id s).1 ≡ port.get_blob other s

includes-drop_all :
    (k : Text) (ks s : List Text)
    → includes k (drop_all ks s) ≡ (if includes k ks then false else includes k s)
unfolding includes
includes-drop_all k [] s = refl
includes-drop_all k (j ∷ ks) s =
    ground (arith, includes-drop_all k ks (without j s), includes-without j k s)

each_included :
    (s t : List Text)
    → ((k : Text) → includes k s ≡ true → includes k t ≡ true)
    → All (λ k. includes k t ≡ true) s
unfolding includes
each_included [] t f = tt
each_included (k ∷ s) t f =
    (f k (ground (arith, text_eq_iff k k)), each_included s t (λ j h. f j (ground arith)))

-- What waits and is spared once stays spared.
spare-absent :
    (k : Text) (its : List Item) (pending : List Text)
    → includes k pending ≡ false
    → includes k (spare its pending) ≡ false
unfolding spare
spare-absent k [] pending h = h
spare-absent k (it ∷ its) pending h =
    spare-absent k its (drop_all (blob_ids it) pending)
      (ground (arith, includes-drop_all k (blob_ids it) pending))

-- No blob that an item refers to waits for deletion.
abbrev Spared : List Text → Item → Type 0
Spared pending it = All (λ k. includes k pending ≡ false) (blob_ids it)

spare-Spared : (its : List Item) (pending : List Text) → All (Spared (spare its pending)) its
unfolding spare
spare-Spared [] pending = tt
spare-Spared (it ∷ its) pending = (
  All-map_impl (λ k. includes k (blob_ids it) ≡ true)
      (λ k h.
        spare-absent k its (drop_all (blob_ids it) pending)
          (ground (arith, includes-drop_all k (blob_ids it) pending)))
      (blob_ids it) (each_included (blob_ids it) (blob_ids it) (λ k h. h)),
  spare-Spared its (drop_all (blob_ids it) pending),
)

module _ {port : Port} where
  -- The blob is in the store as it was.
  abbrev pub IsKeptBlob : State port → State port → Text → Type 0
  IsKeptBlob after st k = port.get_blob k after.store ≡ port.get_blob k st.store

module _ {port : Port} (blobs : IsBlobStore port) where
  delete_blobs_other :
      (k : Text) (ids : List Text) (result : Result (Unit {0})) (st : State port)
      → includes k ids ≡ false
      → port.get_blob k (delete_blobs ids result st).1.store ≡ port.get_blob k st.store
  unfolding delete_blobs includes
  delete_blobs_other k [] result st h = refl
  delete_blobs_other k (id ∷ ids) result st h =
      delete_blobs_other k ids _ _ (ground arith) ∙ blobs.delete_other id k st.store (ground arith)

  -- A deletion of unreferenced blobs, whether or not it succeeds, leaves every blob that an item in
  -- memory refers to (by a representation or as its thumbnail) as it was in the store.
  pub delete_unreferenced_blobs_keeps :
      (st : State port)
      → All
          (λ it. All (IsKeptBlob (delete_unreferenced_blobs st).1 st) (blob_ids it))
          (values st.items)
  unfolding delete_unreferenced_blobs
  delete_unreferenced_blobs_keeps st =
      let pending : List Text = spare (values st.items) st.pending_blob_deletes in
      All-map_impl (Spared pending)
        (λ it h.
          All-map_impl (λ k. includes k pending ≡ false)
            (λ k e.
              delete_blobs_other k pending (ok tt) (record st { pending_blob_deletes = pending }) e)
            (blob_ids it) h)
        (values st.items) (spare-Spared (values st.items) st.pending_blob_deletes)

includes_none : (s : List Text) → ((k : Text) → includes k s ≡ false) → s ≡ []
unfolding includes
includes_none [] f = refl
includes_none (k ∷ s) f = ground (arith, f k, text_eq_iff k k)

module _ {port : Port} where
  still_err :
      (ids : List Text) (c : ErrorCode) (st : State port) → (delete_blobs ids (err c) st).0 ≡ err c
  unfolding delete_blobs
  still_err [] c st = refl
  still_err (id ∷ ids) c st = still_err ids c _

  -- After deletions that all succeed, none of them waits any more.
  delete_blobs_done :
      (ids : List Text) (st : State port)
      → (delete_blobs ids (ok tt) st).0 ≡ ok tt
      → (delete_blobs ids (ok tt) st).1.pending_blob_deletes ≡ drop_all ids st.pending_blob_deletes
  unfolding delete_blobs
  delete_blobs_done [] st h = refl
  delete_blobs_done (id ∷ ids) st h =
      go (port.delete_blob id st.store).0 (delete_blobs_done ids (next (ok true))) h
    where
      next : Result Bool → State port
      next d = record st {
        store = (port.delete_blob id st.store).1;
        pending_blob_deletes =
            if succeeded d then without id st.pending_blob_deletes else st.pending_blob_deletes;
      }

      go :
          (d : Result Bool)
          → ((delete_blobs ids (ok tt) (next (ok true))).0 ≡ ok tt
              → (delete_blobs ids (ok tt) (next (ok true))).1.pending_blob_deletes
                ≡ drop_all ids (without id st.pending_blob_deletes))
          → (delete_blobs ids (keep_first (ok tt) d) (next d)).0 ≡ ok tt
          → (delete_blobs ids (keep_first (ok tt) d) (next d)).1.pending_blob_deletes
            ≡ drop_all ids (without id st.pending_blob_deletes)
      go (ok b) again e = again e
      go (err c) again e = cc (e, still_err ids c (next (err c)))

  -- A deletion of unreferenced blobs that succeeds leaves nothing that waits for deletion.
  pub delete_unreferenced_blobs_done :
      (st : State port)
      → (delete_unreferenced_blobs st).0 ≡ ok tt
      → (delete_unreferenced_blobs st).1.pending_blob_deletes ≡ []
  unfolding delete_unreferenced_blobs
  delete_unreferenced_blobs_done st h =
      let pending : List Text = spare (values st.items) st.pending_blob_deletes in
      delete_blobs_done pending (record st { pending_blob_deletes = pending }) h
      ∙ includes_none (drop_all pending pending)
          (λ k. ground (arith, includes-drop_all k pending pending))
