-- ===== src/History/State.antt =====
-- history.ts: the state that `createHistory` closes over, and the local functions that change it.
-- A call of the listeners is an entry of `emitted`; what is logged is left out.
use copy_clipboard_app.Base.{
  ℕ, Text, text_eq, Bool, true, false, Option, none, some, List, [], ◌∷◌, ◌++◌, map, length, ltb,
  if◌then◌else◌, Dict, add_all, get, set, delete, values, without,
}
use copy_clipboard_app.Protocol.Result.{Result, ok, err}
use copy_clipboard_app.Protocol.Types.{Item, RepRef}
use copy_clipboard_app.Retention.{RetentionLimits}
use copy_clipboard_app.History.Ports.{Port, StoreEventInput, SearchEntry, ChangeReason}
use copy_clipboard_app.Protocol.Types.{StoreEvent}

pub record State (port : Port) : Type 0 where
  pub store : port.Store
  pub index : port.Index
  pub limits : RetentionLimits
  pub items : Dict Item
  pub explicit_tabs : List Text
  pub ord : Dict ℕ
  pub by_hash : Dict Text
  pub pending_blob_deletes : List Text
  pub previews_loaded : Bool
  pub eviction_epoch : ℕ
  pub loading : Option ℕ
  pub emitted : List (ChangeReason × ℕ)

abbrev pub get_or {ℓ} : {A : Type ℓ} → Option A → A → A
get_or none d = d
get_or (some a) d = a

-- `scrubPreview`
unfoldable pub scrub_preview : Item → Item
scrub_preview it = record it {
  core = record it.core { preview = []; mask_spans = [] };
  title = none;
}

-- An item as it is kept in memory while previews are loaded, or are not.
abbrev pub shown : Bool → Item → Item
shown loaded it = if loaded then it else scrub_preview it

abbrev pub is_live : Item → ℕ → Bool
is_live it now = elim it.expires_at [ none ↦ true | some t ↦ ltb now t ]

-- `byHash.get(hash) === id`
abbrev pub points_to : Option Text → Text → Bool
points_to none id = false
points_to (some j) id = text_eq j id

abbrev pub drop_all : List Text → List Text → List Text
drop_all [] s = s
drop_all (k ∷ ks) s = drop_all ks (without k s)

abbrev optional : Option Text → List Text
optional none = []
optional (some k) = k ∷ []

-- `blobIds`: a set
unfoldable pub blob_ids : Item → List Text
blob_ids it =
    add_all [] (map (λ (r : RepRef). r.blob_id) it.rep_refs ++ optional it.thumbnail_blob_id)

-- The index of hashes without the item `id`, which is there or not.
abbrev pub unhash : Text → Option Item → Dict Text → Dict Text
unhash id none by_hash = by_hash
unhash id (some it) by_hash =
    if points_to (get it.content_hash by_hash) id then delete it.content_hash by_hash else by_hash

-- The loop that spares what some item still refers to.
unfoldable pub spare : List Item → List Text → List Text
spare [] pending = pending
spare (it ∷ its) pending = spare its (drop_all (blob_ids it) pending)

abbrev pub succeeded : Result Bool → Bool
succeeded (ok _) = true
succeeded (err _) = false

abbrev pub keep_first : Result (Unit {0}) → Result Bool → Result (Unit {0})
keep_first (err c) deleted = err c
keep_first (ok u) (ok _) = ok u
keep_first (ok u) (err c) = err c

module _ {port : Port} where
  unfoldable pub remember : Item → State port → State port
  remember it st = record st { items = set it.id (shown st.previews_loaded it) st.items }

  unfoldable pub emit : ChangeReason → State port → State port
  emit reason st = record st { emitted = st.emitted ++ (reason, length st.items) ∷ [] }

  abbrev pub entry_of : Item → State port → SearchEntry
  entry_of it st = record {
    id = it.id;
    preview = get_or it.title it.preview;
    pinned = it.pinned;
    tagged = ltb 0 (length it.tags);
    updated_at = it.updated_at;
    ord = get_or (get it.id st.ord) 0;
  }

  unfoldable pub reindex : Item → State port → State port
  reindex it st = record st {
    index = if st.previews_loaded then port.index_add (entry_of it st) st.index else st.index;
  }

  unfoldable pub forget : Text → State port → State port
  forget id st = record st {
    items = delete id st.items;
    ord = delete id st.ord;
    index = port.index_remove id st.index;
    by_hash = unhash id (get id st.items) st.by_hash;
  }

  -- `store.appendEvent`: the result, and the state with the store's next state
  unfoldable pub append : StoreEventInput → State port → Result StoreEvent × State port
  append input st =
      let (r, store) = port.append_event input st.store in (r, record st { store = store })

  -- The loop that deletes each pending blob. The first failure is the result, and does not stop it.
  unfoldable pub delete_blobs :
      List Text → Result (Unit {0}) → State port → Result (Unit {0}) × State port
  delete_blobs [] result st = (result, st)
  delete_blobs (id ∷ ids) result st =
      let (deleted, store) = port.delete_blob id st.store in
      let pending =
        if succeeded deleted then without id st.pending_blob_deletes else st.pending_blob_deletes in
      delete_blobs ids (keep_first result deleted)
        (record st { store = store; pending_blob_deletes = pending })

  -- `deleteUnreferencedBlobs`
  unfoldable pub delete_unreferenced_blobs : State port → Result (Unit {0}) × State port
  unfolding delete_blobs spare
  delete_unreferenced_blobs st =
      let pending = spare (values st.items) st.pending_blob_deletes in
      delete_blobs pending (ok tt) (record st { pending_blob_deletes = pending })
