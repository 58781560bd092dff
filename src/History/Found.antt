-- ===== src/History/Found.antt =====
-- history.ts: what `search` and `resolveReps` give.
use copy_clipboard_app.Base.{
  ℕ, zero, suc, Text, text_eq, text_eq_iff, ◌≡◌, ◌≤◌, refl, subst, Bool, true, false, not, ◌||◌,
  inl, inr, Option, none, some, List, [], ◌∷◌, arith, ltb, length, map, if◌then◌else◌, Bool-cases,
  get, All,
}
use copy_clipboard_app.Protocol.Result.{Result, ok, err, item_expired, store_corrupt}
use copy_clipboard_app.Protocol.Types.{Item, ResolvedRep, RepRef, Bytes}
use copy_clipboard_app.History.Ports.{Port, SearchHit}
use copy_clipboard_app.History.State.{State, is_live}
use copy_clipboard_app.History.Queries.{
  SearchFilter, ScoredItem, collect, collect_one, passes, search_items, resolve_refs, resolved_ref,
  cons_rep, resolve_found, resolve_reps_body,
}

module _ (port : Port) (now : ℕ) (filter : SearchFilter) (st : State port) where
  -- The row is an item in memory that passes the filter.
  abbrev pub IsMatch : ScoredItem → Type 0
  IsMatch s =
      (passes port now filter s.item ≡ true) × ((id : Text) × (get id st.items ≡ some s.item))

  -- At most `room` rows, each a match.
  abbrev Fits : ℕ → List ScoredItem → Type 0
  Fits room rows = (length rows ≤ room) × All IsMatch rows

  collect_one-Fits :
      (hit : SearchHit) (o : Option Item) (rest : ℕ → List ScoredItem) (room : ℕ)
      → get hit.id st.items ≡ o
      → ((n : ℕ) → Fits n (rest n))
      → Fits room (collect_one port now filter hit o rest room)
  collect_one-Fits hit none rest room e f = f room
  collect_one-Fits hit (some it) rest zero e f = (omega arith, tt)
  collect_one-Fits hit (some it) rest (suc room) e f =
      elim (Bool-cases (passes port now filter it)) [
        | inl p ↦
            rw p (let (short, found) = f room in (omega (arith, short), ((p, (hit.id, e)), found)))
        | inr p ↦ rw p (f (suc room))
      ]

  collect-Fits :
      (hits : List SearchHit) (room : ℕ) → Fits room (collect port now filter st hits room)
  unfolding collect
  collect-Fits [] room = (omega arith, tt)
  collect-Fits (hit ∷ hits) room =
      collect_one-Fits hit (get hit.id st.items) (collect port now filter st hits) room refl
        (collect-Fits hits)

  -- `search` gives no more rows than its limit, and each of them is an item in memory that is live
  -- and of the kind, pin and tab asked for, whatever the index answers. After an eviction of
  -- previews it gives none.
  pub search_items_lem :
      (q : Text) (limit : ℕ)
      → (length (search_items port now q limit filter st) ≤ limit)
        × All IsMatch (search_items port now q limit filter st)
        × (st.previews_loaded ≡ false → search_items port now q limit filter st ≡ [])
  unfolding search_items
  search_items_lem q limit = elim (Bool-cases (not st.previews_loaded || ltb limit 1)) [
    | inl e ↦ rw e (omega arith, tt, λ h. refl)
    | inr e ↦ rw e (
        let (short, found) =
          collect-Fits (port.index_query q (port.index_size st.index) st.index) limit in
        (short, found, λ h. ground arith))
  ]

module _ (port : Port) where
  -- The bytes have the hash that the item recorded.
  abbrev pub IsVerified : ResolvedRep → Type 0
  IsVerified rep = (port.content_hash rep.bytes ≡ rep.sha256) × (rep.byte_length ≡ length rep.bytes)

  -- Every reference is resolved, in order, to verified bytes.
  abbrev pub Resolves : List RepRef → List ResolvedRep → Type 0
  Resolves refs reps =
      (map (λ (r : ResolvedRep). r.sha256) reps ≡ map (λ (r : RepRef). r.sha256) refs)
      × (map (λ (r : ResolvedRep). r.mime) reps ≡ map (λ (r : RepRef). r.mime) refs)
      × All IsVerified reps

  cons_rep-Resolves :
      (ref : RepRef) (refs : List RepRef) (rep : ResolvedRep) (rest : Result (List ResolvedRep))
      (reps : List ResolvedRep)
      → (rep.sha256 ≡ ref.sha256)
      → (rep.mime ≡ ref.mime)
      → IsVerified rep
      → ((rs : List ResolvedRep) → rest ≡ ok rs → Resolves refs rs)
      → cons_rep port rep rest ≡ ok reps
      → Resolves (ref ∷ refs) reps
  cons_rep-Resolves ref refs rep (err c) reps a b v f h = cc
  cons_rep-Resolves ref refs rep (ok rs) reps a b v f h =
      let (hashes, mimes, verified) = f rs refl in
      let same : rep ∷ rs ≡ reps = cc in
      subst (Resolves (ref ∷ refs)) same (cc (a, hashes), cc (b, mimes), (v, verified))

  resolved_ref-Resolves :
      (ref : RepRef) (refs : List RepRef) (rest : Result (List ResolvedRep)) (got : Result Bytes)
      (reps : List ResolvedRep)
      → ((rs : List ResolvedRep) → rest ≡ ok rs → Resolves refs rs)
      → resolved_ref port ref rest got ≡ ok reps
      → Resolves (ref ∷ refs) reps
  resolved_ref-Resolves ref refs rest (err c) reps f h = cc
  resolved_ref-Resolves ref refs rest (ok bytes) reps f h =
      go (text_eq (port.content_hash bytes) ref.sha256) refl h
    where
      rep : ResolvedRep
      rep = record {
        mime = ref.mime;
        uti = ref.uti;
        bytes = bytes;
        byte_length = length bytes;
        sha256 = ref.sha256;
      }

      go :
          (b : Bool)
          → text_eq (port.content_hash bytes) ref.sha256 ≡ b
          → (if b then cons_rep port rep rest else err store_corrupt) ≡ ok reps
          → Resolves (ref ∷ refs) reps
      go true e k =
          cons_rep-Resolves ref refs rep rest reps refl refl
            ((text_eq_iff (port.content_hash bytes) ref.sha256).0 e, refl) f k
      go false e k = cc

  resolve_refs-Resolves :
      (refs : List RepRef) (st : State port) (reps : List ResolvedRep)
      → resolve_refs port refs st ≡ ok reps
      → Resolves refs reps
  unfolding resolve_refs
  resolve_refs-Resolves [] st [] h = (refl, refl, tt)
  resolve_refs-Resolves [] st (rep ∷ reps) h = cc
  resolve_refs-Resolves (ref ∷ refs) st reps h =
      resolved_ref-Resolves ref refs (resolve_refs port refs st)
        (port.get_blob ref.blob_id st.store) reps (resolve_refs-Resolves refs st) h

  -- What `resolveReps` answers of an item is not its content unless the item is in memory and has
  -- not expired; and then it is every representation of the item, in order, each with bytes that
  -- hash to what the item recorded.
  pub resolve_reps_lem :
      (now : ℕ) (id : Text) (st : State port) (reps : List ResolvedRep)
      → (resolve_reps_body port now id st).0 ≡ ok reps
      → (it : Item) × (get id st.items ≡ some it)
        × (is_live it now ≡ true)
        × Resolves it.rep_refs reps
  unfolding resolve_reps_body
  resolve_reps_lem now id st reps h = go (get id st.items) refl h
    where
      live :
          (it : Item) (b : Bool)
          → is_live it now ≡ b
          → (if b then resolve_refs port it.rep_refs st else err item_expired) ≡ ok reps
          → (is_live it now ≡ true) × Resolves it.rep_refs reps
      live it true e k = (e, resolve_refs-Resolves it.rep_refs st reps k)
      live it false e k = cc

      go :
          (o : Option Item)
          → get id st.items ≡ o
          → resolve_found port now o st ≡ ok reps
          → (it : Item) × (get id st.items ≡ some it)
            × (is_live it now ≡ true)
            × Resolves it.rep_refs reps
      go none e k = cc
      go (some it) e k = let (l, r) = live it (is_live it now) refl k in (it, e, l, r)
