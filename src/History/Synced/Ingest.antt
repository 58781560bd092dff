-- ===== src/History/Synced/Ingest.antt =====
-- `ingest` keeps memory and log in agreement.
use copy_clipboard_app.Base.{
  ℕ, Text, ◌≡◌, refl, ap, ◌∙◌, sym, subst, inl, inr, Option, none, some, List, [], ◌∷◌, Bool-cases,
  Option-cases, ◌⊎◌, get, set,
}
use copy_clipboard_app.Protocol.Result.{Result, ok, err}
use copy_clipboard_app.Protocol.Types.{Item, ResolvedRep, RepRef, Candidate, Bytes}
use copy_clipboard_app.History.Ports.{Port, IsLog, item_added, item_updated, ChangeReason}
use copy_clipboard_app.History.State.{State, append}
use copy_clipboard_app.History.Replay.{Restored, apply_event, replay}
use copy_clipboard_app.History.Updates.{just_updated}
use copy_clipboard_app.History.Ingest.{
  put_blob, put_reps, put_thumbnail, cons_ref, after_put, as_some, item_of, enter, entered,
  with_thumbnail, with_refs, add_copy, bump_updated_at, bumped, bump_copy, find_existing,
  ingest_body, verdict_of,
}
use copy_clipboard_app.History.Synced.{
  Agrees, Synced, append_cases, with_store, set-shown, emit-Agrees, patched-Synced,
}

-- The second state differs from the first in its store, and the two stores have one log.
pub record OnlyBlobs {port : Port} (st after : State port) : Type 0 where
  pub store : port.Store
  pub same : after ≡ record st { store = store }
  pub log : port.read_all store ≡ port.read_all st.store

module _ {port : Port} where
  OnlyBlobs-refl : (st : State port) → OnlyBlobs st st
  OnlyBlobs-refl st = record { store = st.store; same = refl; log = refl }

  OnlyBlobs-trans : {a b c : State port} → OnlyBlobs a b → OnlyBlobs b c → OnlyBlobs a c
  OnlyBlobs-trans {a} f g = record {
    store = g.store;
    same = g.same ∙ ap (λ (st : State port). record st { store = g.store }) f.same;
    log = g.log ∙ ap (λ (st : State port). port.read_all st.store) f.same ∙ f.log;
  }

  pub OnlyBlobs-Agrees :
      {st after : State port} (r : Restored)
      → OnlyBlobs st after
      → Agrees port st r
      → Agrees port after r
  OnlyBlobs-Agrees r f a =
      subst (λ w. Agrees port w r) (sym f.same) (with_store a f.store (ap replay f.log ∙ a.log))

module _ {port : Port} (contract : IsLog port) where
  put_blob-OnlyBlobs : (bytes : Bytes) (st : State port) → OnlyBlobs st (put_blob bytes st).1
  unfolding put_blob
  put_blob-OnlyBlobs bytes st = record {
    store = (port.put_blob bytes st.store).1;
    same = refl;
    log = contract.put_blob_apart bytes st.store;
  }

  cons_ref-OnlyBlobs :
      (st : State port) (ref : RepRef) (x : Result (List RepRef) × State port)
      → OnlyBlobs st x.1
      → OnlyBlobs st (cons_ref ref x).1
  cons_ref-OnlyBlobs st ref (ok refs, w) h = h
  cons_ref-OnlyBlobs st ref (err c, w) h = h

  after_put-OnlyBlobs :
      (st : State port) (rep : ResolvedRep) (rest : State port → Result (List RepRef) × State port)
      (x : Result Text × State port)
      → ((w : State port) → OnlyBlobs w (rest w).1)
      → OnlyBlobs st x.1
      → OnlyBlobs st (after_put rep rest x).1
  after_put-OnlyBlobs st rep rest (err c, w) f h = h
  after_put-OnlyBlobs st rep rest (ok blob, w) f h =
      cons_ref-OnlyBlobs st _ (rest w) (OnlyBlobs-trans h (f w))

  pub put_reps-OnlyBlobs :
      (reps : List ResolvedRep) (st : State port) → OnlyBlobs st (put_reps reps st).1
  unfolding put_reps
  put_reps-OnlyBlobs [] st = OnlyBlobs-refl st
  put_reps-OnlyBlobs (rep ∷ reps) st =
      after_put-OnlyBlobs st rep (put_reps reps) (put_blob rep.bytes st) (put_reps-OnlyBlobs reps)
        (put_blob-OnlyBlobs rep.bytes st)

  as_some-OnlyBlobs :
      (st : State port) (x : Result Text × State port)
      → OnlyBlobs st x.1
      → OnlyBlobs st (as_some x).1
  as_some-OnlyBlobs st (ok blob, w) h = h
  as_some-OnlyBlobs st (err c, w) h = h

  pub put_thumbnail-OnlyBlobs :
      (jpeg : Option Bytes) (st : State port) → OnlyBlobs st (put_thumbnail jpeg st).1
  unfolding put_thumbnail
  put_thumbnail-OnlyBlobs none st = OnlyBlobs-refl st
  put_thumbnail-OnlyBlobs (some jpeg) st =
      as_some-OnlyBlobs st (put_blob jpeg st) (put_blob-OnlyBlobs jpeg st)

  entered-Synced :
      (it : Item) (st : State port) → Synced st → Synced (entered it (append (item_added it) st)).1
  unfolding enter apply_event
  entered-Synced it st (r, a) =
      append_cases contract (item_added it) tt st r a.log (entered it) (λ x. Synced x.1)
        (λ c s log. (r, with_store a s log))
        (λ seq at s log. (
          record r { items = set it.id it r.items; ord = set it.id seq r.ord },
          emit-Agrees ChangeReason.ingest _ _ (record {
            log = log;
            items =
                set-shown st.previews_loaded it.id it.id it it st.items r.items refl refl a.items;
            tabs = a.tabs;
            ord = ap (set it.id seq) a.ord;
          }),
        ))

  with_thumbnail-Synced :
      (item : Option Text → Item) (x : Result (Option Text) × State port)
      → Synced x.1
      → Synced (with_thumbnail item x).1
  with_thumbnail-Synced item (err c, st) h = h
  with_thumbnail-Synced item (ok thumbnail, st) h = entered-Synced (item thumbnail) st h

  with_refs-Synced :
      (jpeg : Option Bytes) (item : List RepRef → Option Text → Item)
      (x : Result (List RepRef) × State port)
      → Synced x.1
      → Synced (with_refs jpeg item x).1
  with_refs-Synced jpeg item (err c, st) h = h
  with_refs-Synced jpeg item (ok refs, st) (r, a) =
      with_thumbnail-Synced (item refs) (put_thumbnail jpeg st)
        (r, OnlyBlobs-Agrees r (put_thumbnail-OnlyBlobs jpeg st) a)

  add_copy-Synced :
      (now : ℕ) (rnd : Bytes) (c : Candidate) (st : State port)
      → Synced st
      → Synced (add_copy now rnd c st).1
  unfolding add_copy
  add_copy-Synced now rnd c st (r, a) =
      with_refs-Synced c.thumbnail_jpeg (item_of port now rnd c) (put_reps c.reps st)
        (r, OnlyBlobs-Agrees r (put_reps-OnlyBlobs c.reps st) a)

  bump_copy-Synced :
      (now : ℕ) (id : Text) (it : Item) (st : State port)
      → Synced st
      → get id st.items ≡ some it
      → Synced (bump_copy now id it st).1
  unfolding bump_copy
  bump_copy-Synced now id it st (r, a) e =
      append_cases contract (item_updated id (just_updated now)) tt st r a.log
        (bumped (bump_updated_at it now)) (λ x. Synced x.1) (λ c s log. (r, with_store a s log))
        (λ seq at s log. patched-Synced id it (just_updated now) st r seq at s a e log)

  -- What `find_existing` finds is in the map of items.
  pub find_existing-cases :
      (hash : Text) (st : State port)
      → (find_existing hash st ≡ none)
        ⊎ ((id : Text) × (it : Item) × (find_existing hash st ≡ some (id, it))
            × (get hash st.by_hash ≡ some id)
            × (get id st.items ≡ some it))
  find_existing-cases hash st = elim (Option-cases (get hash st.by_hash)) [
    | inl e ↦ inl (rw (e, find_existing))
    | inr (id, e) ↦ elim (Option-cases (get id st.items)) [
      | inl f ↦ inl (rw (e, find_existing) (rw f))
      | inr (it, f) ↦ inr (id, it, rw (e, find_existing) (rw f), e, f)
    ]
  ]

  pub ingest_body-Synced :
      (now : ℕ) (rnd : Bytes) (c : Candidate) (st : State port)
      → Synced st
      → Synced (ingest_body now rnd c st).1
  unfolding ingest_body
  ingest_body-Synced now rnd c st h = elim (Bool-cases (verdict_of port c).records) [
    | inr e ↦ rw e h
    | inl e ↦ elim (find_existing-cases c.content_hash st) [
      | inl f ↦ rw (e, f) (add_copy-Synced now rnd c st h)
      | inr (id, it, f, _, there) ↦ rw (e, f) (bump_copy-Synced now id it st h there)
    ]
  ]
