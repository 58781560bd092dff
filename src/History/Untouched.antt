-- ===== src/History/Untouched.antt =====
-- history.ts: `ingest` that answers an error has changed nothing in memory.
use copy_clipboard_app.Base.{
  ℕ, Text, ◌≡◌, refl, ap, ◌∙◌, inl, inr, Option, none, some, List, [], ◌∷◌, Bool-cases,
  Option-cases,
}
use copy_clipboard_app.Protocol.Result.{Result, ErrorCode, ok, err}
use copy_clipboard_app.Protocol.Types.{Item, StoreEvent, Candidate, Bytes, RepRef, ResolvedRep}
use copy_clipboard_app.History.Ports.{Port, StoreEventInput, item_updated, item_added}
use copy_clipboard_app.History.State.{State, append}
use copy_clipboard_app.History.Updates.{just_updated}
use copy_clipboard_app.History.Ingest.{
  put_blob, put_reps, put_thumbnail, cons_ref, after_put, as_some, item_of, entered, with_thumbnail,
  with_refs, add_copy, bump_updated_at, bumped, bump_copy, find_existing, ingest_body, verdict_of,
}

module _ {port : Port} where
  -- The two states differ in nothing but the state of the store.
  pub record IsUntouched (st after : State port) : Type 0 where
    pub store : port.Store
    pub same : after ≡ record st { store = store }

  abbrev pub ErrsUntouched : {A : Type 0} → State port → Result A × State port → Type 0
  ErrsUntouched st x = (c : ErrorCode) → x.0 ≡ err c → IsUntouched st x.1

  pub IsUntouched-store :
      (st : State port) (s : port.Store) → IsUntouched st (record st { store = s })
  IsUntouched-store st s = record { store = s; same = refl }

  pub IsUntouched-trans : {a b c : State port} → IsUntouched a b → IsUntouched b c → IsUntouched a c
  IsUntouched-trans f g = record {
    store = g.store;
    same = g.same ∙ ap (λ (st : State port). record st { store = g.store }) f.same;
  }

  -- Writing blobs only touches the store, whatever comes of it.
  put_blob-IsUntouched : (bytes : Bytes) (st : State port) → IsUntouched st (put_blob bytes st).1
  unfolding put_blob
  put_blob-IsUntouched bytes st = IsUntouched-store st (port.put_blob bytes st.store).1

  cons_ref-IsUntouched :
      (st : State port) (ref : RepRef) (x : Result (List RepRef) × State port)
      → IsUntouched st x.1
      → IsUntouched st (cons_ref ref x).1
  cons_ref-IsUntouched st ref (ok refs, w) h = h
  cons_ref-IsUntouched st ref (err c, w) h = h

  after_put-IsUntouched :
      (st : State port) (rep : ResolvedRep) (rest : State port → Result (List RepRef) × State port)
      (x : Result Text × State port)
      → ((w : State port) → IsUntouched w (rest w).1)
      → IsUntouched st x.1
      → IsUntouched st (after_put rep rest x).1
  after_put-IsUntouched st rep rest (err c, w) f h = h
  after_put-IsUntouched st rep rest (ok blob, w) f h =
      cons_ref-IsUntouched st _ (rest w) (IsUntouched-trans h (f w))

  put_reps-IsUntouched :
      (reps : List ResolvedRep) (st : State port) → IsUntouched st (put_reps reps st).1
  unfolding put_reps
  put_reps-IsUntouched [] st = IsUntouched-store st st.store
  put_reps-IsUntouched (rep ∷ reps) st =
      after_put-IsUntouched st rep (put_reps reps) (put_blob rep.bytes st)
        (put_reps-IsUntouched reps) (put_blob-IsUntouched rep.bytes st)

  as_some-IsUntouched :
      (st : State port) (x : Result Text × State port)
      → IsUntouched st x.1
      → IsUntouched st (as_some x).1
  as_some-IsUntouched st (ok blob, w) h = h
  as_some-IsUntouched st (err c, w) h = h

  put_thumbnail-IsUntouched :
      (jpeg : Option Bytes) (st : State port) → IsUntouched st (put_thumbnail jpeg st).1
  unfolding put_thumbnail
  put_thumbnail-IsUntouched none st = IsUntouched-store st st.store
  put_thumbnail-IsUntouched (some jpeg) st =
      as_some-IsUntouched st (put_blob jpeg st) (put_blob-IsUntouched jpeg st)

  -- The two ends of an ingest: its error is that of the append.
  entered-IsUntouched :
      (it : Item) (st : State port) → ErrsUntouched st (entered it (append (item_added it) st))
  unfolding append
  entered-IsUntouched it st = go (port.append_event (item_added it) st.store).0
    where
      go :
          (q : Result StoreEvent)
          → ErrsUntouched st
              (entered it (q, record st { store = (port.append_event (item_added it) st.store).1 }))
      go (err d) c h = IsUntouched-store st (port.append_event (item_added it) st.store).1
      go (ok e) c h = cc

  bump_copy-IsUntouched :
      (now : ℕ) (id : Text) (it : Item) (st : State port)
      → ErrsUntouched st (bump_copy now id it st)
  unfolding bump_copy append
  bump_copy-IsUntouched now id it st = go (port.append_event input st.store).0
    where
      input : StoreEventInput
      input = item_updated id (just_updated now)

      go :
          (q : Result StoreEvent)
          → ErrsUntouched st (
              bumped
                (bump_updated_at it now)
                (q, record st { store = (port.append_event input st.store).1 }))
      go (err d) c h = IsUntouched-store st (port.append_event input st.store).1
      go (ok e) c h = cc

  with_thumbnail-IsUntouched :
      (st : State port) (item : Option Text → Item) (x : Result (Option Text) × State port)
      → IsUntouched st x.1
      → ErrsUntouched st (with_thumbnail item x)
  with_thumbnail-IsUntouched st item (err d, w) u c h = u
  with_thumbnail-IsUntouched st item (ok thumbnail, w) u c h =
      IsUntouched-trans u (entered-IsUntouched (item thumbnail) w c h)

  with_refs-IsUntouched :
      (st : State port) (jpeg : Option Bytes) (item : List RepRef → Option Text → Item)
      (x : Result (List RepRef) × State port)
      → IsUntouched st x.1
      → ErrsUntouched st (with_refs jpeg item x)
  with_refs-IsUntouched st jpeg item (err d, w) u c h = u
  with_refs-IsUntouched st jpeg item (ok refs, w) u c h =
      with_thumbnail-IsUntouched st (item refs) (put_thumbnail jpeg w)
        (IsUntouched-trans u (put_thumbnail-IsUntouched jpeg w)) c h

  add_copy-IsUntouched :
      (now : ℕ) (rnd : Bytes) (cand : Candidate) (st : State port)
      → ErrsUntouched st (add_copy now rnd cand st)
  unfolding add_copy
  add_copy-IsUntouched now rnd cand st =
      with_refs-IsUntouched st cand.thumbnail_jpeg (item_of port now rnd cand)
        (put_reps cand.reps st) (put_reps-IsUntouched cand.reps st)

  pub ingest_body-IsUntouched :
      (now : ℕ) (rnd : Bytes) (cand : Candidate) (st : State port)
      → ErrsUntouched st (ingest_body now rnd cand st)
  unfolding ingest_body
  ingest_body-IsUntouched now rnd cand st = elim (Bool-cases (verdict_of port cand).records) [
    | inr e ↦ rw e (λ c h. cc)
    | inl e ↦ elim (Option-cases (find_existing cand.content_hash st)) [
      | inl f ↦ rw (e, f) (add_copy-IsUntouched now rnd cand st)
      | inr ((id, it), f) ↦ rw (e, f) (bump_copy-IsUntouched now id it st)
    ]
  ]
