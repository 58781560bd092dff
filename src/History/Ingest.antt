-- ===== src/History/Ingest.antt =====
-- history.ts: `ingest`, which refuses, bumps or adds the copy that capture hands over.
use copy_clipboard_app.Base.{
  ℕ, ◌+◌, Text, codes, ◌==◌, Bool, true, false, Option, none, some, List, [], ◌∷◌, sum_by, ◌&&◌,
  if◌then◌else◌, get, set,
}
use copy_clipboard_app.Protocol.Result.{Result, ok, err}
use copy_clipboard_app.Protocol.Types.{
  Item, StoreEvent, ResolvedRep, RepRef, Candidate, Classification, Bytes, Flag, has_secret,
}
use copy_clipboard_app.Protocol.Constants.{secret_ttl_ms}
use copy_clipboard_app.Protocol.Ids.{item_id}
use copy_clipboard_app.History.Ports.{Port, item_added, item_updated, ChangeReason}
use copy_clipboard_app.History.Tags.{primary_rep, truncate_preview}
use copy_clipboard_app.History.State.{State, get_or, remember, reindex, emit, append}
use copy_clipboard_app.History.Load.{after_load}
use copy_clipboard_app.History.Updates.{just_updated}

pub data IngestOutcome : Type 0 where
  added duplicate : Item → IngestOutcome
  skipped : IngestOutcome

-- packages/privacy/src/retention-policy.ts
abbrev pub secret_expires_at : ℕ → List Flag → Option ℕ
secret_expires_at created_at flags =
    if has_secret flags then some (created_at + secret_ttl_ms) else none

-- packages/history/src/dedupe.ts: `bumpUpdatedAt(item, nowMs).item`
abbrev pub bump_updated_at : Item → ℕ → Item
bump_updated_at it now = record it { core = record it.core { updated_at = now } }

abbrev pub starts_with : Text → Text → Bool
starts_with [] s = true
starts_with (c ∷ cs) [] = false
starts_with (c ∷ cs) (d ∷ ds) = (c == d) && starts_with cs ds

-- The event number of a record.
abbrev pub seq_of : StoreEvent → ℕ
seq_of (StoreEvent.item_added seq at it) = seq
seq_of (StoreEvent.item_updated seq at id patch) = seq
seq_of (StoreEvent.item_deleted seq at id reason) = seq
seq_of (StoreEvent.tab_created seq at tag) = seq
seq_of (StoreEvent.tab_deleted seq at tag) = seq
seq_of (StoreEvent.checkpoint seq at max_seq live) = seq

-- The entry of the item that has this content, if there is one.
abbrev pub with_item : Text → Option Item → Option (Text × Item)
with_item id none = none
with_item id (some it) = some (id, it)

module _ (port : Port) where
  -- `primary?.mime.startsWith('text/') ? Buffer.from(primary.bytes).toString('utf8') : null`
  abbrev text_of : Option ResolvedRep → Option Text
  text_of none = none
  text_of (some rep) =
      if starts_with (codes "text/") rep.mime then some (port.decode_utf8 rep.bytes) else none

  unfoldable pub raw_text : Candidate → Option Text
  raw_text c = text_of (primary_rep c.reps)

  unfoldable pub verdict_of : Candidate → Classification
  unfolding raw_text
  verdict_of c = port.classify (record {
    reps = c.reps;
    primary_text = raw_text c;
    kind = c.kind;
    hints = c.hints;
    source_app = c.source_app;
    total_bytes = sum_by (λ (r : ResolvedRep). r.byte_length) c.reps;
  })

  -- The new item, over the blobs that were written.
  unfoldable pub item_of : ℕ → Bytes → Candidate → List RepRef → Option Text → Item
  unfolding item_id raw_text truncate_preview
  item_of now rnd c refs thumbnail =
      let (masked, spans) = port.mask (get_or (raw_text c) []) in
      let (preview, truncated) = truncate_preview masked in
      record {
        core = record {
          id = item_id now rnd;
          kind = c.kind;
          content_hash = c.content_hash;
          preview = preview;
          preview_truncated = truncated;
          mask_spans = spans;
          flags = (verdict_of c).flags;
          rep_refs = refs;
          thumbnail_blob_id = thumbnail;
          source_app = c.source_app;
          byte_length = sum_by (λ (r : RepRef). r.byte_length) refs;
          created_at = now;
          updated_at = now;
          pinned = false;
          expires_at = secret_expires_at now (verdict_of c).flags;
        };
        title = none;
        tags = [];
      }

module _ {port : Port} where
  unfoldable pub put_blob : Bytes → State port → Result Text × State port
  put_blob bytes st =
      let (r, store) = port.put_blob bytes st.store in (r, record st { store = store })

  abbrev pub find_existing : Text → State port → Option (Text × Item)
  find_existing hash st = elim (get hash st.by_hash) [
    | none ↦ none
    | some id ↦ with_item id (get id st.items)
  ]

  abbrev pub cons_ref :
      RepRef → Result (List RepRef) × State port → Result (List RepRef) × State port
  cons_ref ref (ok refs, st) = (ok (ref ∷ refs), st)
  cons_ref ref (err c, st) = (err c, st)

  abbrev pub after_put :
      ResolvedRep
      → (State port → Result (List RepRef) × State port)
      → Result Text × State port
      → Result (List RepRef) × State port
  after_put rep rest (err c, st) = (err c, st)
  after_put rep rest (ok blob, st) =
      cons_ref
        (record {
          mime = rep.mime;
          uti = rep.uti;
          byte_length = rep.byte_length;
          sha256 = rep.sha256;
          blob_id = blob;
        })
        (rest st)

  -- The blobs of the representations, before the record that refers to them.
  unfoldable pub put_reps : List ResolvedRep → State port → Result (List RepRef) × State port
  unfolding put_blob
  put_reps [] st = (ok [], st)
  put_reps (rep ∷ reps) st = after_put rep (put_reps reps) (put_blob rep.bytes st)

  abbrev pub as_some : Result Text × State port → Result (Option Text) × State port
  as_some (ok blob, st) = (ok (some blob), st)
  as_some (err c, st) = (err c, st)

  unfoldable pub put_thumbnail : Option Bytes → State port → Result (Option Text) × State port
  unfolding put_blob
  put_thumbnail none st = (ok none, st)
  put_thumbnail (some jpeg) st = as_some (put_blob jpeg st)

  -- What follows the record of a new item: its number is the store's.
  unfoldable pub enter : Item → ℕ → State port → State port
  unfolding remember reindex
  enter it seq st =
      let kept = remember it st in
      reindex it (record kept {
        ord = set it.id seq kept.ord;
        by_hash = set it.content_hash it.id kept.by_hash;
      })

  abbrev pub entered : Item → Result StoreEvent × State port → Result IngestOutcome × State port
  entered it (err c, st) = (err c, st)
  entered it (ok e, st) = (ok (added it), emit ChangeReason.ingest (enter it (seq_of e) st))

  abbrev pub with_thumbnail :
      (Option Text → Item) → Result (Option Text) × State port → Result IngestOutcome × State port
  with_thumbnail item (err c, st) = (err c, st)
  with_thumbnail item (ok thumbnail, st) =
      entered (item thumbnail) (append (item_added (item thumbnail)) st)

  abbrev pub with_refs :
      Option Bytes
      → (List RepRef → Option Text → Item)
      → Result (List RepRef) × State port
      → Result IngestOutcome × State port
  with_refs jpeg item (err c, st) = (err c, st)
  with_refs jpeg item (ok refs, st) = with_thumbnail (item refs) (put_thumbnail jpeg st)

  unfoldable pub add_copy : ℕ → Bytes → Candidate → State port → Result IngestOutcome × State port
  unfolding append emit enter put_reps put_thumbnail item_of
  add_copy now rnd c st = with_refs c.thumbnail_jpeg (item_of port now rnd c) (put_reps c.reps st)

  abbrev pub bumped : Item → Result StoreEvent × State port → Result IngestOutcome × State port
  bumped it (err c, st) = (err c, st)
  bumped it (ok e, st) = (ok (duplicate it), emit ChangeReason.update (reindex it (remember it st)))

  unfoldable pub bump_copy : ℕ → Text → Item → State port → Result IngestOutcome × State port
  unfolding append emit remember reindex
  bump_copy now id existing st =
      bumped (bump_updated_at existing now) (append (item_updated id (just_updated now)) st)

  unfoldable pub ingest_body :
      ℕ → Bytes → Candidate → State port → Result IngestOutcome × State port
  unfolding add_copy bump_copy verdict_of
  ingest_body now rnd c st =
      if (verdict_of port c).records
      then elim (find_existing c.content_hash st) [
        | none ↦ add_copy now rnd c st
        | some (id, existing) ↦ bump_copy now id existing st
      ]
      else (ok skipped, st)

  unfoldable pub ingest : ℕ → Bytes → Candidate → State port → Result IngestOutcome × State port
  unfolding ingest_body
  ingest now rnd c = after_load (ingest_body now rnd c)
