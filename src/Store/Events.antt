-- ===== src/Store/Events.antt =====
-- packages/store/src/log-store.ts: the line of an event is read back as the event.
use copy_clipboard_app.Base.{
  ℕ, ◌+◌, ◌==◌, Text, text_eq, text_eq_refl, Bool, true, some, ◌≡◌, refl, inl, inr, length, ltb,
  if◌then◌else◌, arith, Bool-cases,
}
use copy_clipboard_app.Protocol.Types.{
  Bytes, StoreEvent, item_added, item_updated, item_deleted, tab_created, tab_deleted, checkpoint,
}
use copy_clipboard_app.Protocol.Result.{ok, err, store_corrupt}
use copy_clipboard_app.Store.Platform.{Platform, IsPlatform, is_hash}
use copy_clipboard_app.Store.Chain.{chain_next, check_link}
use copy_clipboard_app.Store.Record.{StoreEventKind, kind_text, seal_record}
use copy_clipboard_app.Store.Payload.{Extra, no_extra, payload_with, decode_payload, to_store_event}
use copy_clipboard_app.Store.Log.{aad_seq, read_line}
use copy_clipboard_app.Store.Kinds.{open_any-sealed}

abbrev pub seq_of : StoreEvent → ℕ
seq_of (item_added seq at item) = seq
seq_of (item_updated seq at id patch) = seq
seq_of (item_deleted seq at id reason) = seq
seq_of (tab_created seq at tag) = seq
seq_of (tab_deleted seq at tag) = seq
seq_of (checkpoint seq at max_seq live) = seq

abbrev pub time_of : StoreEvent → ℕ
time_of (item_added seq at item) = at
time_of (item_updated seq at id patch) = at
time_of (item_deleted seq at id reason) = at
time_of (tab_created seq at tag) = at
time_of (tab_deleted seq at tag) = at
time_of (checkpoint seq at max_seq live) = at

abbrev pub kind_of : StoreEvent → StoreEventKind
kind_of (item_added seq at item) = StoreEventKind.item_added
kind_of (item_updated seq at id patch) = StoreEventKind.item_updated
kind_of (item_deleted seq at id reason) = StoreEventKind.item_deleted
kind_of (tab_created seq at tag) = StoreEventKind.tab_created
kind_of (tab_deleted seq at tag) = StoreEventKind.tab_deleted
kind_of (checkpoint seq at max_seq live) = StoreEventKind.checkpoint

abbrev pub extra_of : StoreEvent → Extra
extra_of (item_added seq at item) = record no_extra { item = some item }
extra_of (item_updated seq at id patch) = record no_extra { id = some id; patch = some patch }
extra_of (item_deleted seq at id reason) = record no_extra { id = some id; reason = some reason }
extra_of (tab_created seq at tag) = record no_extra { tag = some tag }
extra_of (tab_deleted seq at tag) = record no_extra { tag = some tag }
extra_of (checkpoint seq at max_seq live) = record no_extra {
  max_seq = some max_seq;
  live_item_count = some live;
  watermarks = true;
}

-- A reader refuses the record of a tab without a name.
abbrev pub is_readable : StoreEvent → Bool
is_readable (tab_created seq at tag) = ltb 0 (length tag)
is_readable (tab_deleted seq at tag) = ltb 0 (length tag)
is_readable _ = true

pub to_store_event-payload :
    (e : StoreEvent) (prev : Text)
    → to_store_event (payload_with (seq_of e) (time_of e) (kind_of e) prev (extra_of e))
      ≡ (if is_readable e then ok e else err store_corrupt)
unfolding to_store_event text_eq
to_store_event-payload (item_added seq at item) prev = refl
to_store_event-payload (item_updated seq at id patch) prev = refl
to_store_event-payload (item_deleted seq at id reason) prev = refl
to_store_event-payload (tab_created seq at tag) prev = refl
to_store_event-payload (tab_deleted seq at tag) prev = refl
to_store_event-payload (checkpoint seq at max_seq live) prev = refl

module _ (p : Platform) (key : Bytes) where
  -- The line in which an event stands at a place of the log, behind a tip.
  abbrev pub line_of : Bytes → ℕ → Text → StoreEvent → Text
  line_of nonce i tip e =
      seal_record p key nonce i (aad_seq i (seq_of e)) (kind_of e)
        (p.stringify (payload_with (seq_of e) (time_of e) (kind_of e) tip (extra_of e)))

module _ (p : Platform) (laws : IsPlatform p) (key : Bytes) where
  pub decode_payload-stringify :
      (seq at : ℕ) (k : StoreEventKind) (prev : Text) (extra : Extra)
      → is_hash prev ≡ true
      → decode_payload p (p.stringify (payload_with seq at k prev extra))
        ≡ ok (payload_with seq at k prev extra)
  unfolding decode_payload
  decode_payload-stringify seq at k prev extra h =
      rw (laws.parsed (payload_with seq at k prev extra)) (rw h refl)

  pub read_line-line_of :
      (anchor i : ℕ) (tip : Text) (nonce : Bytes) (e : StoreEvent)
      → length nonce ≡ 12
      → is_hash tip ≡ true
      → seq_of e ≡ anchor + i
      → read_line p key anchor i tip (line_of p key nonce i tip e) ≡ (
          if is_readable e
          then ok (e, chain_next p tip (line_of p key nonce i tip e))
          else err store_corrupt)
  unfolding read_line check_link
  read_line-line_of anchor i tip nonce e hn ht hs =
      let numbered : (seq_of e == seq_of e) ≡ true = ground arith in
      rw (← hs) (
        rw
          (
            open_any-sealed p laws key nonce i (aad_seq i (seq_of e)) (kind_of e)
                (p.stringify (payload_with (seq_of e) (time_of e) (kind_of e) tip (extra_of e))) hn,
            decode_payload-stringify (seq_of e) (time_of e) (kind_of e) tip (extra_of e) ht,
          )
          (rw
            (
              text_eq_refl (kind_text (kind_of e)),
              numbered,
              text_eq_refl tip,
              to_store_event-payload e tip,
            )
            (elim (Bool-cases (is_readable e)) [ inl y ↦ rw y refl | inr n ↦ rw n refl ])))
