-- ===== src/Store/Ports.antt =====
-- packages/store/src: the store as the history has it, and that it is the log that the history relies
-- on. The platform's ticks are a stream, of which each operation takes one; no append throws.
use copy_clipboard_app.Base.{
  ℕ, suc, ◌+◌, ◌≡◌, refl, sym, ◌∙◌, subst, Text, none, List, [], ◌∷◌, ◌++◌, length, inl, inr, ◌⊎◌,
  Dict, Bool,
}
use copy_clipboard_app.Protocol.Types.{Bytes, StoreEvent, Snapshot, Classification, MaskSpan}
use copy_clipboard_app.Protocol.Result.{Result, ok, err, ErrorCode, blob_missing}
use copy_clipboard_app.History.Ports.{
  Port, IsLog, StoreEventInput, IsRecordable, IsClean, stamp, SearchEntry, SearchHit,
}
use copy_clipboard_app.Store.Platform.{Platform, IsPlatform}
use copy_clipboard_app.Store.Log.{Tick, Store, max_seq, append_event, read_all}
use copy_clipboard_app.Store.Blobs.{BlobWrite, BlobRemoval, put, get_blob, remove_blob}
use copy_clipboard_app.Store.Written.{Entry, IsOpen, events_of-append, read_all-IsOpen}
use copy_clipboard_app.Store.Appended.{
  entry, next_event, with_line, append_event_lem, next_event-IsOpen, stamp-is_readable,
}

-- The times and nonces that the platform gives, one after the other.
pub record Ticks : Type 0 where
  pub now : ℕ → ℕ
  pub nonce : ℕ → Bytes
  pub nonce_length : (n : ℕ) → length (nonce n) ≡ 12

-- What else the history is given: the search index, the privacy layer and the text functions.
pub record Others : Type 1 where
  pub Index : Type 0
  pub index_add : SearchEntry → Index → Index
  pub index_remove : Text → Index → Index
  pub index_clear : Index → Index
  pub index_size : Index → ℕ
  pub index_query : Text → ℕ → Index → List SearchHit
  pub classify : Snapshot → Classification
  pub mask : Text → Text × List MaskSpan
  pub decode_utf8 : Bytes → Text
  pub to_lower_case : Text → Text

module _ (p : Platform) (key : Bytes) (laws : IsPlatform p) (ticks : Ticks) (others : Others) where
  -- An open store, with the number of ticks that it has taken.
  pub record OpenStore : Type 0 where
    pub store : Store
    pub entries : List Entry
    pub is_open : IsOpen p key store entries
    pub taken : ℕ

  abbrev pub tick_of : OpenStore → Tick
  tick_of s = record { now = ticks.now s.taken; nonce = ticks.nonce s.taken; fault = none }

  abbrev pub without_proof : Result StoreEvent × OpenStore → Result StoreEvent × Store
  without_proof (r, s) = (r, s.store)

  -- `appendEvent`, with the entries that the log then has. The two cases are those of the code: a blob
  -- that is referred to is missing, or the event is written.
  abbrev pub appended_open :
      (input : StoreEventInput) (s : OpenStore)
      → (append_event p key (tick_of s) input s.store ≡ (err blob_missing, s.store))
        ⊎ (append_event p key (tick_of s) input s.store ≡ (
          ok (next_event p key (tick_of s) input s.store),
          with_line p key (tick_of s) (next_event p key (tick_of s) input s.store) s.store,
        ))
      → Result StoreEvent × OpenStore
  appended_open input s (inl missing) = (err blob_missing, record s { taken = suc s.taken })
  appended_open input s (inr done) =
      let tick = tick_of s in
      let e = next_event p key tick input s.store in
      (
        ok e,
        record {
          store = with_line p key tick e s.store;
          entries = s.entries ++ entry tick e ∷ [];
          is_open =
              next_event-IsOpen p key tick input s.store s.entries s.is_open
                (ticks.nonce_length s.taken);
          taken = suc s.taken;
        },
      )

  unfoldable pub append_open : StoreEventInput → OpenStore → Result StoreEvent × OpenStore
  append_open input s =
      appended_open input s (append_event_lem p key (tick_of s) input s.store refl)

  -- It is `appendEvent`.
  pub append_open_lem :
      (input : StoreEventInput) (s : OpenStore)
      → without_proof (append_open input s) ≡ append_event p key (tick_of s) input s.store
  unfolding append_open
  append_open_lem input s = go (append_event_lem p key (tick_of s) input s.store refl)
    where
      go :
          (c : (append_event p key (tick_of s) input s.store ≡ (err blob_missing, s.store))
            ⊎ (append_event p key (tick_of s) input s.store ≡ (
              ok (next_event p key (tick_of s) input s.store),
              with_line p key (tick_of s) (next_event p key (tick_of s) input s.store) s.store,
            )))
          → without_proof (appended_open input s c) ≡ append_event p key (tick_of s) input s.store
      go (inl e) = sym e
      go (inr e) = sym e

  abbrev with_blobs : OpenStore → Dict Bytes → OpenStore
  with_blobs s blobs = record s {
    store = record s.store { blobs = blobs };
    is_open = record {
      written = s.is_open.written;
      numbered = s.is_open.numbered;
      counted = s.is_open.counted;
      linked = s.is_open.linked;
      anchored = s.is_open.anchored;
      headed = s.is_open.headed;
    };
    taken = suc s.taken;
  }

  unfoldable pub put_open : Bytes → OpenStore → Result Text × OpenStore
  unfolding put
  put_open bytes s =
      let (r, blobs) = put p key BlobWrite.done (ticks.nonce s.taken) bytes s.store.blobs in
      (r, with_blobs s blobs)

  unfoldable pub delete_open : Text → OpenStore → Result Bool × OpenStore
  unfolding remove_blob
  delete_open id s =
      let (r, blobs) = remove_blob p key BlobRemoval.done id s.store.blobs in
      (r, with_blobs s blobs)

  abbrev pub store_port : Port
  store_port = record {
    Store = OpenStore;
    append_event = append_open;
    read_all = λ s. read_all p key s.store;
    put_blob = put_open;
    get_blob = λ id s. get_blob p key id s.store.blobs;
    delete_blob = delete_open;
    Index = others.Index;
    index_add = others.index_add;
    index_remove = others.index_remove;
    index_clear = others.index_clear;
    index_size = others.index_size;
    index_query = others.index_query;
    classify = others.classify;
    mask = others.mask;
    content_hash = p.content_hash;
    decode_utf8 = others.decode_utf8;
    to_lower_case = others.to_lower_case;
  }

  abbrev Case : StoreEventInput → OpenStore → Type 0
  Case input s =
      (append_event p key (tick_of s) input s.store ≡ (err blob_missing, s.store))
      ⊎ (append_event p key (tick_of s) input s.store ≡ (
        ok (next_event p key (tick_of s) input s.store),
        with_line p key (tick_of s) (next_event p key (tick_of s) input s.store) s.store,
      ))

  appended_open-ok :
      (input : StoreEventInput) (s : OpenStore) (e : StoreEvent) (c : Case input s)
      → IsRecordable input
      → IsClean (read_all p key s.store)
      → (appended_open input s c).0 ≡ ok e
      → (seq : ℕ) × (at : ℕ) × (e ≡ stamp seq at input)
        × (read_all p key (appended_open input s c).1.store ≡ read_all p key s.store ++ ok e ∷ [])
  appended_open-ok input s e (inl missing) hr hc h = cc
  appended_open-ok input s e (inr done) hr hc h =
      let tick : Tick = tick_of s in
      let next : StoreEvent = next_event p key tick input s.store in
      let same : next ≡ e = cc in
      let before = read_all-IsOpen p key laws s.store s.entries s.is_open in
      (
        max_seq s.store + 1,
        ticks.now s.taken,
        sym same,
        read_all-IsOpen p key laws (with_line p key tick next s.store)
              (s.entries ++ entry tick next ∷ [])
              (next_event-IsOpen p key tick input s.store s.entries s.is_open
                (ticks.nonce_length s.taken))
            ∙ events_of-append s.entries (entry tick next) (subst IsClean before hc)
                (stamp-is_readable (max_seq s.store + 1) tick.now input hr)
            ∙ λ i. sym before i ++ ok (same i) ∷ [],
      )

  appended_open-err :
      (input : StoreEventInput) (s : OpenStore) (code : ErrorCode) (c : Case input s)
      → (appended_open input s c).0 ≡ err code
      → read_all p key (appended_open input s c).1.store ≡ read_all p key s.store
  appended_open-err input s code (inl missing) h = refl
  appended_open-err input s code (inr done) h = cc

  -- The store is the log that the history relies on, as long as no write throws: an append of an event
  -- that names its tab, if it has one, adds the event at the end of what is read, if the log could be
  -- read; an append that answers an error, a put and a deletion of a blob change nothing of what is
  -- read. This is so for every state of a store that has been opened.
  pub store_port-IsLog : IsLog store_port
  unfolding read_all append_open put_open delete_open
  store_port-IsLog = record {
    appended = λ input s e hr hc h.
        appended_open-ok input s e (append_event_lem p key (tick_of s) input s.store refl) hr hc h;
    refused = λ input s c h.
        appended_open-err input s c (append_event_lem p key (tick_of s) input s.store refl) h;
    put_blob_apart = λ bytes s. refl;
    delete_blob_apart = λ id s. refl;
  }
