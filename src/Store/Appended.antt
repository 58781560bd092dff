-- ===== src/Store/Appended.antt =====
-- packages/store/src/log-store.ts: an append that does not throw adds its event to the log, and an
-- append that throws can be told at the next opening.
use copy_clipboard_app.Base.{
  ℕ, ◌+◌, ◌≡◌, refl, sym, ap, ◌∙◌, true, none, some, List, [], ◌∷◌, ◌++◌, length, length-append,
  arith, inl, inr, ◌⊎◌, either, Bool-cases,
}
use copy_clipboard_app.Protocol.Types.{Bytes, StoreEvent}
use copy_clipboard_app.Protocol.Result.{ok, err, store_io, blob_missing}
use copy_clipboard_app.History.Ports.{StoreEventInput, stamp, IsRecordable}
use copy_clipboard_app.Store.Platform.{Platform}
use copy_clipboard_app.Store.Lines.{append_line}
use copy_clipboard_app.Store.Chain.{chain_genesis, chain_next}
use copy_clipboard_app.Store.Record.{seal_record}
use copy_clipboard_app.Store.Payload.{payload_with}
use copy_clipboard_app.Store.Log.{
  Tick, Store, max_seq, aad_seq, kind_of_input, extra_of_input, next_line, seal_and_append,
  append_event, stamped, has_all, referenced,
}
use copy_clipboard_app.Store.Events.{seq_of, time_of, kind_of, extra_of, is_readable, line_of}
use copy_clipboard_app.Store.Files.{text_of_lines, text_of_lines-append}
use copy_clipboard_app.Store.Written.{
  Entry, IsNumbered-append, IsHeaded-append, IsOpen, lines_from, lines_from-append, tip_after,
  tip_after-append,
}

-- The entry that an append adds.
abbrev pub entry : Tick → StoreEvent → Entry
entry tick e = record { nonce = tick.nonce; event = e }

module _ (p : Platform) (key : Bytes) where
  -- The store after the line is written.
  abbrev pub with_line : Tick → StoreEvent → Store → Store
  with_line tick e s =
      let line = line_of p key tick.nonce s.line_count s.tip_hash e in
      record s {
        log = append_line none line s.log;
        tip_hash = chain_next p s.tip_hash line;
        line_count = s.line_count + 1;
      }

  pub seal_and_append-event :
      (tick : Tick) (e : StoreEvent) (s : Store)
      → tick.fault ≡ none
      → seq_of e ≡ max_seq s + 1
      → time_of e ≡ tick.now
      → seal_and_append p key tick (kind_of e) (extra_of e) s
        ≡ (ok (seq_of e, time_of e), with_line tick e s)
  unfolding seal_and_append next_line
  seal_and_append-event tick e s hf hs ht = rw (hf, ← hs, ← ht) refl

  grown-IsOpen :
      (tick : Tick) (e : StoreEvent) (s : Store) (xs : List Entry)
      → IsOpen p key s xs
      → length tick.nonce ≡ 12
      → seq_of e ≡ max_seq s + 1
      → IsOpen p key (with_line tick e s) (xs ++ entry tick e ∷ [])
  unfolding append_line
  grown-IsOpen tick e s xs o hn hs =
      let place : s.line_count ≡ 0 + length xs = omega (arith, o.counted) in
      let same : line_of p key tick.nonce s.line_count s.tip_hash e
          ≡ line_of p key tick.nonce (0 + length xs) (tip_after p key 0 (chain_genesis p) xs) e =
        λ i. line_of p key tick.nonce (place i) (o.linked i) e in
      record {
        written = rw o.written (
            ap some (
              sym (
                ap text_of_lines (lines_from-append p key 0 (chain_genesis p) xs (entry tick e))
                ∙ text_of_lines-append (lines_from p key 0 (chain_genesis p) xs) _
                ∙ ap
                    (λ l. text_of_lines (lines_from p key 0 (chain_genesis p) xs) ++ (l ++ 10 ∷ []))
                    (sym same))));
        numbered =
            IsNumbered-append s.anchor_seq 0 xs (entry tick e) o.numbered hn
              (omega (arith, hs, o.counted, o.anchored));
        counted = omega (arith, o.counted, length-append xs (entry tick e ∷ []));
        linked =
            (λ i. chain_next p (o.linked i) (same i))
            ∙ sym (tip_after-append p key 0 (chain_genesis p) xs (entry tick e));
        anchored = o.anchored;
        headed = IsHeaded-append xs (entry tick e) o.headed;
      }

pub stamp-is_readable :
    (seq at : ℕ) (input : StoreEventInput)
    → IsRecordable input
    → is_readable (stamp seq at input) ≡ true
stamp-is_readable seq at (StoreEventInput.item_added it) h = refl
stamp-is_readable seq at (StoreEventInput.item_updated id patch) h = refl
stamp-is_readable seq at (StoreEventInput.item_deleted id reason) h = refl
stamp-is_readable seq at (StoreEventInput.tab_created tag) h = ground arith
stamp-is_readable seq at (StoreEventInput.tab_deleted tag) h = ground arith

-- The event of an input has its number, its time, its kind and its fields.
pub record IsEventOf (seq at : ℕ) (input : StoreEventInput) : Type 0 where
  pub seq_same : seq_of (stamp seq at input) ≡ seq
  pub at_same : time_of (stamp seq at input) ≡ at
  pub kind_same : kind_of (stamp seq at input) ≡ kind_of_input input
  pub extra_same : extra_of (stamp seq at input) ≡ extra_of_input input

pub stamp-IsEventOf : (seq at : ℕ) (input : StoreEventInput) → IsEventOf seq at input
stamp-IsEventOf seq at (StoreEventInput.item_added it) = record {
  seq_same = refl;
  at_same = refl;
  kind_same = refl;
  extra_same = refl;
}
stamp-IsEventOf seq at (StoreEventInput.item_updated id patch) = record {
  seq_same = refl;
  at_same = refl;
  kind_same = refl;
  extra_same = refl;
}
stamp-IsEventOf seq at (StoreEventInput.item_deleted id reason) = record {
  seq_same = refl;
  at_same = refl;
  kind_same = refl;
  extra_same = refl;
}
stamp-IsEventOf seq at (StoreEventInput.tab_created tag) = record {
  seq_same = refl;
  at_same = refl;
  kind_same = refl;
  extra_same = refl;
}
stamp-IsEventOf seq at (StoreEventInput.tab_deleted tag) = record {
  seq_same = refl;
  at_same = refl;
  kind_same = refl;
  extra_same = refl;
}

module _ (p : Platform) (key : Bytes) (tick : Tick) (input : StoreEventInput) (s : Store) where
  -- The event of the next append.
  abbrev pub next_event : StoreEvent
  next_event = stamp (max_seq s + 1) tick.now input

  seal_and_append-next :
      tick.fault ≡ none
      → seal_and_append p key tick (kind_of_input input) (extra_of_input input) s
        ≡ (ok (max_seq s + 1, tick.now), with_line p key tick next_event s)
  seal_and_append-next hf =
      let is = stamp-IsEventOf (max_seq s + 1) tick.now input in
      (λ i. seal_and_append p key tick (sym is.kind_same i) (sym is.extra_same i) s)
      ∙ seal_and_append-event p key tick next_event s hf is.seq_same is.at_same
      ∙ λ i. (ok (is.seq_same i, is.at_same i), with_line p key tick next_event s)

  -- An append either finds a blob missing, or seals its event.
  append_event_cases :
      (append_event p key tick input s ≡ (err blob_missing, s))
      ⊎ (append_event p key tick input s
          ≡ stamped p key input
              (seal_and_append p key tick (kind_of_input input) (extra_of_input input) s))
  unfolding append_event
  append_event_cases = elim (Bool-cases (has_all p key s (referenced input))) [
    | inl e ↦ inr (rw e refl)
    | inr e ↦ inl (rw e refl)
  ]

  -- An append that is not refused, and does not throw.
  pub append_event_lem :
      tick.fault ≡ none
      → (append_event p key tick input s ≡ (err blob_missing, s))
        ⊎ (append_event p key tick input s ≡ (ok next_event, with_line p key tick next_event s))
  append_event_lem hf =
      either inl (λ e. inr (e ∙ ap (stamped p key input) (seal_and_append-next hf)))
        append_event_cases

  next_line-event :
      next_line p key tick (kind_of_input input) (extra_of_input input) s
      ≡ line_of p key tick.nonce s.line_count s.tip_hash next_event
  unfolding next_line
  next_line-event =
      let is = stamp-IsEventOf (max_seq s + 1) tick.now input in
      λ i.
        seal_record p key tick.nonce s.line_count (aad_seq s.line_count (sym is.seq_same i))
          (sym is.kind_same i)
          (p.stringify (
            payload_with (sym is.seq_same i) (sym is.at_same i) (sym is.kind_same i) s.tip_hash
              (sym is.extra_same i)))

  -- The store when the next append has thrown with `n` characters in the file.
  abbrev pub torn_by : ℕ → Store
  torn_by n = record s {
    log = append_line (some n) (line_of p key tick.nonce s.line_count s.tip_hash next_event) s.log;
  }

  seal_and_append_fault :
      (n : ℕ)
      → tick.fault ≡ some n
      → seal_and_append p key tick (kind_of_input input) (extra_of_input input) s ≡ (
        err store_io,
        record s {
          log =
              append_line
                (some n)
                (next_line p key tick (kind_of_input input) (extra_of_input input) s)
                s.log;
        },
      )
  unfolding seal_and_append
  seal_and_append_fault n hf = rw hf refl

  -- An append that throws.
  pub append_event_fault :
      (n : ℕ)
      → tick.fault ≡ some n
      → (append_event p key tick input s ≡ (err blob_missing, s))
        ⊎ (append_event p key tick input s ≡ (err store_io, torn_by n))
  append_event_fault n hf =
      either inl
        (λ e. inr (
          e
          ∙ ap (stamped p key input) (seal_and_append_fault n hf)
          ∙ ap (λ l. (err store_io, record s { log = append_line (some n) l s.log }))
              next_line-event))
        append_event_cases

  pub next_event-IsOpen :
      (xs : List Entry)
      → IsOpen p key s xs
      → length tick.nonce ≡ 12
      → IsOpen p key (with_line p key tick next_event s) (xs ++ entry tick next_event ∷ [])
  next_event-IsOpen xs o hn =
      grown-IsOpen p key tick next_event s xs o hn
        (stamp-IsEventOf (max_seq s + 1) tick.now input).seq_same
