-- ===== src/Store/Crashes.antt =====
-- packages/store/src/log-store.ts: what is in the log after an append that may have thrown, and after
-- the next opening.
use copy_clipboard_app.Base.{
  ℕ, ◌+◌, ◌≡◌, refl, sym, ap, ◌∙◌, subst, Text, Option, some, List, [], ◌∷◌, ◌++◌, length, inl, inr,
  ◌⊎◌, either, Option-cases, take,
}
use mathlib.Core.List.{append-nil}
use copy_clipboard_app.Protocol.Types.{Bytes, StoreEvent}
use copy_clipboard_app.Protocol.Result.{Result, ok, err, store_io, blob_missing}
use copy_clipboard_app.History.Ports.{StoreEventInput, IsRecordable, IsClean}
use copy_clipboard_app.Store.Platform.{Platform, IsPlatform}
use copy_clipboard_app.Store.Lines.{append_line, text_of}
use copy_clipboard_app.Store.Record.{seal_record}
use copy_clipboard_app.Store.Log.{Tick, Store, max_seq, append_event, read_all}
use copy_clipboard_app.Store.Events.{line_of}
use copy_clipboard_app.Store.Files.{take-line}
use copy_clipboard_app.Store.Written.{Entry, events_of-append, IsOpen, read_all-IsOpen}
use copy_clipboard_app.Store.Opening.{open_log}
use copy_clipboard_app.Store.Appended.{
  entry, next_event, with_line, torn_by, append_event_lem, append_event_fault, next_event-IsOpen,
  stamp-is_readable,
}
use copy_clipboard_app.Store.Reopened.{open_log-lines}

abbrev pub IsErr {ℓ} : {A : Type ℓ} → Result A → Type 0
IsErr (ok a) = ⊥
IsErr (err c) = Unit

module _ (p : Platform) (laws : IsPlatform p) (key : Bytes) where
  -- A store that was left as it is by whoever had it open can be opened, and holds the same log.
  pub reopened-IsOpen :
      (tick : Tick) (s : Store) (xs : List Entry)
      → IsOpen p key s xs
      → ((open_log p key tick s.log s.blobs).0 ≡ ok tt)
        × IsOpen p key (open_log p key tick s.log s.blobs).1 xs
  reopened-IsOpen tick s xs o =
      open_log-lines p laws key tick s.anchor_seq xs o.numbered o.headed o.anchored s.log [] s.blobs
        refl (o.written ∙ ap some (sym (append-nil _)))

  module _ (tick tick' : Tick) (input : StoreEventInput) (s : Store) (xs : List Entry)
      (o : IsOpen p key s xs) (hn : length tick.nonce ≡ 12) (hr : IsRecordable input)
      (hc : IsClean (read_all p key s)) where
    abbrev line : Text
    line = line_of p key tick.nonce s.line_count s.tip_hash (next_event p key tick input s)

    abbrev ys : List Entry
    ys = xs ++ entry tick (next_event p key tick input s) ∷ []

    -- What an append and the next opening leave: the log as it was after an append that failed, or
    -- the log with the event behind it.
    abbrev pub Outcome : Result StoreEvent × Store → Type 0
    Outcome (r, after) =
        let opened = open_log p key tick' after.log after.blobs in
        (opened.0 ≡ ok tt)
        × ((IsErr r × (read_all p key opened.1 ≡ read_all p key s))
            ⊎ (read_all p key opened.1
                ≡ read_all p key s ++ ok (next_event p key tick input s) ∷ []))

    as_before :
        (r : Result StoreEvent) (after : Store)
        → IsErr r
        → ((open_log p key tick' after.log after.blobs).0 ≡ ok tt)
          × IsOpen p key (open_log p key tick' after.log after.blobs).1 xs
        → Outcome (r, after)
    as_before r after failed h = (
      h.0,
      inl (failed, read_all-IsOpen p key laws _ xs h.1 ∙ sym (read_all-IsOpen p key laws s xs o)),
    )

    longer :
        (r : Result StoreEvent) (after : Store)
        → ((open_log p key tick' after.log after.blobs).0 ≡ ok tt)
          × IsOpen p key (open_log p key tick' after.log after.blobs).1 ys
        → Outcome (r, after)
    longer r after h = (
      h.0,
      inr (
          read_all-IsOpen p key laws _ ys h.1
          ∙ events_of-append xs (entry tick (next_event p key tick input s))
              (subst IsClean (read_all-IsOpen p key laws s xs o) hc)
              (stamp-is_readable (max_seq s + 1) tick.now input hr)
          ∙ ap (λ l. l ++ ok (next_event p key tick input s) ∷ [])
              (sym (read_all-IsOpen p key laws s xs o))),
    )

    abbrev OpensLonger : Option Text → Type 0
    OpensLonger file =
        ((open_log p key tick' file s.blobs).0 ≡ ok tt)
        × IsOpen p key (open_log p key tick' file s.blobs).1 ys

    -- The log with the whole line behind it.
    grown_opened : OpensLonger (with_line p key tick (next_event p key tick input s) s).log
    grown_opened =
        reopened-IsOpen tick' (with_line p key tick (next_event p key tick input s) s) ys
          (next_event-IsOpen p key tick input s xs o hn)

    torn : (n : ℕ) → Outcome (err store_io, torn_by p key tick input s n)
    unfolding append_line seal_record
    torn n =
        either {C = Outcome (err store_io, torn_by p key tick input s n)}
          (λ part. as_before (err store_io) (torn_by p key tick input s n) tt (
            open_log-lines p laws key tick' s.anchor_seq xs o.numbered o.headed o.anchored
              (torn_by p key tick input s n).log (take n (line ++ 10 ∷ [])) s.blobs part
              (ap (λ f. append_line (some n) line f) o.written)))
          (λ whole.
            longer (err store_io) (torn_by p key tick input s n)
              (subst (λ t. OpensLonger (some (text_of s.log ++ t))) (sym whole) grown_opened))
          (take-line n line (laws.one_line _))

    missed : Outcome (err blob_missing, s)
    missed = as_before (err blob_missing) s tt (reopened-IsOpen tick' s xs o)

    -- A store is open, its log can be read, and an event is appended, which names its tab if it has
    -- one, and which may throw with any
    -- part of the line in the file. Then the log is opened anew. The opening succeeds, and what is
    -- read is what was read before, with the event behind it; or, if the append answered an error,
    -- possibly what was read before alone.
    pub crash_lem : Outcome (append_event p key tick input s)
    crash_lem = elim (Option-cases tick.fault) [
      | inl hf ↦
          either (λ e. subst Outcome (sym e) missed)
            (λ e. subst Outcome (sym e) (
              longer (ok (next_event p key tick input s))
                (with_line p key tick (next_event p key tick input s) s) grown_opened))
            (append_event_lem p key tick input s hf)
      | inr (n, hf) ↦
          either (λ e. subst Outcome (sym e) missed) (λ e. subst Outcome (sym e) (torn n))
            (append_event_fault p key tick input s n hf)
    ]
