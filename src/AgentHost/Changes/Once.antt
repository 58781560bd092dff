-- ===== src/AgentHost/Changes/Once.antt =====
-- packages/agent-host/src/reassembler.ts: every change of the clipboard is emitted once.
use copy_clipboard_app.Base.{
  ℕ, suc, ◌+◌, ◌≡◌, refl, ap, ◌∙◌, Text, text_eq_refl, false, inl, inr, List, [], ◌∷◌, length, ltb,
  arith, Bool-cases, Dict, get, values,
}
use copy_clipboard_app.Protocol.Result.{ErrorCode}
use copy_clipboard_app.AgentHost.Reassembler.{
  RepChunkIn, RepStream, Told, completed, aborted, Reassembler, Codec, is_open, declare, chunk,
  expire,
}
use copy_clipboard_app.AgentHost.Reassembler
use copy_clipboard_app.AgentHost.Changes.{
  Place, Assembler, new_assembler, reassemble, is_owned, handle_chunk, time_out, abort_all, Event,
  changed, chunk_came, timed_out, aborted_all, handle, handle_each,
}
use copy_clipboard_app.AgentHost.Changes.Counts.{one, occurs, times_emitted, owned, left}
use copy_clipboard_app.AgentHost.Changes.Settled.{
  IsKept, nothing_owed, reassemble-IsKept, handle_changed-IsKept,
}
use copy_clipboard_app.AgentHost.Changes.Streams.{
  IsHeld, chunk-IsHeld, expire-IsHeld, abort_each-IsHeld, abort_all-closes,
}
use copy_clipboard_app.AgentHost.Changes.Owners.{
  IsCovered, call_back_each-keeps, reassemble-IsCovered, covered-IsHeld, handle_changed-IsCovered,
  reassemble-length, handle_changed-length,
}

none_owned : (p : ℕ) (m : Dict Place) → ((id : Text) → is_owned (get id m) ≡ false) → owned p m ≡ 0
unfolding get
none_owned p [] h = refl
none_owned p ((j, v) ∷ m) h = absurd (ground (arith, h j, text_eq_refl j))

-- The changes that have come are counted, and the streams that they wait for are open.
record IsWhole (a : Assembler) : Type 0 where
  kept : IsKept nothing_owed a
  covered : IsCovered a

reassemble-IsWhole :
    (f : Reassembler → Reassembler) (a : Assembler)
    → IsWhole a
    → IsHeld (λ id. is_owned (get id a.owner)) (f a.reassembler)
    → IsWhole (reassemble f a)
reassemble-IsWhole f a h held = record {
  kept = reassemble-IsKept nothing_owed f a h.kept;
  covered = reassemble-IsCovered f a held;
}

aborted-IsHeld :
    (code : ErrorCode) (a : Assembler)
    → IsWhole a
    → IsHeld (λ id. is_owned (get id a.owner)) (Reassembler.abort_all code a.reassembler)
unfolding Reassembler.abort_all
aborted-IsHeld code a h =
    abort_each-IsHeld _ (values a.reassembler.streams) code a.reassembler
      (covered-IsHeld a h.covered)

-- The callbacks of an abort leave no stream with an owner.
abort-unowned :
    (code : ErrorCode) (a : Assembler) (id : Text)
    → IsWhole a
    → is_owned (get id (reassemble (Reassembler.abort_all code) a).owner) ≡ false
unfolding reassemble
abort-unowned code a id h =
    let f = Reassembler.abort_all code in
    let b = reassemble f a in
    let c = reassemble-IsCovered f a (aborted-IsHeld code a h) in
    elim (Bool-cases (is_owned (get id b.owner))) [
      | inl o ↦
          let kept = (call_back_each-keeps (f a.reassembler).told _).0 in
          let shut : is_open (get id b.reassembler.streams) ≡ false =
            ap (λ x. is_open (get id x.streams)) kept
            ∙ abort_all-closes id code a.reassembler h.covered.keyed in
          absurd (ground (arith, c.covered id o, shut))
      | inr o ↦ o
    ]

-- So no change has anything to come, before the code forgets the pending ones.
abort-left :
    (code : ErrorCode) (a : Assembler) (p : ℕ)
    → IsWhole a
    → left p (reassemble (Reassembler.abort_all code) a).changes ≡ 0
abort-left code a p h =
    let f = Reassembler.abort_all code in
    let k = reassemble-IsKept nothing_owed f a h.kept in
    let none_left = none_owned p (reassemble f a).owner (λ id. abort-unowned code a id h) in
    omega (arith, k.balanced p, none_left)

abort_all-IsWhole : (code : ErrorCode) (a : Assembler) → IsWhole a → IsWhole (abort_all code a)
unfolding abort_all get
abort_all-IsWhole code a h =
    let b = reassemble-IsWhole (Reassembler.abort_all code) a h (aborted-IsHeld code a h) in
    record {
      kept = record {
        map = tt;
        balanced = λ p. omega (arith, abort-left code a p h);
        pending = λ p. ground (arith, abort-left code a p h);
        told = b.kept.told;
      };
      covered = record { covered = λ id o. cc; keyed = b.covered.keyed; quiet = b.covered.quiet };
    }

-- How many changes are among the events.
abbrev pub changes_in : List Event → ℕ
changes_in [] = 0
changes_in (changed now w ∷ es) = suc (changes_in es)
changes_in (chunk_came now c ∷ es) = changes_in es
changes_in (timed_out id ∷ es) = changes_in es
changes_in (aborted_all code ∷ es) = changes_in es

module _ (codec : Codec) where
  handle-IsWhole : (e : Event) (a : Assembler) → IsWhole a → IsWhole (handle codec e a)
  unfolding handle handle_chunk time_out
  handle-IsWhole (changed now w) a h = record {
    kept = handle_changed-IsKept codec now w a h.kept;
    covered = handle_changed-IsCovered codec now w a h.covered;
  }
  handle-IsWhole (chunk_came now c) a h =
      reassemble-IsWhole (chunk codec now c) a h
        (chunk-IsHeld _ codec now c a.reassembler (covered-IsHeld a h.covered))
  handle-IsWhole (timed_out id) a h =
      reassemble-IsWhole (expire id) a h
        (expire-IsHeld _ id a.reassembler (covered-IsHeld a h.covered))
  handle-IsWhole (aborted_all code) a h = abort_all-IsWhole code a h

  handle_each-IsWhole :
      (es : List Event) (a : Assembler) → IsWhole a → IsWhole (handle_each codec es a)
  unfolding handle_each
  handle_each-IsWhole [] a h = h
  handle_each-IsWhole (e ∷ es) a h =
      handle_each-IsWhole es (handle codec e a) (handle-IsWhole e a h)

  handle_each-length :
      (es : List Event) (a : Assembler)
      → length (handle_each codec es a).changes ≡ length a.changes + changes_in es
  unfolding handle_each handle handle_chunk time_out abort_all
  handle_each-length [] a = omega arith
  handle_each-length (changed now w ∷ es) a =
      omega (arith, handle_each-length es _, handle_changed-length codec now w a)
  handle_each-length (chunk_came now c ∷ es) a =
      omega (arith, handle_each-length es _, reassemble-length (chunk codec now c) a)
  handle_each-length (timed_out id ∷ es) a =
      omega (arith, handle_each-length es _, reassemble-length (expire id) a)
  handle_each-length (aborted_all code ∷ es) a =
      omega (arith, handle_each-length es _, reassemble-length (Reassembler.abort_all code) a)

  new-IsWhole : IsWhole new_assembler
  unfolding get
  new-IsWhole = record {
    kept = record {
      map = tt;
      balanced = λ p. omega arith;
      pending = λ p. ground arith;
      told = λ p. ground arith;
    };
    covered = record { covered = λ id o. cc; keyed = λ id s e. cc; quiet = refl };
  }

  -- Changes of the clipboard, chunks, timeouts and aborts come in any order. Then each change that came
  -- was emitted once or is pending once, never both and never neither. After one more abort each was
  -- emitted exactly once: no change that waits for a representation is lost.
  pub change_once :
      (es : List Event) (code : ErrorCode) (p : ℕ)
      → (let a = handle_each codec es new_assembler in
          (times_emitted p a.emitted + occurs p a.pending ≡ one (ltb p (changes_in es)))
          × (times_emitted p (abort_all code a).emitted ≡ one (ltb p (changes_in es))))
  unfolding abort_all
  change_once es code p =
      let a = handle_each codec es new_assembler in
      let h = handle_each-IsWhole es new_assembler new-IsWhole in
      let b = reassemble-IsWhole (Reassembler.abort_all code) a h (aborted-IsHeld code a h) in
      let long : length a.changes ≡ changes_in es =
        omega (arith, handle_each-length es new_assembler) in
      let same = reassemble-length (Reassembler.abort_all code) a in
      (
        rw⁻¹ long (omega (arith, h.kept.told p, h.kept.pending p)),
        rw⁻¹ (same ∙ long) (ground (arith, b.kept.told p, abort-left code a p h)),
      )
