-- ===== src/AgentHost/Reassembler/Bounds.antt =====
-- reassembler.ts: no more than eight streams, none over its declared size, and nothing is handed over
-- whose bytes do not hash to what was declared.
use copy_clipboard_app.Base.{
  ℕ, ◌+◌, ◌≤◌, ◌==◌, ◌≡◌, refl, sym, ap, subst, ◌∙◌, Text, text_eq, text_eq_iff, Bool, true, false,
  not, ◌||◌, inl, inr, Option, none, some, List, [], ◌∷◌, arith, length, leb, ltb, sum_by,
  Bool-cases, get, set, values, All, All-append,
}
use copy_clipboard_app.Protocol.Result.{
  ErrorCode, rep_seq_gap, rep_seq_duplicate, rep_bad_base64, rep_overflow, rep_short,
  rep_hash_mismatch, rep_timeout, rep_too_many,
}
use copy_clipboard_app.Protocol.Types.{Bytes, ResolvedRep}
use copy_clipboard_app.Protocol.Constants.{max_rep_bytes, max_concurrent_rep_streams}
use copy_clipboard_app.AgentHost.Reassembler.{
  DeclaredRep, RepChunkIn, RepStream, Told, completed, aborted, Reassembler, Codec, decode_base64,
  concat, mark_ended, abort, refuse, is_open, arm, open_stream, declare, grown, assembled, finish,
  take_bytes, take_chunk, chunk, abort_found, expire, abort_each, abort_all, new_reassembler, Step,
  declares, chunks, expires, aborts, step, run,
}
use copy_clipboard_app.AgentHost.Reassembler.Entries.{
  AllIn, set-AllIn, delete-AllIn, get-AllIn, length-set, length-delete, length-set_there, sum_parts,
  length-concat,
}

-- The declaration that opened the stream, and the one that a representation would fulfil.
abbrev pub declaration : RepStream → DeclaredRep
declaration s = record {
  rep_id = s.rep_id;
  mime = s.mime;
  uti = s.uti;
  byte_length = s.declared_bytes;
  sha256 = s.declared_hash;
}

abbrev pub fulfilled : Text → ResolvedRep → DeclaredRep
fulfilled rep_id rep = record {
  rep_id = rep_id;
  mime = rep.mime;
  uti = rep.uti;
  byte_length = rep.byte_length;
  sha256 = rep.sha256;
}

-- A stream was declared. It holds what it says it has received, no more than was declared, and that
-- is no more than a representation may have.
pub record IsWithin (D : DeclaredRep → Type 0) (s : RepStream) : Type 0 where
  pub counted : s.received_bytes ≡ sum_by length s.parts
  pub within : s.received_bytes ≤ s.declared_bytes
  pub small : s.declared_bytes ≤ max_rep_bytes
  pub declared : D (declaration s)

module _ (codec : Codec) (D : DeclaredRep → Type 0) where
  -- What was handed over fulfils a declaration, to the byte: the hash of its bytes, and their number,
  -- are the declared ones, and it is not too long.
  abbrev pub IsGood : Told → Type 0
  IsGood (aborted rep_id mime code) = Unit
  IsGood (completed rep_id rep) =
      (codec.content_hash rep.bytes ≡ rep.sha256)
      × (rep.byte_length ≡ length rep.bytes)
      × (rep.byte_length ≤ max_rep_bytes)
      × D (fulfilled rep_id rep)

  pub record IsSound (r : Reassembler) : Type 0 where
    pub few : length r.streams ≤ max_concurrent_rep_streams
    pub streams : AllIn (IsWithin D) r.streams
    pub told : All IsGood r.told

  abort-IsSound :
      (s : RepStream) (code : ErrorCode) (r : Reassembler) → IsSound r → IsSound (abort s code r)
  unfolding abort
  abort-IsSound s code r h = record {
    few = omega (arith, length-delete s.rep_id r.streams, h.few);
    streams = delete-AllIn (IsWithin D) s.rep_id r.streams h.streams;
    told = All-append IsGood r.told (aborted s.rep_id s.mime code ∷ []) h.told (tt, tt);
  }

  refuse-IsSound :
      (rep : DeclaredRep) (code : ErrorCode) (r : Reassembler)
      → IsSound r
      → IsSound (refuse rep code r)
  unfolding refuse
  refuse-IsSound rep code r h = record {
    few = h.few;
    streams = h.streams;
    told = All-append IsGood r.told (aborted rep.rep_id rep.mime code ∷ []) h.told (tt, tt);
  }

  mark_ended-IsSound : (rep_id : Text) (r : Reassembler) → IsSound r → IsSound (mark_ended rep_id r)
  unfolding mark_ended
  mark_ended-IsSound rep_id r h = record { few = h.few; streams = h.streams; told = h.told }

  declare-IsSound :
      (now : ℕ) (rep : DeclaredRep) (r : Reassembler)
      → D rep
      → IsSound r
      → IsSound (declare now rep r)
  unfolding declare
  declare-IsSound now rep r d h =
      elim (Bool-cases
        (is_open (get rep.rep_id r.streams) || leb max_concurrent_rep_streams (length r.streams))) [
          | inl e ↦ rw e (refuse-IsSound rep rep_too_many r h)
          | inr e ↦ elim (Bool-cases (ltb max_rep_bytes rep.byte_length)) [
            | inl f ↦ rw (e, f) (refuse-IsSound rep rep_overflow r h)
            | inr f ↦
                let room : leb max_concurrent_rep_streams (length r.streams) ≡ false =
                  ground arith in
                rw (e, f)
                  (record {
                    few = ground (arith, length-set rep.rep_id (open_stream now rep) r.streams);
                    streams =
                        set-AllIn (IsWithin D) rep.rep_id (open_stream now rep) r.streams
                          (record {
                            counted = refl;
                            within = omega arith;
                            small = ground arith;
                            declared = d;
                          })
                          h.streams;
                    told = h.told;
                  })
          ]
        ]

  finish-IsSound :
      (s : RepStream) (r : Reassembler) → IsWithin D s → IsSound r → IsSound (finish codec s r)
  unfolding finish
  finish-IsSound s r w h =
      let marked : Reassembler = mark_ended s.rep_id r in
      let k : IsSound marked = mark_ended-IsSound s.rep_id r h in
      elim (Bool-cases (not (s.received_bytes == s.declared_bytes))) [
        | inl e ↦ rw e (abort-IsSound s rep_short marked k)
        | inr e ↦
            elim (Bool-cases
              (not (text_eq (codec.content_hash (concat s.parts)) s.declared_hash))) [
                | inl f ↦ rw (e, f) (abort-IsSound s rep_hash_mismatch marked k)
                | inr f ↦
                    rw (e, f)
                      (record {
                        few = omega (arith, length-delete s.rep_id marked.streams, k.few);
                        streams = delete-AllIn (IsWithin D) s.rep_id marked.streams k.streams;
                        told =
                            All-append IsGood marked.told
                              (completed s.rep_id (assembled codec s) ∷ []) k.told
                              (
                                (
                                  refl,
                                  refl,
                                  omega
                                      (arith, length-concat s.parts, w.counted, w.within, w.small),
                                  subst D (same (ground arith) (ground arith)) w.declared,
                                ),
                                tt,
                              );
                      })
              ]
      ]
    where
      same :
          s.received_bytes ≡ s.declared_bytes
          → text_eq (codec.content_hash (concat s.parts)) s.declared_hash ≡ true
          → declaration s ≡ fulfilled s.rep_id (assembled codec s)
      same full hash =
          let long : s.declared_bytes ≡ length (concat s.parts) =
            omega (arith, full, length-concat s.parts, w.counted) in
          ap (λ n. record (declaration s) { byte_length = n }) long
          ∙ ap (λ x. record (declaration s) { byte_length = length (concat s.parts); sha256 = x })
              (sym ((text_eq_iff (codec.content_hash (concat s.parts)) s.declared_hash).0 hash))

  grown-IsWithin :
      (bytes : Bytes) (s : RepStream) (final : Bool) (deadline : Option ℕ)
      → s.received_bytes + length bytes ≤ s.declared_bytes
      → IsWithin D s
      → IsWithin D (record (grown bytes s) { saw_final = final; deadline = deadline })
  grown-IsWithin bytes s final deadline room w = record {
    counted = omega (arith, sum_parts s.parts bytes, w.counted);
    within = room;
    small = w.small;
    declared = w.declared;
  }

  put-IsSound :
      (key : Text) (s s' : RepStream) (r : Reassembler)
      → get key r.streams ≡ some s
      → IsWithin D s'
      → IsSound r
      → IsSound (record r { streams = set key s' r.streams })
  put-IsSound key s s' r e w h = record {
    few = omega (arith, length-set_there key s' s r.streams e, h.few);
    streams = set-AllIn (IsWithin D) key s' r.streams w h.streams;
    told = h.told;
  }

  take_bytes-IsSound :
      (now : ℕ) (final : Bool) (key : Text) (s : RepStream) (o : Option Bytes) (r : Reassembler)
      → get key r.streams ≡ some s
      → IsSound r
      → IsSound (take_bytes codec now final key s o r)
  unfolding take_bytes
  take_bytes-IsSound now final key s none r e h = abort-IsSound s rep_bad_base64 r h
  take_bytes-IsSound now final key s (some bytes) r e h =
      let s' : RepStream = grown bytes s in
      let last : RepStream = record s' { saw_final = true } in
      let w : IsWithin D s = get-AllIn (IsWithin D) key s r.streams h.streams e in
      elim (Bool-cases
        (ltb s.declared_bytes s'.received_bytes || ltb max_rep_bytes s'.received_bytes)) [
          | inl f ↦ rw f (abort-IsSound s rep_overflow r h)
          | inr f ↦
              let room : s.received_bytes + length bytes ≤ s.declared_bytes = ground arith in
              elim (Bool-cases final) [
                | inl g ↦
                    let k : IsWithin D last = grown-IsWithin bytes s true none room w in
                    rw (f, g)
                      (finish-IsSound last (record r { streams = set key last r.streams }) k
                        (put-IsSound key s last r e k h))
                | inr g ↦
                    rw (f, g)
                      (put-IsSound key s (arm now s') r e
                        (grown-IsWithin bytes s s.saw_final (arm now s').deadline room w) h)
              ]
        ]

  chunk-IsSound :
      (now : ℕ) (c : RepChunkIn) (r : Reassembler) → IsSound r → IsSound (chunk codec now c r)
  unfolding chunk
  chunk-IsSound now c r h = go (get c.rep_id r.streams) refl
    where
      go :
          (o : Option RepStream) → get c.rep_id r.streams ≡ o → IsSound (take_chunk codec now c o r)
      go none e = h
      go (some s) e = elim (Bool-cases (ltb c.seq s.expected_seq)) [
        | inl f ↦ rw f (abort-IsSound s rep_seq_duplicate r h)
        | inr f ↦ elim (Bool-cases (ltb s.expected_seq c.seq)) [
          | inl g ↦ rw (f, g) (abort-IsSound s rep_seq_gap r h)
          | inr g ↦
              rw (f, g)
                (take_bytes-IsSound now c.final c.rep_id s (decode_base64 codec c.b64) r e h)
        ]
      ]

  expire-IsSound : (rep_id : Text) (r : Reassembler) → IsSound r → IsSound (expire rep_id r)
  unfolding expire
  expire-IsSound rep_id r h = go (get rep_id r.streams)
    where
      go : (o : Option RepStream) → IsSound (abort_found rep_timeout o r)
      go none = h
      go (some s) = abort-IsSound s rep_timeout r h

  abort_each-IsSound :
      (ss : List RepStream) (code : ErrorCode) (r : Reassembler)
      → IsSound r
      → IsSound (abort_each ss code r)
  unfolding abort_each
  abort_each-IsSound [] code r h = h
  abort_each-IsSound (s ∷ ss) code r h =
      abort_each-IsSound ss code (abort s code r) (abort-IsSound s code r h)

  -- Only what `D` says of is declared.
  abbrev pub Declares : Step → Type 0
  Declares (declares now rep) = D rep
  Declares _ = Unit

  step-IsSound : (x : Step) (r : Reassembler) → Declares x → IsSound r → IsSound (step codec x r)
  unfolding step abort_all
  step-IsSound (declares now rep) r d h = declare-IsSound now rep r d h
  step-IsSound (chunks now c) r d h = chunk-IsSound now c r h
  step-IsSound (expires rep_id) r d h = expire-IsSound rep_id r h
  step-IsSound (aborts code) r d h = abort_each-IsSound (values r.streams) code r h

  run-IsSound :
      (xs : List Step) (r : Reassembler) → All Declares xs → IsSound r → IsSound (run codec xs r)
  unfolding run
  run-IsSound [] r d h = h
  run-IsSound (x ∷ xs) r d h = run-IsSound xs (step codec x r) d.1 (step-IsSound x r d.0 h)

  -- After any declarations, chunks, timeouts and aborts, in any order: there are at most eight open
  -- streams; each holds the bytes it has counted, no more than were declared for it, which is no more
  -- than 20 MiB; and every representation that was handed over fulfils one of the declarations: its
  -- bytes have the declared hash and the declared length.
  pub reassembler-IsSound :
      (xs : List Step) → All Declares xs → IsSound (run codec xs new_reassembler)
  reassembler-IsSound xs d =
      run-IsSound xs new_reassembler d (record { few = omega arith; streams = tt; told = tt })
