-- ===== src/AgentHost/Changes/Streams.antt =====
-- packages/agent-host/src/reassembler.ts: a stream that a pending change owns is open, or the
-- reassembler has said what became of it.
use copy_clipboard_app.Base.{
  ℕ, ◌==◌, ◌≡◌, refl, sym, ap, subst, ◌∙◌, Text, text_eq, text_eq_iff, Bool, true, false, not, ◌||◌,
  ◌⊎◌, inl, inr, Option, none, some, List, [], ◌∷◌, ◌++◌, length, leb, ltb, arith, Bool-cases, Dict,
  values, get, set, delete, get-set, get-delete, Some,
}
use copy_clipboard_app.Protocol.Types.{Bytes}
use copy_clipboard_app.Protocol.Result.{
  ErrorCode, rep_seq_gap, rep_seq_duplicate, rep_bad_base64, rep_overflow, rep_short,
  rep_hash_mismatch, rep_timeout, rep_too_many,
}
use copy_clipboard_app.Protocol.Constants.{max_rep_bytes, max_concurrent_rep_streams}
use copy_clipboard_app.AgentHost.Reassembler.{
  DeclaredRep, RepChunkIn, RepStream, Told, completed, aborted, Reassembler, Codec, decode_base64,
  concat, mark_ended, abort, refuse, is_open, arm, open_stream, declare, grown, assembled, finish,
  take_bytes, take_chunk, chunk, abort_found, expire, abort_each, abort_all,
}

abbrev pub told_id : Told → Text
told_id (completed id rep) = id
told_id (aborted id mime code) = id

abbrev pub Tells : Text → Told → Type 0
Tells id t = told_id t ≡ id

-- The stream is open, or was told of.
abbrev pub Accounts : Text → Reassembler → Type 0
Accounts id r = (is_open (get id r.streams) ≡ true) ⊎ Some (Tells id) r.told

-- The reassembler accounts for every stream of `K`, and each stands under its own id.
pub record IsHeld (K : Text → Bool) (r : Reassembler) : Type 0 where
  pub accounts : (id : Text) → K id ≡ true → Accounts id r
  pub keyed : (id : Text) (s : RepStream) → get id r.streams ≡ some s → s.rep_id ≡ id

Some-append : (P : Told → Type 0) (xs ys : List Told) → Some P xs → Some P (xs ++ ys)
Some-append P [] ys h = absurd h
Some-append P (x ∷ xs) ys (inl h) = inl h
Some-append P (x ∷ xs) ys (inr h) = inr (Some-append P xs ys h)

Some-last : (P : Told → Type 0) (xs : List Told) (t : Told) → P t → Some P (xs ++ t ∷ [])
Some-last P [] t h = inl h
Some-last P (x ∷ xs) t h = inr (Some-last P xs t h)

keyed-delete :
    (j id : Text) (m : Dict RepStream) (s : RepStream)
    → ((id : Text) (s : RepStream) → get id m ≡ some s → s.rep_id ≡ id)
    → get id (delete j m) ≡ some s
    → s.rep_id ≡ id
keyed-delete j id m s h e = elim (Bool-cases (text_eq j id)) [
  | inl same ↦ let gone : get id (delete j m) ≡ none = get-delete j id m ∙ rw same refl in cc
  | inr other ↦
      let there : get id (delete j m) ≡ get id m = get-delete j id m ∙ rw other refl in
      h id s (sym there ∙ e)
]

module _ (K : Text → Bool) where
  -- A stream leaves, and is told of.
  leave-IsHeld :
      (j : Text) (t : Told) (r : Reassembler)
      → told_id t ≡ j
      → IsHeld K r
      → IsHeld K (record r { streams = delete j r.streams; told = r.told ++ t ∷ [] })
  leave-IsHeld j t r e h = record {
    accounts = λ id k. elim (Bool-cases (text_eq j id)) [
      | inl same ↦ inr (Some-last (Tells id) r.told t (e ∙ (text_eq_iff j id).0 same))
      | inr other ↦ elim (h.accounts id k) [
        | inl o ↦ inl (ap is_open (get-delete j id r.streams) ∙ rw other o)
        | inr told ↦ inr (Some-append (Tells id) r.told (t ∷ []) told)
      ]
    ];
    keyed = λ id s. keyed-delete j id r.streams s h.keyed;
  }

  put-IsHeld :
      (s : RepStream) (r : Reassembler)
      → ((id : Text) → K id ≡ true → (s.rep_id ≡ id) ⊎ Accounts id r)
      → ((id : Text) (s : RepStream) → get id r.streams ≡ some s → s.rep_id ≡ id)
      → IsHeld K (record r { streams = set s.rep_id s r.streams })
  put-IsHeld s r acc keyed =
      let opened : (id : Text)
          → text_eq s.rep_id id ≡ true
          → is_open (get id (set s.rep_id s r.streams)) ≡ true =
        λ id same. ap is_open (get-set s.rep_id id s r.streams) ∙ rw same refl in
      record {
        accounts = λ id k. elim (Bool-cases (text_eq s.rep_id id)) [
          | inl same ↦ inl (opened id same)
          | inr other ↦ elim (acc id k) [
            | inl e ↦ absurd (ground (arith, text_eq_iff s.rep_id id, e, other))
            | inr (inl o) ↦ inl (ap is_open (get-set s.rep_id id s r.streams) ∙ rw other o)
            | inr (inr told) ↦ inr told
          ]
        ];
        keyed = λ id t e. elim (Bool-cases (text_eq s.rep_id id)) [
          | inl same ↦
              let here : get id (set s.rep_id s r.streams) ≡ some s =
                get-set s.rep_id id s r.streams ∙ rw same refl in
              let found : s ≡ t = cc in
              subst (λ x. x.rep_id ≡ id) found ((text_eq_iff s.rep_id id).0 same)
          | inr other ↦
              let there : get id (set s.rep_id s r.streams) ≡ get id r.streams =
                get-set s.rep_id id s r.streams ∙ rw other refl in
              keyed id t (sym there ∙ e)
        ];
      }

  abort-IsHeld :
      (s : RepStream) (code : ErrorCode) (r : Reassembler) → IsHeld K r → IsHeld K (abort s code r)
  unfolding abort
  abort-IsHeld s code r h = leave-IsHeld s.rep_id (aborted s.rep_id s.mime code) r refl h

  finish-IsHeld :
      (codec : Codec) (s : RepStream) (r : Reassembler) → IsHeld K r → IsHeld K (finish codec s r)
  unfolding finish mark_ended
  finish-IsHeld codec s r h =
      let marked = mark_ended s.rep_id r in
      let k : IsHeld K marked = record { accounts = h.accounts; keyed = h.keyed } in
      elim (Bool-cases (not (s.received_bytes == s.declared_bytes))) [
        | inl e ↦ rw e (abort-IsHeld s rep_short marked k)
        | inr e ↦
            elim (Bool-cases
              (not (text_eq (codec.content_hash (concat s.parts)) s.declared_hash))) [
                | inl f ↦ rw (e, f) (abort-IsHeld s rep_hash_mismatch marked k)
                | inr f ↦
                    rw (e, f)
                      (leave-IsHeld s.rep_id (completed s.rep_id (assembled codec s)) marked refl k)
              ]
      ]

  -- A stream that stands under its id is changed in place.
  put_found-IsHeld :
      (s : RepStream) (r : Reassembler)
      → IsHeld K r
      → IsHeld K (record r { streams = set s.rep_id s r.streams })
  put_found-IsHeld s r h = put-IsHeld s r (λ id k. inr (h.accounts id k)) h.keyed

  take_bytes-IsHeld :
      (codec : Codec) (now : ℕ) (final : Bool) (s : RepStream) (o : Option Bytes) (r : Reassembler)
      → IsHeld K r
      → IsHeld K (take_bytes codec now final s.rep_id s o r)
  unfolding take_bytes
  take_bytes-IsHeld codec now final s none r h = abort-IsHeld s rep_bad_base64 r h
  take_bytes-IsHeld codec now final s (some bytes) r h =
      let s' = grown bytes s in
      let last = record s' { saw_final = true } in
      elim (Bool-cases
        (ltb s.declared_bytes s'.received_bytes || ltb max_rep_bytes s'.received_bytes)) [
          | inl e ↦ rw e (abort-IsHeld s rep_overflow r h)
          | inr e ↦ elim (Bool-cases final) [
            | inl f ↦ rw (e, f) (finish-IsHeld codec last _ (put_found-IsHeld last r h))
            | inr f ↦ rw (e, f) (put_found-IsHeld (arm now s') r h)
          ]
        ]

  pub chunk-IsHeld :
      (codec : Codec) (now : ℕ) (c : RepChunkIn) (r : Reassembler)
      → IsHeld K r
      → IsHeld K (chunk codec now c r)
  unfolding chunk
  chunk-IsHeld codec now c r h = go (get c.rep_id r.streams) refl
    where
      go :
          (o : Option RepStream)
          → get c.rep_id r.streams ≡ o
          → IsHeld K (take_chunk codec now c o r)
      go none e = h
      go (some s) e = elim (Bool-cases (ltb c.seq s.expected_seq)) [
        | inl f ↦ rw f (abort-IsHeld s rep_seq_duplicate r h)
        | inr f ↦ elim (Bool-cases (ltb s.expected_seq c.seq)) [
          | inl g ↦ rw (f, g) (abort-IsHeld s rep_seq_gap r h)
          | inr g ↦
              rw (f, g, ← h.keyed c.rep_id s e)
                (take_bytes-IsHeld codec now c.final s (decode_base64 codec c.b64) r h)
        ]
      ]

  pub expire-IsHeld : (id : Text) (r : Reassembler) → IsHeld K r → IsHeld K (expire id r)
  unfolding expire
  expire-IsHeld id r h = go (get id r.streams)
    where
      go : (o : Option RepStream) → IsHeld K (abort_found rep_timeout o r)
      go none = h
      go (some s) = abort-IsHeld s rep_timeout r h

  pub abort_each-IsHeld :
      (ss : List RepStream) (code : ErrorCode) (r : Reassembler)
      → IsHeld K r
      → IsHeld K (abort_each ss code r)
  unfolding abort_each
  abort_each-IsHeld [] code r h = h
  abort_each-IsHeld (s ∷ ss) code r h =
      abort_each-IsHeld ss code (abort s code r) (abort-IsHeld s code r h)

  refuse-IsHeld :
      (rep : DeclaredRep) (code : ErrorCode) (r : Reassembler)
      → ((id : Text) → K id ≡ true → (rep.rep_id ≡ id) ⊎ Accounts id r)
      → ((id : Text) (s : RepStream) → get id r.streams ≡ some s → s.rep_id ≡ id)
      → IsHeld K (refuse rep code r)
  unfolding refuse
  refuse-IsHeld rep code r acc keyed =
      let t = aborted rep.rep_id rep.mime code in
      record {
        accounts = λ id k. elim (acc id k) [
          | inl e ↦ inr (Some-last (Tells id) r.told t e)
          | inr (inl o) ↦ inl o
          | inr (inr told) ↦ inr (Some-append (Tells id) r.told (t ∷ []) told)
        ];
        keyed = keyed;
      }

  -- After a declaration its stream is accounted for too.
  pub declare-IsHeld :
      (now : ℕ) (rep : DeclaredRep) (r : Reassembler)
      → ((id : Text) → K id ≡ true → (rep.rep_id ≡ id) ⊎ Accounts id r)
      → ((id : Text) (s : RepStream) → get id r.streams ≡ some s → s.rep_id ≡ id)
      → IsHeld K (declare now rep r)
  unfolding declare
  declare-IsHeld now rep r acc keyed =
      elim (Bool-cases
        (is_open (get rep.rep_id r.streams) || leb max_concurrent_rep_streams (length r.streams))) [
          | inl e ↦ rw e (refuse-IsHeld rep rep_too_many r acc keyed)
          | inr e ↦ elim (Bool-cases (ltb max_rep_bytes rep.byte_length)) [
            | inl f ↦ rw (e, f) (refuse-IsHeld rep rep_overflow r acc keyed)
            | inr f ↦ rw (e, f) (put-IsHeld (open_stream now rep) r acc keyed)
          ]
        ]

values-Some :
    (id : Text) (m : Dict RepStream) (s : RepStream)
    → get id m ≡ some s
    → s.rep_id ≡ id
    → Some (λ x. x.rep_id ≡ id) (values m)
unfolding get
values-Some id [] s e h = cc
values-Some id ((j, w) ∷ m) s e h = elim (Bool-cases (text_eq j id)) [
  | inl same ↦ let found : w ≡ s = ground (arith, same, e) in inl (rw found h)
  | inr other ↦ inr (values-Some id m s (ground (arith, other, e)) h)
]

abort_each-closes :
    (id : Text) (ss : List RepStream) (code : ErrorCode) (r : Reassembler)
    → (is_open (get id r.streams) ≡ false) ⊎ Some (λ s. s.rep_id ≡ id) ss
    → is_open (get id (abort_each ss code r).streams) ≡ false
unfolding abort_each abort
abort_each-closes id [] code r (inl h) = h
abort_each-closes id [] code r (inr h) = absurd h
abort_each-closes id (s ∷ ss) code r h = abort_each-closes id ss code _ (elim h [
  | inl closed ↦ inl (ap is_open (get-delete s.rep_id id r.streams) ∙ ground (arith, closed))
  | inr (inl e) ↦
      inl (ap is_open (get-delete s.rep_id id r.streams) ∙ rw ((text_eq_iff s.rep_id id).1 e) refl)
  | inr (inr later) ↦ inr later
])

-- No stream is open when all were aborted.
pub abort_all-closes :
    (id : Text) (code : ErrorCode) (r : Reassembler)
    → ((id : Text) (s : RepStream) → get id r.streams ≡ some s → s.rep_id ≡ id)
    → is_open (get id (abort_all code r).streams) ≡ false
unfolding abort_all
abort_all-closes id code r keyed =
    abort_each-closes id (values r.streams) code r (go (get id r.streams) refl)
  where
    go :
        (o : Option RepStream)
        → get id r.streams ≡ o
        → (is_open (get id r.streams) ≡ false) ⊎ Some (λ s. s.rep_id ≡ id) (values r.streams)
    go none e = inl (ap is_open e)
    go (some s) e = inr (values-Some id r.streams s e (keyed id s e))
