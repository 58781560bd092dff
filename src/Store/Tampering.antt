-- ===== src/Store/Tampering.antt =====
-- packages/store/src/chain.ts: the chain binds a log. Two logs that can be read and end in the same line
-- are the same, or at one place two texts that the chain hashes differ and have one hash.
use copy_clipboard_app.Base.{
  ℕ, suc, zero, ◌+◌, ◌≡◌, ◌≢◌, refl, sym, ap, ◌∙◌, Text, codes, text_eq, text_eq→eq, text_eq_refl,
  true, List, [], ◌∷◌, ◌++◌, length, take, drop, arith, inl, inr, ◌⊎◌, Bool-cases, ◌==◌,
}
use copy_clipboard_app.Protocol.Types.{Bytes, StoreEvent}
use copy_clipboard_app.Protocol.Result.{
  Result, ok, err, ◌>>=◌, ensure, store_corrupt, store_chain_broken,
}
use copy_clipboard_app.History.Ports.{IsClean}
use copy_clipboard_app.Store.Platform.{Platform, IsPlatform, is_hash}
use copy_clipboard_app.Store.Chain.{chain_genesis, chain_next, chain_from, check_link}
use copy_clipboard_app.Store.Record.{kind_text, open_record_any_kind}
use copy_clipboard_app.Store.Payload.{decode_payload, to_store_event}
use copy_clipboard_app.Store.Log.{aad_seq, then_more, read_line, read_from}
use copy_clipboard_app.Store.Sealed.{append-cancel}

length-take-drop : (n : ℕ) (t : Text) → length t ≡ length (take n t) + length (drop n t)
length-take-drop zero t = omega arith
length-take-drop (suc n) [] = omega arith
length-take-drop (suc n) (c ∷ t) = omega (arith, length-take-drop n t)

is_hash-length : (t : Text) → is_hash t ≡ true → length t ≡ 50
unfolding is_hash
is_hash-length t h = elim (Bool-cases (text_eq (take 7 t) (codes "sha256-"))) [
  | inl e ↦
      let prefix : length (take 7 t) ≡ 7 = ap length (text_eq→eq (take 7 t) (codes "sha256-") e) in
      let rest : length (drop 7 t) ≡ 43 = ground (arith, e, h) in
      omega (arith, length-take-drop 7 t, prefix, rest)
  | inr e ↦ ground (arith, e, h)
]

-- A step that ends well ends well with what the next step takes.
begun_ok :
    {A B : Type 0} (next : A → Result B) (first : Result A) {out : B}
    → (first >>= next) ≡ ok out
    → (mid : A) × (first ≡ ok mid) × (next mid ≡ ok out)
begun_ok next (err code) done = cc
begun_ok next (ok mid) done = (mid, refl, done)

module _ (p : Platform) where
  -- At one place of the two logs, the texts that the chain hashes there, each a tip with its line,
  -- differ and have one hash.
  abbrev pub Collides : Text → Text → List Text → List Text → Type 0
  Collides s t [] ys = ⊥
  Collides s t (x ∷ xs) [] = ⊥
  Collides s t (x ∷ xs) (y ∷ ys) =
      (((s ++ x) ≢ (t ++ y)) × (p.content_hash (s ++ x) ≡ p.content_hash (t ++ y)))
      ⊎ Collides (p.content_hash (s ++ x)) (p.content_hash (t ++ y)) xs ys

  same_or_not : (a b : Text) → (a ≡ b) ⊎ (a ≢ b)
  same_or_not a b = elim (Bool-cases (text_eq a b)) [
    | inl same ↦ inl (text_eq→eq a b same)
    | inr other ↦ inr (λ d. cc (other, sym (text_eq_refl b), ap (λ c. text_eq c b) d))
  ]

  module _ (laws : IsPlatform p) where
    chain_next-cancel :
        (s t x y : Text)
        → is_hash s ≡ true
        → is_hash t ≡ true
        → ((s ≡ t) × (x ≡ y)) ⊎ ((s ++ x) ≢ (t ++ y))
    chain_next-cancel s t x y hs ht = elim (same_or_not (s ++ x) (t ++ y)) [
      | inl same ↦ inl (append-cancel 50 s t x y (is_hash-length s hs) (is_hash-length t ht) same)
      | inr c ↦ inr c
    ]

    -- The tip of a log fixes its lines, unless two texts collide on the way.
    chain_from-cancel :
        (xs ys : List Text) (s t : Text)
        → length xs ≡ length ys
        → is_hash s ≡ true
        → is_hash t ≡ true
        → chain_from p s xs ≡ chain_from p t ys
        → ((s ≡ t) × (xs ≡ ys)) ⊎ Collides s t xs ys
    unfolding chain_from
    chain_from-cancel [] [] s t n hs ht e = inl (e, refl)
    chain_from-cancel [] (y ∷ ys) s t n hs ht e = absurd (omega (arith, n))
    chain_from-cancel (x ∷ xs) [] s t n hs ht e = absurd (omega (arith, n))
    chain_from-cancel (x ∷ xs) (y ∷ ys) s t n hs ht e =
        elim (chain_from-cancel xs ys (chain_next p s x) (chain_next p t y) (omega (arith, n))
          (laws.hash_form (s ++ x)) (laws.hash_form (t ++ y)) e) [
            | inr c ↦ inr (inr c)
            | inl rest ↦ elim (chain_next-cancel s t x y hs ht) [
              | inr c ↦ inr (inl (c, rest.0))
              | inl first ↦ inl (first.0, λ i. first.1 i ∷ rest.1 i)
            ]
          ]

  module _ (key : Bytes) where
    -- The link that a line declares.
    declared : ℕ → ℕ → Text → Result Text
    declared anchor i line = do
      opened ← open_record_any_kind p key i (aad_seq i (anchor + i)) line
      payload ← decode_payload p opened.payload
      ok payload.prev

    check_link-ok :
        (tip line prev next : Text)
        → check_link p tip line prev ≡ ok next
        → (prev ≡ tip) × (next ≡ chain_next p tip line)
    unfolding check_link
    check_link-ok tip line prev next h = elim (Bool-cases (text_eq prev tip)) [
      | inl e ↦
          (text_eq→eq prev tip e, let k : ok (chain_next p tip line) ≡ ok next = rw e at h in cc)
      | inr e ↦ let k : err store_chain_broken ≡ ok next = rw e at h in cc
    ]

    -- A line that is read declares the hash that is expected.
    read_line-declared :
        (anchor i : ℕ) (tip line : Text) (out : StoreEvent × Text)
        → read_line p key anchor i tip line ≡ ok out
        → (declared anchor i line ≡ ok tip) × (out.1 ≡ chain_next p tip line)
    unfolding declared read_line
    read_line-declared anchor i tip line out h =
        let (opened, e, h') =
          begun_ok _ (open_record_any_kind p key i (aad_seq i (anchor + i)) line) h in
        let (payload, e', h'') = begun_ok _ (decode_payload p opened.payload) h' in
        let (u, e2, h2) =
          begun_ok _ (ensure (text_eq payload.kind (kind_text opened.kind)) store_corrupt) h'' in
        let (v, e3, h3) = begun_ok _ (ensure (payload.seq == anchor + i) store_corrupt) h2 in
        let (next, e4, h4) = begun_ok _ (check_link p tip line payload.prev) h3 in
        let (event, e5, h5) = begun_ok _ (to_store_event payload) h4 in
        let linked = check_link-ok tip line payload.prev next e4 in
        (
          rw (e, e') (ap ok linked.0),
          let same : (event, next) ≡ out = cc in ap (λ o. o.1) (sym same) ∙ linked.1,
        )

    -- If all lines are read, the last declares the tip of those before it.
    read_from-declared :
        (anchor i : ℕ) (tip : Text) (xs : List Text) (last : Text)
        → IsClean (read_from p key anchor i tip (xs ++ last ∷ []))
        → declared anchor (i + length xs) last ≡ ok (chain_from p tip xs)
    unfolding read_from chain_from
    read_from-declared anchor i tip [] last c = go (read_line p key anchor i tip last) refl c
      where
        go :
            (q : Result (StoreEvent × Text))
            → read_line p key anchor i tip last ≡ q
            → IsClean (then_more p key q (λ next. read_from p key anchor (i + 1) next []))
            → declared anchor (i + 0) last ≡ ok tip
        go (err d) e k = absurd k
        go (ok out) e k =
            let same : i + 0 ≡ i = omega arith in
            rw same (read_line-declared anchor i tip last out e).0
    read_from-declared anchor i tip (x ∷ xs) last c =
        go (λ next k. read_from-declared anchor (i + 1) next xs last k)
          (read_line p key anchor i tip x) refl c
      where
        go :
            ((next : Text)
              → IsClean (read_from p key anchor (i + 1) next (xs ++ last ∷ []))
              → declared anchor (i + 1 + length xs) last ≡ ok (chain_from p next xs))
            → (q : Result (StoreEvent × Text)) → read_line p key anchor i tip x ≡ q
            → IsClean
                (then_more p key q (λ next. read_from p key anchor (i + 1) next (xs ++ last ∷ [])))
            → declared anchor (i + suc (length xs)) last ≡ ok (chain_from p (chain_next p tip x) xs)
        go later (err d) e k = absurd k
        go later (ok (event, next)) e k =
            let linked = read_line-declared anchor i tip x (event, next) e in
            let place : i + suc (length xs) ≡ i + 1 + length xs = omega arith in
            rw (place, ← linked.1) (later next k)

    -- Two logs of one length that are read without an error and end in the same line have all lines
    -- in common, unless at one place the two texts that the chain hashes there, each the tip before the
    -- place with the line that stands at it in one of the logs, are different and have the same hash.
    pub read_from-binds :
        (laws : IsPlatform p) (anchor : ℕ) (xs ys : List Text) (last : Text)
        → length xs ≡ length ys
        → IsClean (read_from p key anchor 0 (chain_genesis p) (xs ++ last ∷ []))
        → IsClean (read_from p key anchor 0 (chain_genesis p) (ys ++ last ∷ []))
        → (xs ≡ ys) ⊎ Collides (chain_genesis p) (chain_genesis p) xs ys
    read_from-binds laws anchor xs ys last n cx cy =
        let left = read_from-declared anchor 0 (chain_genesis p) xs last cx in
        let right = read_from-declared anchor 0 (chain_genesis p) ys last cy in
        let right' : declared anchor (0 + length xs) last ≡ ok (chain_from p (chain_genesis p) ys) =
          rw n right in
        let tips : chain_from p (chain_genesis p) xs ≡ chain_from p (chain_genesis p) ys = cc in
        elim (chain_from-cancel laws xs ys (chain_genesis p) (chain_genesis p) n (laws.hash_form _)
          (laws.hash_form _) tips) [ inl same ↦ inl same.1 | inr c ↦ inr c ]
