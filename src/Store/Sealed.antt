-- ===== src/Store/Sealed.antt =====
-- packages/store/src/record.ts: a line opens to what was sealed into it, where it was sealed for.
use copy_clipboard_app.Base.{
  ℕ, zero, suc, ◌+◌, ◌-◌, ◌/◌, ◌%◌, ◌^◌, ◌<◌, codes, false, some, List, [], ◌∷◌, ◌++◌, ◌≡◌, ◌≢◌,
  refl, sym, ap, ◌∙◌, length, length-append, take, drop, ltb, text_eq, arith,
}
use mathlib.Core.HLevel.{Discrete}
use mathlib.Core.List.{append_assoc}
use copy_clipboard_app.Protocol.Types.{Bytes}
use copy_clipboard_app.Protocol.Result.{ok, err, store_decrypt}
use copy_clipboard_app.Store.Platform.{Platform, IsPlatform}
use copy_clipboard_app.Store.Record.{
  StoreEventKind, kind_text, record_kinds, big_endian, record_aad, opened_or, seal_record, open_raw,
  open_record,
}
use copy_clipboard_app.Store.Payload.{kind_named}

module _ {ℓ} {A : Type ℓ} where
  pub take-append : (n : ℕ) (xs ys : List A) → length xs ≡ n → take n (xs ++ ys) ≡ xs
  take-append zero [] ys h = refl
  take-append zero (x ∷ xs) ys h = absurd (omega arith)
  take-append (suc n) [] ys h = absurd (omega arith)
  take-append (suc n) (x ∷ xs) ys h = ap (λ l. x ∷ l) (take-append n xs ys (omega arith))

  pub drop-append : (n : ℕ) (xs ys : List A) → length xs ≡ n → drop n (xs ++ ys) ≡ ys
  drop-append zero [] ys h = refl
  drop-append zero (x ∷ xs) ys h = absurd (omega arith)
  drop-append (suc n) [] ys h = absurd (omega arith)
  drop-append (suc n) (x ∷ xs) ys h = drop-append n xs ys (omega arith)

  -- Of two equal texts whose first parts are of one length, the parts are equal.
  pub append-cancel :
      (n : ℕ) (xs xs' ys ys' : List A)
      → length xs ≡ n
      → length xs' ≡ n
      → xs ++ ys ≡ xs' ++ ys'
      → (xs ≡ xs') × (ys ≡ ys')
  append-cancel n xs xs' ys ys' h h' e = (
    sym (take-append n xs ys h) ∙ ap (take n) e ∙ take-append n xs' ys' h',
    sym (drop-append n xs ys h) ∙ ap (drop n) e ∙ drop-append n xs' ys' h',
  )

length-big_endian : (width n : ℕ) → length (big_endian width n) ≡ width
unfolding big_endian
length-big_endian zero n = refl
length-big_endian (suc width) n = omega (
  arith,
  length-append (big_endian width (n / 256)) ((n % 256) ∷ []),
  length-big_endian width (n / 256),
)

-- A number below 256 to the power of the width is in its digits.
pub big_endian-cancel :
    (width m n : ℕ)
    → m < 256 ^ width
    → n < 256 ^ width
    → big_endian width m ≡ big_endian width n
    → m ≡ n
unfolding big_endian
big_endian-cancel zero m n hm hn e = omega arith
big_endian-cancel (suc width) m n hm hn e =
    let (high, low) =
      append-cancel width (big_endian width (m / 256)) (big_endian width (n / 256)) ((m % 256) ∷ [])
        ((n % 256) ∷ []) (length-big_endian width (m / 256)) (length-big_endian width (n / 256))
        e in
    let low' : m % 256 ≡ n % 256 = cc in
    let high' : m / 256 ≡ n / 256 =
      big_endian-cancel width (m / 256) (n / 256) (grind arith) (grind arith) high in
    omega arith

kind_named-kind_text : (k : StoreEventKind) → kind_named (kind_text k) record_kinds ≡ some k
unfolding text_eq
kind_named-kind_text StoreEventKind.item_added = refl
kind_named-kind_text StoreEventKind.item_updated = refl
kind_named-kind_text StoreEventKind.item_deleted = refl
kind_named-kind_text StoreEventKind.checkpoint = refl
kind_named-kind_text StoreEventKind.tab_created = refl
kind_named-kind_text StoreEventKind.tab_deleted = refl

pub kind_text-inj : (k l : StoreEventKind) → kind_text k ≡ kind_text l → k ≡ l
kind_text-inj k l e =
    let same : some k ≡ some l =
      sym (kind_named-kind_text k)
      ∙ ap (λ t. kind_named t record_kinds) e
      ∙ kind_named-kind_text l in
    cc

pub StoreEventKind-discrete : Discrete StoreEventKind
StoreEventKind-discrete = hlevel

-- The additional data of two records is the same only if kind, number and line are.
pub record_aad-inj :
    (i j m n : ℕ) (k l : StoreEventKind)
    → i < 2 ^ 64
    → j < 2 ^ 64
    → m < 2 ^ 64
    → n < 2 ^ 64
    → record_aad i m k ≡ record_aad j n l
    → (i ≡ j) × (m ≡ n) × (k ≡ l)
unfolding record_aad
record_aad-inj i j m n k l hi hj hm hn e =
    let (_, rest) =
      append-cancel 14 (codes "cairn/store/v1") (codes "cairn/store/v1") _ _ refl refl e in
    let (line, rest') =
      append-cancel 8 (big_endian 8 i) (big_endian 8 j) _ _ (length-big_endian 8 i)
        (length-big_endian 8 j) rest in
    let (seq, kind) =
      append-cancel 8 (big_endian 8 m) (big_endian 8 n) _ _ (length-big_endian 8 m)
        (length-big_endian 8 n) rest' in
    (big_endian-cancel 8 i j hi hj line, big_endian-cancel 8 m n hm hn seq, kind_text-inj k l kind)

-- With the line and the number left as they are, only the kind counts.
pub record_aad-kind :
    (i seq : ℕ) (k l : StoreEventKind) → record_aad i seq k ≡ record_aad i seq l → k ≡ l
unfolding record_aad
record_aad-kind i seq k l e =
    let (_, rest) =
      append-cancel 14 (codes "cairn/store/v1") (codes "cairn/store/v1") _ _ refl refl e in
    let (_, rest') =
      append-cancel 8 (big_endian 8 i) (big_endian 8 i) _ _ (length-big_endian 8 i)
        (length-big_endian 8 i) rest in
    let (_, kind) =
      append-cancel 8 (big_endian 8 seq) (big_endian 8 seq) _ _ (length-big_endian 8 seq)
        (length-big_endian 8 seq) rest' in
    kind_text-inj k l kind

-- The parts of what was sealed, as an opening takes them.
pub record IsSplit (nonce ct tag : Bytes) : Type 0 where
  pub long : ltb (length (nonce ++ (ct ++ tag))) 28 ≡ false
  pub head : take 12 (nonce ++ (ct ++ tag)) ≡ nonce
  pub middle : drop 12 (take (length (nonce ++ (ct ++ tag)) - 16) (nonce ++ (ct ++ tag))) ≡ ct
  pub end' : drop (length (nonce ++ (ct ++ tag)) - 16) (nonce ++ (ct ++ tag)) ≡ tag

pub sealed-IsSplit :
    (nonce ct tag : Bytes) → length nonce ≡ 12 → length tag ≡ 16 → IsSplit nonce ct tag
sealed-IsSplit nonce ct tag hn ht =
    let total : length (nonce ++ (ct ++ tag)) ≡ 12 + length ct + 16 =
      omega (arith, length-append nonce (ct ++ tag), length-append ct tag) in
    let behind : length (nonce ++ (ct ++ tag)) - 16 ≡ length (nonce ++ ct) =
      omega (arith, total, length-append nonce ct) in
    let regroup : (nonce ++ ct) ++ tag ≡ nonce ++ (ct ++ tag) = append_assoc nonce ct tag in
    record {
      long = ground (arith, total);
      head = take-append 12 nonce (ct ++ tag) hn;
      middle =
          rw (behind, ← regroup)
            (rw (take-append (length (nonce ++ ct)) (nonce ++ ct) tag refl)
              (drop-append 12 nonce ct hn));
      end' = rw (behind, ← regroup) (drop-append (length (nonce ++ ct)) (nonce ++ ct) tag refl);
    }

module _ (p : Platform) (laws : IsPlatform p) (key : Bytes) where
  open_raw-sealed :
      (nonce ct tag aad : Bytes)
      → length nonce ≡ 12
      → length tag ≡ 16
      → open_raw p key (nonce ++ (ct ++ tag)) aad ≡ opened_or (p.decrypt key nonce aad tag ct)
  open_raw-sealed nonce ct tag aad hn ht =
      let s = sealed-IsSplit nonce ct tag hn ht in rw s.long (rw (s.head, s.end', s.middle) refl)

  module _ (nonce : Bytes) (i seq : ℕ) (k : StoreEventKind) (plain : Bytes)
      (hn : length nonce ≡ 12) where
    pub open_record-sealed :
        open_record p key i seq k (seal_record p key nonce i seq k plain) ≡ ok plain
    unfolding open_record seal_record
    open_record-sealed =
        let aad = record_aad i seq k in
        rw
          (laws.decoded
            (nonce ++ (p.encrypt key nonce aad plain ++ p.auth_tag key nonce aad plain)))
          (open_raw-sealed nonce (p.encrypt key nonce aad plain) (p.auth_tag key nonce aad plain)
              aad hn (laws.tag_length key nonce aad plain)
            ∙ ap opened_or (laws.opened key nonce aad plain))

    pub open_record-other :
        (j m : ℕ) (l : StoreEventKind)
        → record_aad i seq k ≢ record_aad j m l
        → open_record p key j m l (seal_record p key nonce i seq k plain) ≡ err store_decrypt
    unfolding open_record seal_record
    open_record-other j m l apart =
        let aad = record_aad i seq k in
        rw
          (laws.decoded
            (nonce ++ (p.encrypt key nonce aad plain ++ p.auth_tag key nonce aad plain)))
          (open_raw-sealed nonce (p.encrypt key nonce aad plain) (p.auth_tag key nonce aad plain)
              (record_aad j m l) hn (laws.tag_length key nonce aad plain)
            ∙ ap opened_or (laws.unopened key nonce aad (record_aad j m l) plain apart))
