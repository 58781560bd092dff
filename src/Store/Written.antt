-- ===== src/Store/Written.antt =====
-- packages/store/src/log-store.ts: the state of an open store in terms of the events of its log, and
-- what `readAll` gives.
use copy_clipboard_app.Base.{
  ℕ, suc, ◌+◌, ◌<◌, ◌≡◌, refl, ap, Text, true, some, List, [], ◌∷◌, ◌++◌, length, arith, All,
  Bool-cases, inl, inr, if◌then◌else◌,
}
use copy_clipboard_app.Protocol.Types.{Bytes, StoreEvent}
use copy_clipboard_app.Protocol.Result.{Result, ok, err, store_corrupt}
use copy_clipboard_app.History.Ports.{IsClean}
use copy_clipboard_app.Store.Platform.{Platform, IsPlatform, is_hash}
use copy_clipboard_app.Store.Chain.{chain_genesis, chain_next, chain_from}
use copy_clipboard_app.Store.Record.{StoreEventKind, seal_record}
use copy_clipboard_app.Store.Log.{Store, read_from, read_all}
use copy_clipboard_app.Store.Events.{seq_of, kind_of, is_readable, line_of, read_line-line_of}
use copy_clipboard_app.Store.Files.{OneLine, text_of_lines, read_lines_whole}

-- An event of the log, with the nonce that it was sealed with.
pub record Entry : Type 0 where
  pub nonce : Bytes
  pub event : StoreEvent

-- Entries that stand from the line `i` on in a log that begins with the number `anchor`.
abbrev pub IsNumbered : ℕ → ℕ → List Entry → Type 0
IsNumbered anchor i [] = Unit
IsNumbered anchor i (x ∷ xs) =
    (length x.nonce ≡ 12) × (seq_of x.event ≡ anchor + i) × IsNumbered anchor (suc i) xs

-- The first entry is the checkpoint of its generation.
abbrev pub IsHeaded : List Entry → Type 0
IsHeaded [] = ⊥
IsHeaded (x ∷ xs) = kind_of x.event ≡ StoreEventKind.checkpoint

pub IsHeaded-append : (xs : List Entry) (x : Entry) → IsHeaded xs → IsHeaded (xs ++ x ∷ [])
IsHeaded-append [] x h = absurd h
IsHeaded-append (y ∷ xs) x h = h

-- What a reader makes of the entries: it stops at the first that it refuses.
abbrev pub events_of : List Entry → List (Result StoreEvent)
events_of [] = []
events_of (x ∷ xs) =
    if is_readable x.event then ok x.event ∷ events_of xs else err store_corrupt ∷ []

pub events_of-append :
    (xs : List Entry) (x : Entry)
    → IsClean (events_of xs)
    → is_readable x.event ≡ true
    → events_of (xs ++ x ∷ []) ≡ events_of xs ++ ok x.event ∷ []
events_of-append [] x c h = rw h refl
events_of-append (y ∷ xs) x c h = elim (Bool-cases (is_readable y.event)) [
  | inl e ↦ rw e (ap (λ l. ok y.event ∷ l) (events_of-append xs x (rw e at c) h))
  | inr e ↦ absurd (rw e at c)
]

pub IsNumbered-append :
    (anchor i : ℕ) (xs : List Entry) (x : Entry)
    → IsNumbered anchor i xs
    → length x.nonce ≡ 12
    → seq_of x.event ≡ anchor + (i + length xs)
    → IsNumbered anchor i (xs ++ x ∷ [])
IsNumbered-append anchor i [] x h hn hs = (hn, omega (arith, hs), tt)
IsNumbered-append anchor i (y ∷ xs) x h hn hs =
    (h.0, h.1, IsNumbered-append anchor (suc i) xs x h.2 hn (omega (arith, hs)))

module _ (p : Platform) (key : Bytes) where
  -- The lines of the entries, from the line `i` on and behind a tip.
  abbrev pub lines_from : ℕ → Text → List Entry → List Text
  lines_from i tip [] = []
  lines_from i tip (x ∷ xs) =
      line_of p key x.nonce i tip x.event
      ∷ lines_from (suc i) (chain_next p tip (line_of p key x.nonce i tip x.event)) xs

  abbrev pub tip_after : ℕ → Text → List Entry → Text
  tip_after i tip [] = tip
  tip_after i tip (x ∷ xs) =
      tip_after (suc i) (chain_next p tip (line_of p key x.nonce i tip x.event)) xs

  -- The store holds the log of these entries, and knows its length and its tip.
  pub record IsOpen (s : Store) (xs : List Entry) : Type 0 where
    pub written : s.log ≡ some (text_of_lines (lines_from 0 (chain_genesis p) xs))
    pub numbered : IsNumbered s.anchor_seq 0 xs
    pub counted : s.line_count ≡ length xs
    pub linked : s.tip_hash ≡ tip_after 0 (chain_genesis p) xs
    pub anchored : 0 < s.anchor_seq
    pub headed : IsHeaded xs

  pub length-lines_from :
      (i : ℕ) (tip : Text) (xs : List Entry) → length (lines_from i tip xs) ≡ length xs
  length-lines_from i tip [] = refl
  length-lines_from i tip (x ∷ xs) = ap suc (length-lines_from (suc i) _ xs)

  pub chain_from-lines_from :
      (i : ℕ) (tip : Text) (xs : List Entry)
      → chain_from p tip (lines_from i tip xs) ≡ tip_after i tip xs
  unfolding chain_from
  chain_from-lines_from i tip [] = refl
  chain_from-lines_from i tip (x ∷ xs) = chain_from-lines_from (suc i) _ xs

  pub lines_from-append :
      (i : ℕ) (tip : Text) (xs : List Entry) (x : Entry)
      → lines_from i tip (xs ++ x ∷ [])
        ≡ lines_from i tip xs
          ++ line_of p key x.nonce (i + length xs) (tip_after i tip xs) x.event ∷ []
  lines_from-append i tip [] x = let e : i + 0 ≡ i = omega arith in rw e refl
  lines_from-append i tip (y ∷ xs) x =
      let e : i + suc (length xs) ≡ suc i + length xs = omega arith in
      let line = line_of p key y.nonce i tip y.event in
      rw e (ap (λ l. line ∷ l) (lines_from-append (suc i) (chain_next p tip line) xs x))

  pub tip_after-append :
      (i : ℕ) (tip : Text) (xs : List Entry) (x : Entry)
      → tip_after i tip (xs ++ x ∷ [])
        ≡ chain_next p
            (tip_after i tip xs)
            (line_of p key x.nonce (i + length xs) (tip_after i tip xs) x.event)
  tip_after-append i tip [] x = let e : i + 0 ≡ i = omega arith in rw e refl
  tip_after-append i tip (y ∷ xs) x =
      let e : i + suc (length xs) ≡ suc i + length xs = omega arith in
      rw e (tip_after-append (suc i) (chain_next p tip (line_of p key y.nonce i tip y.event)) xs x)

  module _ (laws : IsPlatform p) where
    pub lines_from-OneLine :
        (i : ℕ) (tip : Text) (xs : List Entry) → All OneLine (lines_from i tip xs)
    unfolding seal_record
    lines_from-OneLine i tip [] = tt
    lines_from-OneLine i tip (x ∷ xs) = (laws.one_line _, lines_from-OneLine (suc i) _ xs)

    pub tip_after-hash :
        (i : ℕ) (tip : Text) (xs : List Entry)
        → is_hash tip ≡ true
        → is_hash (tip_after i tip xs) ≡ true
    tip_after-hash i tip [] h = h
    tip_after-hash i tip (x ∷ xs) h = tip_after-hash (suc i) _ xs (laws.hash_form _)

    pub read_from-lines_from :
        (anchor i : ℕ) (tip : Text) (xs : List Entry)
        → is_hash tip ≡ true
        → IsNumbered anchor i xs
        → read_from p key anchor i tip (lines_from i tip xs) ≡ events_of xs
    unfolding read_from
    read_from-lines_from anchor i tip [] ht h = refl
    read_from-lines_from anchor i tip (x ∷ xs) ht h =
        let line = line_of p key x.nonce i tip x.event in
        let next = chain_next p tip line in
        let e : i + 1 ≡ suc i = omega arith in
        rw (read_line-line_of p laws key anchor i tip x.nonce x.event h.0 ht h.1, e)
          (elim (Bool-cases (is_readable x.event)) [
            | inl y ↦ rw y (
                ap (λ l. ok x.event ∷ l)
                  (read_from-lines_from anchor (suc i) next xs (laws.hash_form _) h.2))
            | inr n ↦ rw n refl
          ])

    -- What is read of an open store are the events of its log.
    pub read_all-IsOpen :
        (s : Store) (xs : List Entry) → IsOpen s xs → read_all p key s ≡ events_of xs
    unfolding read_all
    read_all-IsOpen s xs o = rw o.written (
        rw
          (read_lines_whole (lines_from 0 (chain_genesis p) xs)
            (lines_from-OneLine 0 (chain_genesis p) xs))
          (read_from-lines_from s.anchor_seq 0 (chain_genesis p) xs (laws.hash_form _) o.numbered))
