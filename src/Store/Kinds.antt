-- ===== src/Store/Kinds.antt =====
-- packages/store/src/record.ts: a sealed line opens under the line, the number and the kind that it
-- was sealed for, and under no others; the trial of each kind finds the one.
use copy_clipboard_app.Base.{
  ℕ, ◌^◌, ◌<◌, ◌≡◌, refl, inl, inr, List, [], ◌∷◌, length, ◌⊎◌, Some, either, subst, sym,
}
use native.Mathlib.Decide.{ℕ_discrete}
use copy_clipboard_app.Protocol.Types.{Bytes}
use copy_clipboard_app.Protocol.Result.{ok, err, store_decrypt}
use copy_clipboard_app.Store.Platform.{Platform, IsPlatform}
use copy_clipboard_app.Store.Record.{
  StoreEventKind, record_kinds, seal_record, as_kind, open_record, open_kinds, open_record_any_kind,
}
use copy_clipboard_app.Store.Sealed.{
  record_aad-inj, record_aad-kind, StoreEventKind-discrete, open_record-sealed, open_record-other,
}

every_kind : (k : StoreEventKind) → Some (λ l. l ≡ k) record_kinds
every_kind StoreEventKind.item_added = inl refl
every_kind StoreEventKind.item_updated = inr (inl refl)
every_kind StoreEventKind.item_deleted = inr (inr (inl refl))
every_kind StoreEventKind.checkpoint = inr (inr (inr (inl refl)))
every_kind StoreEventKind.tab_created = inr (inr (inr (inr (inl refl))))
every_kind StoreEventKind.tab_deleted = inr (inr (inr (inr (inr (inl refl)))))

module _ (p : Platform) (laws : IsPlatform p) (key : Bytes) where
  module _ (nonce : Bytes) (i seq : ℕ) (k : StoreEventKind) (plain : Bytes)
      (hn : length nonce ≡ 12) where
    open_kinds-sealed :
        (kinds : List StoreEventKind)
        → Some (λ l. l ≡ k) kinds
        → open_kinds p key kinds i seq (seal_record p key nonce i seq k plain)
          ≡ ok (record { kind = k; payload = plain })
    unfolding open_kinds
    open_kinds-sealed [] h = absurd h
    open_kinds-sealed (l ∷ kinds) h = elim (StoreEventKind-discrete l k) [
      | yes e ↦
          subst
            (λ l'.
              as_kind l' (open_record p key i seq l' (seal_record p key nonce i seq k plain))
                (open_kinds p key kinds i seq (seal_record p key nonce i seq k plain))
              ≡ ok (record { kind = k; payload = plain }))
            (sym e) (rw (open_record-sealed p laws key nonce i seq k plain hn) refl)
      | no ne ↦
          rw
            (open_record-other p laws key nonce i seq k plain hn i seq l
              (λ e. ne (sym (record_aad-kind i seq k l e))))
            (open_kinds-sealed kinds (either (λ e. absurd (ne e)) (λ later. later) h))
    ]

    pub open_any-sealed :
        open_record_any_kind p key i seq (seal_record p key nonce i seq k plain)
        ≡ ok (record { kind = k; payload = plain })
    unfolding open_record_any_kind
    open_any-sealed = open_kinds-sealed record_kinds (every_kind k)

  -- A line that was sealed opens to its payload if it is opened as the line, the number and the kind
  -- it was sealed for, and fails to authenticate as any other: line indices and numbers are below
  -- 2^64, and a nonce has 12 bytes.
  pub open_record_exactly :
      (nonce plain : Bytes) (i j seq seq' : ℕ) (k l : StoreEventKind)
      → length nonce ≡ 12
      → i < 2 ^ 64
      → j < 2 ^ 64
      → seq < 2 ^ 64
      → seq' < 2 ^ 64
      → ((i ≡ j)
          × (seq ≡ seq')
          × (k ≡ l)
          × (open_record p key j seq' l (seal_record p key nonce i seq k plain) ≡ ok plain))
        ⊎ (((i ≡ j) × (seq ≡ seq') × (k ≡ l) → ⊥)
            × (open_record p key j seq' l (seal_record p key nonce i seq k plain)
                ≡ err store_decrypt))
  open_record_exactly nonce plain i j seq seq' k l hn hi hj hs hs' = elim (ℕ_discrete i j) [
    | no ne ↦ inr ((λ e. ne e.0), other (λ e. ne e.0))
    | yes ei ↦ elim (ℕ_discrete seq seq') [
      | no ne ↦ inr ((λ e. ne e.1), other (λ e. ne e.1))
      | yes es ↦ elim (StoreEventKind-discrete k l) [
        | no ne ↦ inr ((λ e. ne e.2), other (λ e. ne e.2))
        | yes ek ↦ inl (
          ei,
          es,
          ek,
          subst
              (λ j'. open_record p key j' seq' l (seal_record p key nonce i seq k plain) ≡ ok plain)
              ei
              (subst
                (λ m. open_record p key i m l (seal_record p key nonce i seq k plain) ≡ ok plain) es
                (subst
                  (λ k'.
                    open_record p key i seq k' (seal_record p key nonce i seq k plain) ≡ ok plain)
                  ek (open_record-sealed p laws key nonce i seq k plain hn))),
        )
      ]
    ]
  ]
    where
      other :
          ((i ≡ j) × (seq ≡ seq') × (k ≡ l) → ⊥)
          → open_record p key j seq' l (seal_record p key nonce i seq k plain) ≡ err store_decrypt
      other apart =
          open_record-other p laws key nonce i seq k plain hn j seq' l
            (λ e. apart (record_aad-inj i j seq seq' k l hi hj hs hs' e))
