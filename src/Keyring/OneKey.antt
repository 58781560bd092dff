-- ===== src/Keyring/OneKey.antt =====
-- packages/keyring/src/keyring.ts: a key file yields one key.
use copy_clipboard_app.Base.{
  Text, ◌≡◌, refl, sym, ◌∙◌, subst, inl, inr, Option, none, some, List, [], ◌∷◌, All, Bool-cases,
  Option-cases, length,
}
use copy_clipboard_app.Protocol.Types.{Bytes}
use copy_clipboard_app.Protocol.Result.{ok, err}
use copy_clipboard_app.Keyring.Backend.{AgentPlatform}
use copy_clipboard_app.Keyring.KeyFile.{
  KeyFileMode, os_keyring, passphrase, KeyFileRead, absent, malformed, present, Crypto, IsCrypto,
  read_key_file, master_key_bytes,
}
use copy_clipboard_app.Keyring.Unlocking.{
  Keyring, Moment, Outcome, returned, threw, key_verifier, get_or_create_master_key,
  unlock_with_passphrase, lock, unlock_held, lock_held, is_by_passphrase,
}
use copy_clipboard_app.Keyring.Calls.{
  KeyringCall, gets, unlocks, rekeys, locks, restarts, Answer, gave, lost, done, step, run,
}
use copy_clipboard_app.Keyring.Fits.{
  Binds, BindsRead, BindsDisk, Yields, Fits, get-Fits, unlock-Fits,
}

-- No two keys of 32 bytes have the same verifier. Of other lengths nothing is supposed: HMAC pads a
-- short key and hashes a long one.
abbrev pub IsCollisionFree : Crypto → Type 0
IsCollisionFree c =
    (k l : Bytes)
    → length k ≡ master_key_bytes
    → length l ≡ master_key_bytes
    → key_verifier c k ≡ key_verifier c l
    → k ≡ l

-- The call does not begin a new store.
abbrev pub KeepsStore : KeyringCall → Type 0
KeepsStore (rekeys m) = ⊥
KeepsStore (gets m) = Unit
KeepsStore (unlocks m phrase) = Unit
KeepsStore locks = Unit
KeepsStore restarts = Unit

-- A key that the answer gives is this one.
abbrev pub Gives : Bytes → Answer → Type 0
Gives key (gave (returned (ok k))) = k ≡ key
Gives key (gave (returned (err code))) = Unit
Gives key (gave threw) = Unit
Gives key (lost o) = Unit
Gives key done = Unit

module _ (c : Crypto) (law : IsCrypto c) (apart : IsCollisionFree c) where
  Binds-unique :
      (k l : Bytes) (mode : KeyFileMode) (w v : Option Text)
      → Binds c k mode w v
      → Binds c l mode w v
      → k ≡ l
  Binds-unique k l os_keyring none v h j = absurd h
  Binds-unique k l os_keyring (some w) v h j = cc
  Binds-unique k l passphrase w none h j = absurd h
  Binds-unique k l passphrase w (some v) h j = apart k l h.1 j.1 (h.0 ∙ sym j.0)

  BindsRead-unique : (k l : Bytes) (r : KeyFileRead) → BindsRead c k r → BindsRead c l r → k ≡ l
  BindsRead-unique k l absent h j = absurd h
  BindsRead-unique k l malformed h j = absurd h
  BindsRead-unique k l (present f) h j = Binds-unique k l f.mode f.wrapped f.verifier h j

  abbrev Holds : Bytes → Option Bytes → Type 0
  Holds key none = Unit
  Holds key (some k) = k ≡ key

  abbrev IsKeyed : Bytes → Keyring → Type 0
  IsKeyed key s = BindsDisk c key s × Holds key s.master_key

  Yields-IsKeyed :
      (key : Bytes) (o : Outcome Bytes) (s : Keyring)
      → BindsDisk c key s
      → Yields c o s
      → Gives key (gave o) × IsKeyed key s
  Yields-IsKeyed key (returned (ok k)) s b y =
      let e = BindsRead-unique k key (read_key_file c s.disk.key_file) (y.1 law) b in
      (e, (b, rw y.0 e))
  Yields-IsKeyed key (returned (err code)) s b y = (tt, (b, rw y tt))
  Yields-IsKeyed key threw s b y = (tt, (b, rw y tt))

  Fits-IsKeyed :
      (key : Bytes) (s : Keyring) (r : Outcome Bytes × Keyring)
      → BindsDisk c key s
      → Fits c s r
      → Gives key (gave r.0) × IsKeyed key r.1
  Fits-IsKeyed key s r b fits = Yields-IsKeyed key r.0 r.1 (fits.0 key b) fits.1

  lock_held-Binds :
      (key : Bytes) (o : Option Bytes) (s : Keyring)
      → IsKeyed key s
      → o ≡ s.master_key
      → IsKeyed key (lock_held o s)
  lock_held-Binds key none s h e = (h.0, h.1)
  lock_held-Binds key (some k) s h e = (h.0, tt)

  get-IsKeyed :
      (platform : AgentPlatform) (m : Moment) (key : Bytes) (s : Keyring)
      → IsKeyed key s
      → (let r = get_or_create_master_key c platform m s in Gives key (gave r.0) × IsKeyed key r.1)
  unfolding get_or_create_master_key
  get-IsKeyed platform m key s h = elim (Option-cases s.master_key) [
    | inl e ↦ Fits-IsKeyed key s _ h.0 (get-Fits c platform m s e)
    | inr (k, e) ↦
        let same : Holds key (some k) = subst (Holds key) e h.1 in rw e (same, (h.0, same))
  ]

  unlock-IsKeyed :
      (m : Moment) (phrase : Text) (key : Bytes) (s : Keyring)
      → IsKeyed key s
      → (let r = unlock_with_passphrase c m phrase s in Gives key (gave r.0) × IsKeyed key r.1)
  unfolding unlock_with_passphrase
  unlock-IsKeyed m phrase key s h = elim (Option-cases s.master_key) [
    | inl e ↦ Fits-IsKeyed key s _ h.0 (unlock-Fits c m phrase s e)
    | inr (k, e) ↦
        let same : Holds key (some k) = subst (Holds key) e h.1 in
        subst (λ o. let r = unlock_held c m phrase o s in Gives key (gave r.0) × IsKeyed key r.1)
          (sym e)
          (elim (Bool-cases (is_by_passphrase c s.mode)) [
            | inl d ↦ rw d (same, h)
            | inr d ↦ rw d (tt, h)
          ])
  ]

  step-IsKeyed :
      (platform : AgentPlatform) (key : Bytes) (call : KeyringCall) (s : Keyring)
      → KeepsStore call
      → IsKeyed key s
      → (let r = step c platform call s in Gives key r.0 × IsKeyed key r.1)
  unfolding step lock
  step-IsKeyed platform key (gets m) s k h = get-IsKeyed platform m key s h
  step-IsKeyed platform key (unlocks m phrase) s k h = unlock-IsKeyed m phrase key s h
  step-IsKeyed platform key locks s k h = (tt, lock_held-Binds key s.master_key s h refl)
  step-IsKeyed platform key restarts s k h = (tt, (h.0, tt))
  step-IsKeyed platform key (rekeys m) s k h = absurd k

  run-Gives :
      (platform : AgentPlatform) (key : Bytes) (calls : List KeyringCall) (s : Keyring)
      → All KeepsStore calls
      → IsKeyed key s
      → All (Gives key) (run c platform calls s).0
  unfolding run
  run-Gives platform key [] s k h = tt
  run-Gives platform key (call ∷ calls) s k h =
      let now = step-IsKeyed platform key call s k.0 h in
      (now.0, run-Gives platform key calls _ k.1 now.1)

  yielded :
      (key : Bytes) (o : Outcome Bytes) (s : Keyring)
      → gave o ≡ gave (returned (ok key))
      → Yields c o s
      → IsKeyed key s
  yielded key (returned (ok k)) s e y =
      let same : k ≡ key = cc in (subst (λ x. BindsDisk c x s) same (y.1 law), rw y.0 same)
  yielded key (returned (err code)) s e y = cc
  yielded key threw s e y = cc

  -- Once a call that found the keyring locked gave a key, whether it made it, unwrapped it or derived
  -- it, every key that later calls give is that one: whatever calls, locks and restarts come, whatever
  -- passphrases are tried, and whatever writes fail, as long as no call begins a new store. It is
  -- supposed that no two keys of 32 bytes have the same verifier.
  pub one_key :
      (platform : AgentPlatform) (first : KeyringCall) (key : Bytes) (s : Keyring)
      → s.master_key ≡ none
      → (step c platform first s).0 ≡ gave (returned (ok key))
      → (calls : List KeyringCall) → All KeepsStore calls
      → All (Gives key) (run c platform calls (step c platform first s).1).0
  unfolding step
  one_key platform (gets m) key s h e calls k =
      run-Gives platform key calls _ k (yielded key _ _ e (get-Fits c platform m s h).1)
  one_key platform (unlocks m phrase) key s h e calls k =
      run-Gives platform key calls _ k (yielded key _ _ e (unlock-Fits c m phrase s h).1)
  one_key platform (rekeys m) key s h e calls k = cc
  one_key platform locks key s h e calls k = cc
  one_key platform restarts key s h e calls k = cc
