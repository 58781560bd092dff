-- ===== src/Keyring/Zeroed.antt =====
-- packages/keyring/src/keyring.ts: what is left of keys in memory, and the mode that is reported.
use copy_clipboard_app.Base.{
  Text, ◌≡◌, refl, inl, inr, Option, none, some, List, [], ◌∷◌, All, Bool-cases, Option-cases, sym,
  subst, ℕ,
}
use copy_clipboard_app.Protocol.Types.{Bytes}
use copy_clipboard_app.Protocol.Result.{ok, err}
use copy_clipboard_app.Keyring.Backend.{AgentPlatform, probe_backend, is_unprotected}
use copy_clipboard_app.Keyring.KeyFile.{Crypto}
use copy_clipboard_app.Keyring.Unlocking.{
  Keyring, Moment, Outcome, returned, threw, get_held, unlock_held, get_or_create_master_key,
  unlock_with_passphrase, lock, lock_held, is_by_passphrase, rekey_after_corruption, rekeyed,
  emptied, count_lines,
}
use copy_clipboard_app.Keyring.Fits.{zeroed-IsZero, IsTidy, IsReturned, get-Fits, unlock-Fits}
use copy_clipboard_app.Keyring.Calls.{
  KeyringCall, gets, unlocks, rekeys, locks, restarts, Answer, gave, lost, done, step, run,
}

abbrev pub IsAnswered : Answer → Type 0
IsAnswered (gave o) = IsReturned o
IsAnswered (lost o) = IsReturned o
IsAnswered done = Unit

module _ (c : Crypto) where
  -- A call that holds a key already leaves everything as it is.
  get-IsTidy :
      (platform : AgentPlatform) (m : Moment) (s : Keyring)
      → IsReturned (get_or_create_master_key c platform m s).0
      → IsTidy s
      → IsTidy (get_or_create_master_key c platform m s).1
  unfolding get_or_create_master_key
  get-IsTidy platform m s = elim (Option-cases s.master_key) [
    | inl e ↦ (get-Fits c platform m s e).2
    | inr (k, e) ↦
        subst (λ o. let r = get_held c platform m o s in IsReturned r.0 → IsTidy s → IsTidy r.1)
          (sym e) (λ r t. t)
  ]

  unlock-IsTidy :
      (m : Moment) (phrase : Text) (s : Keyring)
      → IsReturned (unlock_with_passphrase c m phrase s).0
      → IsTidy s
      → IsTidy (unlock_with_passphrase c m phrase s).1
  unfolding unlock_with_passphrase
  unlock-IsTidy m phrase s = elim (Option-cases s.master_key) [
    | inl e ↦ (unlock-Fits c m phrase s e).2
    | inr (k, e) ↦
        subst (λ o. let r = unlock_held c m phrase o s in IsReturned r.0 → IsTidy s → IsTidy r.1)
          (sym e)
          (elim (Bool-cases (is_by_passphrase c s.mode)) [
            | inl d ↦ rw d (λ r t. t)
            | inr d ↦ rw d (λ r t. t)
          ])
  ]

lock_held-IsTidy :
    (o : Option Bytes) (s : Keyring) → s.master_key ≡ o → IsTidy s → IsTidy (lock_held o s)
lock_held-IsTidy none s e t = (t.0, rw e tt)
lock_held-IsTidy (some key) s e t = ((zeroed-IsZero key, t.0), tt)

rekeyed-IsTidy :
    (n : ℕ) (o : Outcome Bytes) (s : Keyring)
    → (IsReturned o → IsTidy s)
    → IsReturned (rekeyed n (o, s)).0
    → IsTidy (rekeyed n (o, s)).1
rekeyed-IsTidy n (returned (ok key)) s h r = h tt
rekeyed-IsTidy n (returned (err code)) s h r = h tt
rekeyed-IsTidy n threw s h r = absurd r

module _ (c : Crypto) (platform : AgentPlatform) where
  rekey-IsTidy :
      (m : Moment) (s : Keyring)
      → IsTidy s
      → IsReturned (rekey_after_corruption c platform m s).0
      → IsTidy (rekey_after_corruption c platform m s).1
  unfolding rekey_after_corruption lock get_or_create_master_key
  rekey-IsTidy m s t =
      let cleared = emptied (lock s) in
      let tidy : IsTidy cleared = lock_held-IsTidy s.master_key s refl t in
      elim (Bool-cases (is_unprotected (probe_backend platform m.probe).strength)) [
        | inl e ↦ rw e (λ r. tidy)
        | inr e ↦ rw e (
            rekeyed-IsTidy (count_lines s.disk.log) _ _
              (λ r. get-IsTidy c platform m cleared r tidy))
      ]

  step-IsTidy :
      (call : KeyringCall) (s : Keyring)
      → IsTidy s
      → IsAnswered (step c platform call s).0
      → IsTidy (step c platform call s).1
  unfolding step lock get_or_create_master_key unlock_with_passphrase
  step-IsTidy (gets m) s t a = get-IsTidy c platform m s a t
  step-IsTidy (unlocks m phrase) s t a = unlock-IsTidy c m phrase s a t
  step-IsTidy (rekeys m) s t a = rekey-IsTidy m s t a
  step-IsTidy locks s t a = lock_held-IsTidy s.master_key s refl t
  step-IsTidy restarts s t a = (tt, tt)

  -- As long as no call throws, whatever calls come and whenever a key takes the place of another: every
  -- byte buffer that held a key, a candidate or a key that was refused, and that the keyring has let go
  -- of, is zero; and the mode is `locked` exactly if no key is in use. The base64 strings of a key,
  -- which are not wiped, are not followed.
  pub run-IsTidy :
      (calls : List KeyringCall) (s : Keyring)
      → IsTidy s
      → All IsAnswered (run c platform calls s).0
      → IsTidy (run c platform calls s).1
  unfolding run
  run-IsTidy [] s t a = t
  run-IsTidy (call ∷ calls) s t a = run-IsTidy calls _ (step-IsTidy call s t a.0) a.1
