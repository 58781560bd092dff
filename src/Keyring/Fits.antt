-- ===== src/Keyring/Fits.antt =====
-- packages/keyring/src/keyring.ts: the calls that find the keyring locked, branch by branch. The key
-- that they give, the key file that they leave and the buffers that they wipe.
use copy_clipboard_app.Base.{
  Text, text_eq→eq, Bool, true, ◌&&◌, ◌≡◌, refl, sym, subst, inl, inr, Option, none, some, [], ◌∷◌,
  All, length, ◌==◌, ltb, arith, if◌then◌else◌, Bool-cases,
}
use copy_clipboard_app.Protocol.Types.{Bytes}
use copy_clipboard_app.Protocol.Result.{
  ErrorCode, ok, err, keyring_unavailable, keyring_weak_backend, keyring_bad_passphrase,
  keyring_locked,
}
use copy_clipboard_app.Keyring.Backend.{
  AgentPlatform, BackendReport, probe_backend, is_unprotected, is_basic_text,
}
use copy_clipboard_app.Keyring.KeyFile.{
  KeyFileMode, os_keyring, passphrase, KeyFileRead, absent, malformed, present, Crypto, IsCrypto,
  read_key_file, serialise_key_file, read_key_file-serialise_key_file, master_key_bytes,
  passphrase_salt_bytes, min_passphrase_chars,
}
use copy_clipboard_app.Keyring.Unlocking.{
  KeyringMode, Keyring, Moment, Outcome, returned, threw, Write, complete, untouched, torn,
  store_key, wrapped_file, derived_file, key_verifier, verifier_matches, derive_key_from_passphrase,
  accept_key, unwrapped, unwrap_in, open_wrapped, probed, get_or_create_master_key, verified,
  verify_in, open_derived, unlock_with_passphrase, get_held, unlock_held, refused, release, zeroed,
  unlocked, locked,
}

abbrev pub IsZero : Bytes → Type 0
IsZero bytes = All (λ b. b ≡ 0) bytes

-- The mode is `locked` exactly if there is no key.
abbrev pub Agrees : Option Bytes → KeyringMode → Type 0
Agrees none locked = Unit
Agrees none KeyringMode.os_keyring = ⊥
Agrees none KeyringMode.passphrase = ⊥
Agrees (some key) locked = ⊥
Agrees (some key) KeyringMode.os_keyring = Unit
Agrees (some key) KeyringMode.passphrase = Unit

-- Every buffer that the keyring has let go of is zero, and the mode agrees with the key.
abbrev pub IsTidy : Keyring → Type 0
IsTidy s = All IsZero s.released × Agrees s.master_key s.mode

abbrev pub IsReturned : {A : Type 0} → Outcome A → Type 0
IsReturned (returned r) = Unit
IsReturned threw = ⊥

pub zeroed-IsZero : (key : Bytes) → IsZero (zeroed key)
zeroed-IsZero [] = tt
zeroed-IsZero (b ∷ bs) = (refl, zeroed-IsZero bs)

pub and-right : (a b : Bool) → (a && b) ≡ true → b ≡ true
and-right a b h = ground arith

module _ (c : Crypto) where
  abbrev pub plain_bytes : Option Text → Option Bytes
  plain_bytes none = none
  plain_bytes (some plain) = some (c.from_base64 plain)

  -- The fields of a key file bind a key: the wrapped text is that of the key, or the
  -- verifier is, of a key of 32 bytes.
  abbrev pub Binds : Bytes → KeyFileMode → Option Text → Option Text → Type 0
  Binds key os_keyring none v = ⊥
  Binds key os_keyring (some w) v = plain_bytes (c.decrypt_string (c.from_base64 w)) ≡ some key
  Binds key passphrase w none = ⊥
  Binds key passphrase w (some v) =
      (key_verifier c key ≡ c.from_base64 v) × (length key ≡ master_key_bytes)

  abbrev pub BindsRead : Bytes → KeyFileRead → Type 0
  BindsRead key absent = ⊥
  BindsRead key malformed = ⊥
  BindsRead key (present f) = Binds key f.mode f.wrapped f.verifier

  abbrev pub BindsDisk : Bytes → Keyring → Type 0
  BindsDisk key s = BindsRead key (read_key_file c s.disk.key_file)

  abbrev pub Yields : Outcome Bytes → Keyring → Type 0
  Yields (returned (ok key)) s = (s.master_key ≡ some key) × (IsCrypto c → BindsDisk key s)
  Yields (returned (err code)) s = s.master_key ≡ none
  Yields threw s = s.master_key ≡ none

  -- What a call does that finds the keyring locked: a key that the file binds stays bound, the key that
  -- is given is the one in use and bound, and buffers are wiped.
  abbrev pub Fits : Keyring → Outcome Bytes × Keyring → Type 0
  Fits s r =
      ((key : Bytes) → BindsDisk key s → BindsDisk key r.1)
      × Yields r.0 r.1
      × (IsReturned r.0 → IsTidy s → IsTidy r.1)

  stays : (code : ErrorCode) (s : Keyring) → s.master_key ≡ none → Fits s (refused code s)
  stays code s h = (λ k x. x, h, λ r t. t)

  wipes :
      (code : ErrorCode) (key : Bytes) (s : Keyring)
      → s.master_key ≡ none
      → Fits s (refused code (release (zeroed key) s))
  wipes code key s h = (λ k x. x, h, λ r t. ((zeroed-IsZero key, t.0), t.1))

  opens :
      (mode : KeyringMode) (key : Bytes) (s : Keyring)
      → s.master_key ≡ none
      → Agrees (some key) mode
      → (IsCrypto c → BindsDisk key s)
      → Fits s (unlocked mode key s)
  opens mode key s h g b = (λ k x. x, (refl, b), λ r t. (rw h t.0, g))

  accept_key-Fits :
      (key : Bytes) (s : Keyring)
      → s.master_key ≡ none
      → BindsDisk key s
      → Fits s (accept_key c key s)
  accept_key-Fits key s h b = elim (Bool-cases (length key == master_key_bytes)) [
    | inl e ↦ rw e (opens KeyringMode.os_keyring key s h tt (λ law. b))
    | inr e ↦ rw e (wipes keyring_unavailable key s h)
  ]

  unwrapped-Fits :
      (o : Option Text) (s : Keyring)
      → s.master_key ≡ none
      → ((key : Bytes) → plain_bytes o ≡ some key → BindsDisk key s)
      → Fits s (unwrapped c o s)
  unwrapped-Fits none s h b = stays keyring_unavailable s h
  unwrapped-Fits (some plain) s h b = accept_key-Fits (c.from_base64 plain) s h (b _ refl)

  unwrap_in-Fits :
      (mode : KeyFileMode) (m : Moment) (w v : Option Text) (s : Keyring)
      → s.master_key ≡ none
      → ((key : Bytes) → Binds key mode w v → BindsDisk key s)
      → Fits s (unwrap_in c mode m w s)
  unwrap_in-Fits passphrase m w v s h b = stays keyring_locked s h
  unwrap_in-Fits os_keyring m none v s h b = stays keyring_unavailable s h
  unwrap_in-Fits os_keyring m (some w) v s h b = elim (Bool-cases m.denied) [
    | inl e ↦ rw e (stays keyring_unavailable s h)
    | inr e ↦ rw e (unwrapped-Fits (c.decrypt_string (c.from_base64 w)) s h b)
  ]

  verified-Fits :
      (key expected : Bytes) (s : Keyring)
      → s.master_key ≡ none
      → (IsCrypto c → length key ≡ master_key_bytes)
      → ((key_verifier c key ≡ expected) × (length key ≡ master_key_bytes) → BindsDisk key s)
      → Fits s (verified c key expected s)
  verified-Fits key expected s h n b = elim (Bool-cases (verifier_matches c key expected)) [
    | inl e ↦ rw e (
        opens KeyringMode.passphrase key s h tt
          (λ law. b (text_eq→eq _ _ (and-right _ _ e), n law)))
    | inr e ↦ rw e (wipes keyring_bad_passphrase key s h)
  ]

  verify_in-Fits :
      (mode : KeyFileMode) (phrase : Text) (salt w v : Option Text) (s : Keyring)
      → s.master_key ≡ none
      → ((key : Bytes) → Binds key mode w v → BindsDisk key s)
      → Fits s (verify_in c mode phrase salt v s)
  verify_in-Fits os_keyring phrase salt w v s h b = stays keyring_unavailable s h
  verify_in-Fits passphrase phrase none w v s h b = stays keyring_unavailable s h
  verify_in-Fits passphrase phrase (some salt) w none s h b = stays keyring_unavailable s h
  verify_in-Fits passphrase phrase (some salt) w (some v) s h b =
      verified-Fits (derive_key_from_passphrase c phrase (c.from_base64 salt)) (c.from_base64 v) s h
        (λ law. law.derived (c.nfkc phrase) (c.from_base64 salt)) (b _)

  store_key-Fits :
      (w : Write) (text : Text) (mode : KeyringMode) (key : Bytes) (s : Keyring)
      → Agrees (some key) mode
      → s.master_key ≡ none
      → read_key_file c s.disk.key_file ≡ absent
      → (IsCrypto c → BindsRead key (read_key_file c (some text)))
      → Fits s (store_key w text mode key s)
  store_key-Fits complete text mode key s g h e b =
      (λ k x. absurd (subst (BindsRead k) e x), (refl, b), λ r t. (rw h t.0, g))
  store_key-Fits untouched text mode key s g h e b = (λ k x. x, h, λ r t. absurd r)
  store_key-Fits (torn left) text mode key s g h e b =
      (λ k x. absurd (subst (BindsRead k) e x), h, λ r t. absurd r)

module _ (c : Crypto) where
  wrapped_file-Binds :
      IsCrypto c
      → (key : Bytes)
      → BindsRead c key (read_key_file c (some (serialise_key_file c (wrapped_file c key))))
  wrapped_file-Binds law key =
      rw
        (
          read_key_file-serialise_key_file c law (wrapped_file c key),
          law.decoded (c.encrypt_string (c.to_base64 key)),
          law.decrypted (c.to_base64 key),
          law.decoded key,
        )
        refl

  derived_file-Binds :
      IsCrypto c
      → (salt key : Bytes) → length key ≡ master_key_bytes
      → BindsRead c key (read_key_file c (some (serialise_key_file c (derived_file c salt key))))
  derived_file-Binds law salt key n =
      rw
        (
          read_key_file-serialise_key_file c law (derived_file c salt key),
          law.decoded (key_verifier c key),
        )
        (refl, n)

  open_wrapped-Fits :
      (m : Moment) (r : KeyFileRead) (s : Keyring)
      → s.master_key ≡ none
      → read_key_file c s.disk.key_file ≡ r
      → Fits c s (open_wrapped c m r s)
  open_wrapped-Fits m malformed s h e = stays c keyring_unavailable s h
  open_wrapped-Fits m (present f) s h e =
      unwrap_in-Fits c f.mode m f.wrapped f.verifier s h (λ k b. subst (BindsRead c k) (sym e) b)
  open_wrapped-Fits m absent s h e = elim (Bool-cases m.denied) [
    | inl d ↦ rw d (λ k x. x, h, λ r t. absurd r)
    | inr d ↦ rw d (
        let key = m.random master_key_bytes in
        store_key-Fits c m.write (serialise_key_file c (wrapped_file c key)) KeyringMode.os_keyring
          key s tt h e (λ law. wrapped_file-Binds law key))
  ]

  open_derived-Fits :
      (m : Moment) (phrase : Text) (r : KeyFileRead) (s : Keyring)
      → s.master_key ≡ none
      → read_key_file c s.disk.key_file ≡ r
      → Fits c s (open_derived c m phrase r s)
  open_derived-Fits m phrase malformed s h e = stays c keyring_unavailable s h
  open_derived-Fits m phrase (present f) s h e =
      verify_in-Fits c f.mode phrase f.salt f.wrapped f.verifier s h
        (λ k b. subst (BindsRead c k) (sym e) b)
  open_derived-Fits m phrase absent s h e =
      let salt = m.random passphrase_salt_bytes in
      let key = derive_key_from_passphrase c phrase salt in
      store_key-Fits c m.write (serialise_key_file c (derived_file c salt key))
        KeyringMode.passphrase key s tt h e
        (λ law. derived_file-Binds law salt key (law.derived (c.nfkc phrase) salt))

  probed-Fits :
      (m : Moment) (report : BackendReport) (s : Keyring)
      → s.master_key ≡ none
      → Fits c s (probed c m report s)
  probed-Fits m report s h = elim (Bool-cases (is_unprotected report.strength)) [
    | inl e ↦ rw e (
        stays c (if is_basic_text report.backend then keyring_weak_backend else keyring_unavailable)
          s h)
    | inr e ↦ rw e (open_wrapped-Fits m (read_key_file c s.disk.key_file) s h refl)
  ]

  pub get-Fits :
      (platform : AgentPlatform) (m : Moment) (s : Keyring)
      → s.master_key ≡ none
      → Fits c s (get_or_create_master_key c platform m s)
  unfolding get_or_create_master_key
  get-Fits platform m s h =
      subst (λ o. Fits c s (get_held c platform m o s)) (sym h)
        (probed-Fits m (probe_backend platform m.probe) s h)

  unlock_locked-Fits :
      (m : Moment) (phrase : Text) (s : Keyring)
      → s.master_key ≡ none
      → Fits c s (unlock_held c m phrase none s)
  unfolding read_key_file
  unlock_locked-Fits m phrase s h =
      elim (Bool-cases (ltb (length (c.nfkc phrase)) min_passphrase_chars)) [
        | inl e ↦ rw e (stays c keyring_bad_passphrase s h)
        | inr e ↦ rw e (open_derived-Fits m phrase (read_key_file c s.disk.key_file) s h refl)
      ]

  pub unlock-Fits :
      (m : Moment) (phrase : Text) (s : Keyring)
      → s.master_key ≡ none
      → Fits c s (unlock_with_passphrase c m phrase s)
  unfolding unlock_with_passphrase
  unlock-Fits m phrase s h =
      subst (λ o. Fits c s (unlock_held c m phrase o s)) (sym h) (unlock_locked-Fits m phrase s h)
