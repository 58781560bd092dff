-- ===== src/Keyring/Phrases.antt =====
-- packages/keyring/src/keyring.ts and passphrase.ts: a key that a passphrase derives.
use copy_clipboard_app.Base.{
  ℕ, ◌==◌, Text, text_eq_refl, text_eq→eq, true, false, ◌≡◌, ◌≢◌, refl, sym, ap, ◌∙◌, inl, inr,
  none, some, length, ltb, arith, Bool-cases,
}
use copy_clipboard_app.Protocol.Types.{Bytes}
use copy_clipboard_app.Protocol.Result.{ok, keyring_bad_passphrase}
use copy_clipboard_app.Keyring.KeyFile.{
  Crypto, IsCrypto, read_key_file, serialise_key_file, read_key_file-serialise_key_file,
  master_key_bytes, passphrase_salt_bytes, min_passphrase_chars,
}
use copy_clipboard_app.Keyring.Unlocking.{
  passphrase, Keyring, Moment, returned, complete, new_keyring, set_key_file, unlocked,
  derived_file, key_verifier, verifier_matches, zeroed, release, derive_key_from_passphrase,
  verified, unlock_with_passphrase, lock, refused,
}
use copy_clipboard_app.Keyring.Fits.{and-right}
use copy_clipboard_app.Keyring.OneKey.{IsCollisionFree}

==_refl : (n : ℕ) → (n == n) ≡ true
==_refl n = ground arith

module _ (c : Crypto) (law : IsCrypto c) where
  abbrev pub IsLong : Text → Type 0
  IsLong phrase = ltb (length (c.nfkc phrase)) min_passphrase_chars ≡ false

  matches_itself : (key : Bytes) → verifier_matches c key (key_verifier c key) ≡ true
  matches_itself key =
      rw (==_refl (length (key_verifier c key)), text_eq_refl (key_verifier c key)) refl

  matches_no_other :
      IsCollisionFree c
      → (key other : Bytes) → length key ≡ master_key_bytes
      → length other ≡ master_key_bytes
      → key ≢ other
      → verifier_matches c other (key_verifier c key) ≡ false
  matches_no_other free key other n n' apart =
      elim (Bool-cases (verifier_matches c other (key_verifier c key))) [
        | inl e ↦ absurd (apart (sym (free other key n' n (text_eq→eq _ _ (and-right _ _ e)))))
        | inr e ↦ e
      ]

  accepted :
      (key : Bytes) (s : Keyring)
      → verified c key (key_verifier c key) s ≡ unlocked passphrase key s
  accepted key s = rw (matches_itself key) refl

  rejected :
      IsCollisionFree c
      → (key other : Bytes) (s : Keyring) → length key ≡ master_key_bytes
      → length other ≡ master_key_bytes
      → key ≢ other
      → verified c other (key_verifier c key) s
        ≡ refused keyring_bad_passphrase (release (zeroed other) s)
  rejected free key other s n n' apart = rw (matches_no_other free key other n n' apart) refl

  derived :
      (m : Moment) (phrase : Text) (s : Keyring)
      → s.master_key ≡ none
      → s.disk.key_file ≡ none
      → IsLong phrase
      → m.write ≡ complete
      → unlock_with_passphrase c m phrase s ≡ (
          let salt = m.random passphrase_salt_bytes in
          let key = derive_key_from_passphrase c phrase salt in
          unlocked passphrase key
            (set_key_file (some (serialise_key_file c (derived_file c salt key))) s))
  unfolding unlock_with_passphrase read_key_file
  derived m phrase s h f l w = simp (h, f, l, w)

  tried :
      (m : Moment) (phrase : Text) (salt key : Bytes) (s : Keyring)
      → s.master_key ≡ none
      → s.disk.key_file ≡ some (serialise_key_file c (derived_file c salt key))
      → IsLong phrase
      → unlock_with_passphrase c m phrase s
        ≡ verified c (derive_key_from_passphrase c phrase salt) (key_verifier c key) s
  unfolding unlock_with_passphrase
  tried m phrase salt key s h f l = simp (
    h,
    f,
    l,
    read_key_file-serialise_key_file c law (derived_file c salt key),
    law.decoded salt,
    law.decoded (key_verifier c key),
  )

  -- Where there is no key file, a passphrase of at least eight characters gives a key of 32 bytes, once
  -- the file is written whole. The same passphrase gives that key again after a lock. A passphrase
  -- whose key is another is refused after a restart: the keyring stays locked, the files stay as they
  -- are, and the key that was tried is wiped. It is supposed that no two keys of 32 bytes have
  -- the same verifier.
  pub unlock_with_passphrase_lem :
      IsCollisionFree c
      → (m later : Moment) (phrase wrong : Text) (s : Keyring) → s.master_key ≡ none
      → s.disk.key_file ≡ none
      → IsLong phrase
      → IsLong wrong
      → m.write ≡ complete
      → (let salt = m.random passphrase_salt_bytes in
          derive_key_from_passphrase c phrase salt ≢ derive_key_from_passphrase c wrong salt)
      → (let r = unlock_with_passphrase c m phrase s in
          let salt = m.random passphrase_salt_bytes in
          let key = derive_key_from_passphrase c phrase salt in
          let other = derive_key_from_passphrase c wrong salt in
          (r.0 ≡ returned (ok key))
          × (length key ≡ master_key_bytes)
          × ((unlock_with_passphrase c later phrase (lock r.1)).0 ≡ returned (ok key))
          × (unlock_with_passphrase c later wrong (new_keyring r.1.disk)
              ≡ refused keyring_bad_passphrase (release (zeroed other) (new_keyring r.1.disk))))
  unfolding lock
  unlock_with_passphrase_lem free m later phrase wrong s h f l l' w apart =
      let salt = m.random passphrase_salt_bytes in
      let key = derive_key_from_passphrase c phrase salt in
      let other = derive_key_from_passphrase c wrong salt in
      let held =
        (unlocked passphrase key
          (set_key_file (some (serialise_key_file c (derived_file c salt key))) s)).1 in
      let again = new_keyring held.disk in
      rw (derived m phrase s h f l w) (
        refl,
        law.derived (c.nfkc phrase) salt,
        ap (λ r. r.0)
            (tried later phrase salt key (lock held) refl refl l ∙ accepted key (lock held)),
        tried later wrong salt key again refl refl l'
            ∙ rejected free key other again (law.derived (c.nfkc phrase) salt)
                (law.derived (c.nfkc wrong) salt) apart,
      )
