-- ===== src/Keyring/Unlocking.antt =====
-- packages/keyring/src/keyring.ts and passphrase.ts: the operations of `createKeyring`. A buffer that
-- the keyring no longer holds is an entry of `released`, as it stands. The directory can be made.
use copy_clipboard_app.Base.{
  ℕ, zero, suc, ◌+◌, ◌==◌, Text, text_eq, Bool, true, false, ◌&&◌, Option, none, some, List, [],
  ◌∷◌, map, length, take, drop, ltb, if◌then◌else◌,
}
use copy_clipboard_app.Protocol.Types.{Bytes}
use copy_clipboard_app.Protocol.Result.{
  Result, ErrorCode, ok, err, keyring_unavailable, keyring_weak_backend, keyring_bad_passphrase,
  keyring_locked,
}
use copy_clipboard_app.Keyring.Backend.{
  AgentPlatform, Probe, BackendReport, probe_backend, is_basic_text, is_unprotected,
}
use copy_clipboard_app.Keyring.KeyFile.{
  KeyFile, KeyFileMode, KeyFileRead, absent, malformed, present, Crypto, read_key_file,
  serialise_key_file, master_key_bytes, passphrase_salt_bytes, min_passphrase_chars,
  keyring_verify_info,
}

pub data KeyringMode : Type 0 where
  os_keyring passphrase locked : KeyringMode

-- The files of the directory: `key.bin`, the log, and the blobs with their names.
pub record Disk : Type 0 where
  pub key_file : Option Text
  pub log : Option Bytes
  pub blobs : List (Text × Bytes)

pub record Keyring : Type 0 where
  pub master_key : Option Bytes
  pub mode : KeyringMode
  pub released : List Bytes
  pub disk : Disk

abbrev pub new_keyring : Disk → Keyring
new_keyring disk = record { master_key = none; mode = locked; released = []; disk = disk }

-- How a write of the key file ends: as it should, or with an exception, which leaves a file that is
-- not whole or does not touch it.
pub data Write : Type 0 where
  complete untouched : Write
  torn : Text → Write

-- What is outside of the program at a call: `safeStorage`, which may refuse to encrypt and decrypt,
-- random bytes and the write.
pub record Moment : Type 0 where
  pub probe : Probe
  pub denied : Bool
  pub random : ℕ → Bytes
  pub write : Write

pub data Outcome (A : Type 0) : Type 0 where
  returned : Result A → Outcome A
  threw : Outcome A

-- `fill(0)`
abbrev pub zeroed : Bytes → Bytes
zeroed key = map (λ b. 0) key

abbrev pub release : Bytes → Keyring → Keyring
release buffer s = record s { released = buffer ∷ s.released }

abbrev pub set_key_file : Option Text → Keyring → Keyring
set_key_file file s = record s {
  disk = record { key_file = file; log = s.disk.log; blobs = s.disk.blobs };
}

abbrev pub lock_held : Option Bytes → Keyring → Keyring
lock_held none s = record s { mode = locked }
lock_held (some key) s = record s {
  master_key = none;
  mode = locked;
  released = zeroed key ∷ s.released;
}

unfoldable pub lock : Keyring → Keyring
lock s = lock_held s.master_key s

abbrev pub refused : ErrorCode → Keyring → Outcome Bytes × Keyring
refused code s = (returned (err code), s)

-- A buffer that `masterKey` held is let go of as it stands when another key takes its place.
abbrev pub displace : Option Bytes → List Bytes → List Bytes
displace none buffers = buffers
displace (some old) buffers = old ∷ buffers

abbrev pub unlocked : KeyringMode → Bytes → Keyring → Outcome Bytes × Keyring
unlocked mode key s = (
  returned (ok key),
  record s { master_key = some key; mode = mode; released = displace s.master_key s.released },
)

-- A new key is held only after its file is written.
abbrev pub store_key : Write → Text → KeyringMode → Bytes → Keyring → Outcome Bytes × Keyring
store_key complete text mode key s = unlocked mode key (set_key_file (some text) s)
store_key untouched text mode key s = (threw, release key s)
store_key (torn t) text mode key s = (threw, release key (set_key_file (some t) s))

module _ (c : Crypto) where
  -- The key file of a key that the operating system wraps, and of one that a passphrase derives.
  abbrev pub wrapped_file : Bytes → KeyFile
  wrapped_file key = record {
    mode = KeyFileMode.os_keyring;
    salt = none;
    wrapped = some (c.to_base64 (c.encrypt_string (c.to_base64 key)));
    verifier = none;
  }

  abbrev pub key_verifier : Bytes → Bytes
  key_verifier key = c.hmac key keyring_verify_info

  abbrev pub derived_file : Bytes → Bytes → KeyFile
  derived_file salt key = record {
    mode = KeyFileMode.passphrase;
    salt = some (c.to_base64 salt);
    wrapped = none;
    verifier = some (c.to_base64 (key_verifier key));
  }

  abbrev pub derive_key_from_passphrase : Text → Bytes → Bytes
  derive_key_from_passphrase phrase salt = c.scrypt (c.nfkc phrase) salt

  -- The comparison of bytes is one of lists of numbers.
  abbrev pub verifier_matches : Bytes → Bytes → Bool
  verifier_matches key expected =
      let actual = key_verifier key in (length actual == length expected) && text_eq actual expected

  abbrev pub create_wrapped : Moment → Bytes → Keyring → Outcome Bytes × Keyring
  create_wrapped m key s =
      if m.denied
      then (threw, release key s)
      else store_key m.write (serialise_key_file c (wrapped_file key)) os_keyring key s

  abbrev pub accept_key : Bytes → Keyring → Outcome Bytes × Keyring
  accept_key key s =
      if length key == master_key_bytes
      then unlocked os_keyring key s
      else refused keyring_unavailable (release (zeroed key) s)

  abbrev pub unwrapped : Option Text → Keyring → Outcome Bytes × Keyring
  unwrapped none s = refused keyring_unavailable s
  unwrapped (some plain) s = accept_key (c.from_base64 plain) s

  abbrev pub unwrap : Moment → Option Text → Keyring → Outcome Bytes × Keyring
  unwrap m none s = refused keyring_unavailable s
  unwrap m (some w) s = unwrapped (if m.denied then none else c.decrypt_string (c.from_base64 w)) s

  abbrev pub unwrap_in : KeyFileMode → Moment → Option Text → Keyring → Outcome Bytes × Keyring
  unwrap_in KeyFileMode.passphrase m w s = refused keyring_locked s
  unwrap_in KeyFileMode.os_keyring m w s = unwrap m w s

  abbrev pub open_wrapped : Moment → KeyFileRead → Keyring → Outcome Bytes × Keyring
  open_wrapped m malformed s = refused keyring_unavailable s
  open_wrapped m (present file) s = unwrap_in file.mode m file.wrapped s
  open_wrapped m absent s = create_wrapped m (m.random master_key_bytes) s

  abbrev pub probed : Moment → BackendReport → Keyring → Outcome Bytes × Keyring
  probed m report s =
      if is_unprotected report.strength
      then refused
          (if is_basic_text report.backend then keyring_weak_backend else keyring_unavailable) s
      else open_wrapped m (read_key_file c s.disk.key_file) s

  abbrev pub get_held : AgentPlatform → Moment → Option Bytes → Keyring → Outcome Bytes × Keyring
  get_held platform m (some key) s = (returned (ok key), s)
  get_held platform m none s = probed m (probe_backend platform m.probe) s

  unfoldable pub get_or_create_master_key :
      AgentPlatform → Moment → Keyring → Outcome Bytes × Keyring
  unfolding read_key_file probe_backend
  get_or_create_master_key platform m s = get_held platform m s.master_key s

  abbrev pub verified : Bytes → Bytes → Keyring → Outcome Bytes × Keyring
  verified candidate expected s =
      if verifier_matches candidate expected
      then unlocked passphrase candidate s
      else refused keyring_bad_passphrase (release (zeroed candidate) s)

  abbrev pub verify : Text → Option Text → Option Text → Keyring → Outcome Bytes × Keyring
  verify phrase (some salt) (some expected) s =
      verified (derive_key_from_passphrase phrase (c.from_base64 salt)) (c.from_base64 expected) s
  verify phrase (some salt) none s = refused keyring_unavailable s
  verify phrase none expected s = refused keyring_unavailable s

  abbrev pub verify_in :
      KeyFileMode → Text → Option Text → Option Text → Keyring → Outcome Bytes × Keyring
  verify_in KeyFileMode.os_keyring phrase salt expected s = refused keyring_unavailable s
  verify_in KeyFileMode.passphrase phrase salt expected s = verify phrase salt expected s

  abbrev pub create_derived : Moment → Bytes → Bytes → Keyring → Outcome Bytes × Keyring
  create_derived m salt key s =
      store_key m.write (serialise_key_file c (derived_file salt key)) passphrase key s

  abbrev pub open_derived : Moment → Text → KeyFileRead → Keyring → Outcome Bytes × Keyring
  open_derived m phrase malformed s = refused keyring_unavailable s
  open_derived m phrase (present file) s = verify_in file.mode phrase file.salt file.verifier s
  open_derived m phrase absent s =
      let salt = m.random passphrase_salt_bytes in
      create_derived m salt (derive_key_from_passphrase phrase salt) s

  abbrev pub is_by_passphrase : KeyringMode → Bool
  is_by_passphrase passphrase = true
  is_by_passphrase _ = false

  abbrev pub unlock_held : Moment → Text → Option Bytes → Keyring → Outcome Bytes × Keyring
  unlock_held m phrase (some key) s =
      if is_by_passphrase s.mode then (returned (ok key), s) else refused keyring_unavailable s
  unlock_held m phrase none s =
      if ltb (length (c.nfkc phrase)) min_passphrase_chars
      then refused keyring_bad_passphrase s
      else open_derived m phrase (read_key_file c s.disk.key_file) s

  unfoldable pub unlock_with_passphrase : Moment → Text → Keyring → Outcome Bytes × Keyring
  unfolding read_key_file
  unlock_with_passphrase m phrase s = unlock_held m phrase s.master_key s

abbrev pub feeds : Bytes → ℕ
feeds [] = 0
feeds (b ∷ bs) = (if b == 10 then 1 else 0) + feeds bs

-- The loop of `countLines` over reads of at most `size` bytes, for at most `fuel` reads.
unfoldable pub count_reads : ℕ → ℕ → Bytes → ℕ
count_reads size zero rest = 0
count_reads size (suc fuel) [] = 0
count_reads size (suc fuel) (b ∷ bs) =
    feeds (take size (b ∷ bs)) + count_reads size fuel (drop size (b ∷ bs))

-- `countLines`: a read takes at least a byte.
unfoldable pub count_lines : Option Bytes → ℕ
unfolding count_reads
count_lines none = 0
count_lines (some log) = count_reads 65536 (length log) log

abbrev pub rekeyed : ℕ → Outcome Bytes × Keyring → Outcome ℕ × Keyring
rekeyed lost (returned (ok key), s) = (returned (ok lost), s)
rekeyed lost (returned (err code), s) = (returned (err code), s)
rekeyed lost (threw, s) = (threw, s)

abbrev pub emptied : Keyring → Keyring
emptied s = record s { disk = record { key_file = none; log = none; blobs = [] } }

unfoldable pub rekey_after_corruption :
    Crypto → AgentPlatform → Moment → Keyring → Outcome ℕ × Keyring
unfolding lock count_lines get_or_create_master_key probe_backend
rekey_after_corruption c platform m s =
    let cleared = emptied (lock s) in
    let lost = count_lines s.disk.log in
    if is_unprotected (probe_backend platform m.probe).strength
    then (returned (ok lost), cleared)
    else rekeyed lost (get_or_create_master_key c platform m cleared)
