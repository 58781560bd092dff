-- ===== src/Keyring/Rekeyed.antt =====
-- packages/keyring/src/keyring.ts and passphrase.ts: a store that is begun anew, and the key that is
-- given again.
use copy_clipboard_app.Base.{
  ℕ, zero, suc, ◌+◌, ◌≤◌, false, ◌≡◌, refl, ap, inl, inr, Option, none, some, [], ◌∷◌, length, take,
  drop, arith, Option-cases,
}
use copy_clipboard_app.Protocol.Types.{Bytes}
use copy_clipboard_app.Protocol.Result.{ok}
use copy_clipboard_app.Keyring.Backend.{AgentPlatform, probe_backend, is_unprotected}
use copy_clipboard_app.Keyring.KeyFile.{
  Crypto, IsCrypto, read_key_file, serialise_key_file, read_key_file-serialise_key_file,
  master_key_bytes,
}
use copy_clipboard_app.Keyring.Unlocking.{
  os_keyring, Disk, Keyring, Moment, returned, complete, new_keyring, set_key_file, unlocked,
  wrapped_file, get_or_create_master_key, lock, emptied, feeds, count_reads, count_lines,
  rekey_after_corruption,
}

feeds-split : (n : ℕ) (bytes : Bytes) → feeds (take n bytes) + feeds (drop n bytes) ≡ feeds bytes
feeds-split zero bytes = omega arith
feeds-split (suc n) [] = omega arith
feeds-split (suc n) (b ∷ bs) = ground (arith, feeds-split n bs)

length-drop : (n : ℕ) (bytes : Bytes) → length (drop n bytes) ≤ length bytes
length-drop zero bytes = omega arith
length-drop (suc n) [] = omega arith
length-drop (suc n) (b ∷ bs) = omega (arith, length-drop n bs)

count_reads_lem :
    (n fuel : ℕ) (bytes : Bytes)
    → length bytes ≤ fuel
    → count_reads (suc n) fuel bytes ≡ feeds bytes
unfolding count_reads
count_reads_lem n zero [] h = refl
count_reads_lem n zero (b ∷ bs) h = omega arith
count_reads_lem n (suc fuel) [] h = refl
count_reads_lem n (suc fuel) (b ∷ bs) h =
    rw (count_reads_lem n fuel (drop n bs) (omega (arith, length-drop n bs)))
      (feeds-split (suc n) (b ∷ bs))

-- The number of line feeds of a log, none if there is no log
abbrev pub feeds_of : Option Bytes → ℕ
feeds_of none = 0
feeds_of (some log) = feeds log

-- The loop over reads counts every line feed of the log, however long that is.
pub count_lines_lem : (log : Option Bytes) → count_lines log ≡ feeds_of log
unfolding count_lines
count_lines_lem none = refl
count_lines_lem (some log) = count_reads_lem 65535 (length log) log (omega arith)

module _ (c : Crypto) (law : IsCrypto c) (platform : AgentPlatform) where
  abbrev pub IsProtected : Moment → Type 0
  IsProtected m = is_unprotected (probe_backend platform m.probe).strength ≡ false

  abbrev key_disk : Bytes → Disk → Disk
  key_disk key d = record {
    key_file = some (serialise_key_file c (wrapped_file c key));
    log = d.log;
    blobs = d.blobs;
  }

  created :
      (m : Moment) (s : Keyring)
      → s.master_key ≡ none
      → s.disk.key_file ≡ none
      → IsProtected m
      → m.denied ≡ false
      → m.write ≡ complete
      → get_or_create_master_key c platform m s ≡ (
          let key = m.random master_key_bytes in
          unlocked os_keyring key
            (set_key_file (some (serialise_key_file c (wrapped_file c key))) s))
  unfolding get_or_create_master_key read_key_file
  created m s h f strong d w = simp (h, f, strong, d, w)

  reopened :
      (m : Moment) (key : Bytes) (d : Disk)
      → IsProtected m
      → m.denied ≡ false
      → length key ≡ master_key_bytes
      → get_or_create_master_key c platform m (new_keyring (key_disk key d))
        ≡ unlocked os_keyring key (new_keyring (key_disk key d))
  unfolding get_or_create_master_key
  reopened m key d strong e l = simp (
    strong,
    e,
    read_key_file-serialise_key_file c law (wrapped_file c key),
    law.decoded (c.encrypt_string (c.to_base64 key)),
    law.decrypted (c.to_base64 key),
    law.decoded key,
    l,
  )

  locked_key : (s : Keyring) → (lock s).master_key ≡ none
  unfolding lock
  locked_key s = elim (Option-cases s.master_key) [ inl e ↦ simp e refl | inr (k, e) ↦ simp e refl ]

  locked_disk : (s : Keyring) → (emptied (lock s)).master_key ≡ none
  locked_disk s = locked_key s

  -- After `rekeyAfterCorruption`, if the operating system protects the key and its file is written
  -- whole: the answer is the number of line feeds that the old log had; the log and the blobs are gone;
  -- the key in use is the one that was drawn at random; and when the program starts again, it is given
  -- that key.
  pub rekey_after_corruption_lem :
      (m later : Moment) (s : Keyring)
      → IsProtected m
      → IsProtected later
      → m.denied ≡ false
      → later.denied ≡ false
      → m.write ≡ complete
      → length (m.random master_key_bytes) ≡ master_key_bytes
      → (let r = rekey_after_corruption c platform m s in
          let key = m.random master_key_bytes in
          (r.0 ≡ returned (ok (feeds_of s.disk.log)))
          × (r.1.master_key ≡ some key)
          × (r.1.disk.log ≡ none)
          × (r.1.disk.blobs ≡ [])
          × ((get_or_create_master_key c platform later (new_keyring r.1.disk)).0
              ≡ returned (ok key)))
  unfolding rekey_after_corruption
  rekey_after_corruption_lem m later s strong again d d' w l =
      let fresh = created m (emptied (lock s)) (locked_disk s) refl strong d w in
      let gone : Disk = record { key_file = none; log = none; blobs = [] } in
      let given = reopened later (m.random master_key_bytes) gone again d' l in
      rw (strong, fresh, count_lines_lem s.disk.log) (refl, refl, refl, refl, ap (λ r. r.0) given)
