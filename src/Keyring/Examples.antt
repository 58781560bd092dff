-- ===== src/Keyring/Examples.antt =====
-- A keyring on a platform that meets what it relies on, of which scrypt pads the passphrase.
use copy_clipboard_app.Base.{
  ℕ, zero, suc, ◌≡◌, ◌≢◌, refl, ap, Text, codes, text_eq, text_eq_iff, Bool, true, false, Option,
  none, some, List, [], ◌∷◌, All, length, arith,
}
use copy_clipboard_app.Protocol.Types.{Bytes}
use copy_clipboard_app.Protocol.Result.{ok}
use copy_clipboard_app.Store.Examples.Codec.{Codec, nat, pair, through, option, list_of, bool}
use copy_clipboard_app.Keyring.Backend.{linux, probe_backend}
use copy_clipboard_app.Keyring.KeyFile.{
  KeyFile, KeyFileMode, ParsedKeys, fields_of, Crypto, IsCrypto, read_key_file, master_key_bytes,
}
use copy_clipboard_app.Keyring.Unlocking.{
  Disk, Keyring, Moment, complete, new_keyring, returned, get_or_create_master_key,
  unlock_with_passphrase, lock, rekey_after_corruption,
}
use copy_clipboard_app.Keyring.Calls.{KeyringCall, gets, unlocks, locks, restarts, gave, step, run}
use copy_clipboard_app.Keyring.OneKey.{one_key, Gives, IsCollisionFree}
use copy_clipboard_app.Keyring.Fits.{IsTidy}
use copy_clipboard_app.Keyring.Zeroed.{run-IsTidy}
use copy_clipboard_app.Keyring.Rekeyed.{rekey_after_corruption_lem, IsProtected}
use copy_clipboard_app.Keyring.Phrases.{unlock_with_passphrase_lem}

mode_of : Bool → KeyFileMode
mode_of true = KeyFileMode.os_keyring
mode_of false = KeyFileMode.passphrase

bool_of : KeyFileMode → Bool
bool_of KeyFileMode.os_keyring = true
bool_of KeyFileMode.passphrase = false

mode_of-bool_of : (m : KeyFileMode) → mode_of (bool_of m) ≡ m
unfolding mode_of bool_of
mode_of-bool_of KeyFileMode.os_keyring = refl
mode_of-bool_of KeyFileMode.passphrase = refl

optional : Codec (Option Text)
optional = option (list_of nat)

file : Codec KeyFile
file =
    through
      (λ (x : KeyFileMode × (Option Text × (Option Text × Option Text))). record {
        mode = x.0;
        salt = x.1.0;
        wrapped = x.1.1.0;
        verifier = x.1.1.1;
      })
      (λ f. (f.mode, (f.salt, (f.wrapped, f.verifier)))) (λ f. refl)
      (pair (through mode_of bool_of mode_of-bool_of bool) (pair optional (pair optional optional)))

abbrev parsed_toy : Option (KeyFile × List ℕ) → ParsedKeys
parsed_toy none = ParsedKeys.not_json
parsed_toy (some (f, rest)) = ParsedKeys.object (fields_of f)

padded : ℕ → Text → Bytes
padded zero t = []
padded (suc n) [] = 0 ∷ padded n []
padded (suc n) (c ∷ cs) = c ∷ padded n cs

length-padded : (n : ℕ) (t : Text) → length (padded n t) ≡ n
unfolding padded
length-padded zero t = refl
length-padded (suc n) [] = ap suc (length-padded n [])
length-padded (suc n) (c ∷ cs) = ap suc (length-padded n cs)

abbrev toy : Crypto
toy = record {
  encrypt_string = λ t. 7 ∷ t;
  decrypt_string = λ b. elim b [ [] ↦ none | x ∷ t ↦ some t ];
  scrypt = λ t salt. padded master_key_bytes t;
  hmac = λ key info. key;
  nfkc = λ t. t;
  to_base64 = λ b. b;
  from_base64 = λ t. t;
  stringify = λ f. file.print f;
  parse = λ t. parsed_toy (file.scan t);
}

toy-IsCrypto : IsCrypto toy
toy-IsCrypto = record {
  decrypted = λ t. refl;
  decoded = λ bytes. refl;
  derived = λ t salt. length-padded master_key_bytes t;
  parsed = λ f. ap parsed_toy (file.scan-print f (10 ∷ []));
}

toy-IsCollisionFree : IsCollisionFree toy
toy-IsCollisionFree k l n n' e = e

abbrev moment : Moment
moment = record {
  probe = record {
    is_encryption_available = true;
    selected_backend = some (codes "gnome_libsecret");
  };
  denied = false;
  random = λ n. padded n [];
  write = complete;
}

abbrev new_key : Bytes
new_key = padded master_key_bytes []

abbrev empty_disk : Disk
empty_disk = record { key_file = none; log = none; blobs = [] }

abbrev corrupt : Keyring
corrupt = new_keyring (record {
  key_file = some (codes "{");
  log = some (codes "one\ntwo\nthr");
  blobs = (codes "a", codes "b") ∷ [];
})

abbrev calls : List KeyringCall
calls = locks ∷ unlocks moment (codes "correct horse") ∷ gets moment ∷ restarts ∷ gets moment ∷ []

first_key : (step toy linux (gets moment) (new_keyring empty_disk)).0 ≡ gave (returned (ok new_key))
unfolding step get_or_create_master_key read_key_file probe_backend text_eq
first_key = refl

one_key_example :
    All
      (Gives new_key)
      (run toy linux calls (step toy linux (gets moment) (new_keyring empty_disk)).1).0
one_key_example =
    one_key toy toy-IsCrypto toy-IsCollisionFree linux (gets moment) new_key
      (new_keyring empty_disk) refl first_key calls (tt, (tt, (tt, (tt, (tt, tt)))))

abbrev tidy_calls : List KeyringCall
tidy_calls = gets moment ∷ locks ∷ unlocks moment (codes "short") ∷ []

run-IsTidy_example : IsTidy (run toy linux tidy_calls (new_keyring empty_disk)).1
unfolding run step get_or_create_master_key read_key_file probe_backend text_eq lock
    unlock_with_passphrase
run-IsTidy_example =
    run-IsTidy toy linux tidy_calls (new_keyring empty_disk) (tt, tt) (tt, (tt, (tt, tt)))

is_protected : IsProtected toy toy-IsCrypto linux moment
unfolding probe_backend text_eq
is_protected = refl

rekey_after_corruption_lem_example :
    (rekey_after_corruption toy linux moment corrupt).0 ≡ returned (ok 2)
rekey_after_corruption_lem_example =
    (rekey_after_corruption_lem toy toy-IsCrypto linux moment moment corrupt is_protected
      is_protected refl refl refl (length-padded master_key_bytes [])).0

abbrev right : Text
right = codes "correct horse"

abbrev wrong : Text
wrong = codes "battery staple"

differs : (a b : Text) → text_eq a b ≡ false → a ≢ b
differs a b h = ground (arith, text_eq_iff a b, h)

unlock_with_passphrase_lem_example :
    (let r = unlock_with_passphrase toy moment right (new_keyring empty_disk) in
      unlock_with_passphrase toy moment right (lock r.1)).0
    ≡ returned (ok (padded master_key_bytes right))
unfolding text_eq padded
unlock_with_passphrase_lem_example =
    (unlock_with_passphrase_lem toy toy-IsCrypto toy-IsCollisionFree moment moment right wrong
      (new_keyring empty_disk) refl refl refl refl refl (differs _ _ refl)).2
