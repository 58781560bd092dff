-- ===== src/Keyring/KeyFile.antt =====
-- packages/keyring/src/keyring.ts: the file `key.bin`, and what the package takes from Node and from
-- the operating system.
use copy_clipboard_app.Base.{
  ℕ, ◌==◌, Text, codes, text_eq, Bool, false, ◌≡◌, refl, Option, none, some, [], ◌∷◌, ◌++◌, length,
  if◌then◌else◌,
}
use copy_clipboard_app.Protocol.Types.{Bytes}

abbrev pub key_file_version : ℕ
key_file_version = 1

abbrev pub master_key_bytes : ℕ
master_key_bytes = 32

abbrev pub passphrase_salt_bytes : ℕ
passphrase_salt_bytes = 16

abbrev pub min_passphrase_chars : ℕ
min_passphrase_chars = 8

abbrev pub keyring_verify_info : Text
keyring_verify_info = codes "cairn/keyring/verify/v1"

pub data KeyFileMode : Type 0 where
  os_keyring passphrase : KeyFileMode

-- `KeyFile`, whose version is always the one above
pub record KeyFile : Type 0 where
  pub mode : KeyFileMode
  pub salt : Option Text
  pub wrapped : Option Text
  pub verifier : Option Text

-- The fields of an object that `JSON.parse` gave: `none` stands for a field that is not there or is
-- of another type than the reader asks for.
pub record KeyFields : Type 0 where
  pub v : Option ℕ
  pub mode : Option Text
  pub salt : Option Text
  pub wrapped : Option Text
  pub verifier : Option Text

pub data ParsedKeys : Type 0 where
  not_json not_object : ParsedKeys
  object : KeyFields → ParsedKeys

abbrev pub mode_name : KeyFileMode → Text
mode_name os_keyring = codes "os-keyring"
mode_name passphrase = codes "passphrase"

-- What is read of a key file that was written.
abbrev pub fields_of : KeyFile → KeyFields
fields_of f = record {
  v = some key_file_version;
  mode = some (mode_name f.mode);
  salt = f.salt;
  wrapped = f.wrapped;
  verifier = f.verifier;
}

-- `safeStorage`, scrypt with the parameters of the store, HMAC-SHA-256, NFKC, base64 and JSON.
pub record Crypto : Type 0 where
  pub encrypt_string : Text → Bytes
  pub decrypt_string : Bytes → Option Text
  pub scrypt : Text → Bytes → Bytes
  pub hmac : Bytes → Text → Bytes
  pub nfkc : Text → Text
  pub to_base64 : Bytes → Text
  pub from_base64 : Text → Bytes
  pub stringify : KeyFile → Text
  pub parse : Text → ParsedKeys

-- What the keyring relies on: what was encrypted decrypts, base64 and JSON give back what they are
-- given, also with a line feed behind it, and scrypt gives as many bytes as it is asked for.
pub record IsCrypto (c : Crypto) : Type 0 where
  pub decrypted : (t : Text) → c.decrypt_string (c.encrypt_string t) ≡ some t
  pub decoded : (bytes : Bytes) → c.from_base64 (c.to_base64 bytes) ≡ bytes
  pub derived : (t : Text) (salt : Bytes) → length (c.scrypt t salt) ≡ master_key_bytes
  pub parsed : (f : KeyFile) → c.parse (c.stringify f ++ 10 ∷ []) ≡ ParsedKeys.object (fields_of f)

-- `serialiseKeyFile`
abbrev pub serialise_key_file : Crypto → KeyFile → Text
serialise_key_file c f = c.stringify f ++ 10 ∷ []

abbrev pub is_version : Option ℕ → Bool
is_version none = false
is_version (some v) = v == key_file_version

abbrev pub named_mode : Option Text → Option KeyFileMode
named_mode none = none
named_mode (some raw) =
    if text_eq raw (codes "os-keyring")
    then some os_keyring
    else if text_eq raw (codes "passphrase")
    then some passphrase
    else none

abbrev pub file_in : KeyFields → Option KeyFileMode → Option KeyFile
file_in o none = none
file_in o (some mode) =
    some (record { mode = mode; salt = o.salt; wrapped = o.wrapped; verifier = o.verifier })

-- `parseKeyFile`, after `JSON.parse`
unfoldable pub parse_key_file : ParsedKeys → Option KeyFile
parse_key_file not_json = none
parse_key_file not_object = none
parse_key_file (object o) = if is_version o.v then file_in o (named_mode o.mode) else none

pub data KeyFileRead : Type 0 where
  absent malformed : KeyFileRead
  present : KeyFile → KeyFileRead

abbrev pub read_as : Option KeyFile → KeyFileRead
read_as none = malformed
read_as (some file) = present file

-- `readKeyFile`, of the text that the file has, if it is there
unfoldable pub read_key_file : Crypto → Option Text → KeyFileRead
unfolding parse_key_file
read_key_file c none = absent
read_key_file c (some t) = read_as (parse_key_file (c.parse t))

named_mode-mode_name : (mode : KeyFileMode) → named_mode (some (mode_name mode)) ≡ some mode
unfolding text_eq
named_mode-mode_name os_keyring = refl
named_mode-mode_name passphrase = refl

-- What was written is read again.
pub read_key_file-serialise_key_file :
    (c : Crypto)
    → IsCrypto c
    → (f : KeyFile) → read_key_file c (some (serialise_key_file c f)) ≡ present f
unfolding read_key_file parse_key_file
read_key_file-serialise_key_file c law f = rw (law.parsed f, named_mode-mode_name f.mode) refl
