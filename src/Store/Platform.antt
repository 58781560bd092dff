-- ===== src/Store/Platform.antt =====
-- What packages/store/src takes from Node: the cipher, the hash, base64 and JSON, with the records
-- that the store writes as JSON.
use copy_clipboard_app.Base.{
  ℕ, Text, codes, text_eq, Bool, true, false, ◌&&◌, ◌||◌, Option, none, some, [], ◌∷◌, ◌≡◌, ◌≢◌,
  length, take, drop, leb, ◌==◌, if◌then◌else◌,
}
use copy_clipboard_app.Protocol.Types.{Bytes, StoredItem, ItemPatch, DeleteReason}

-- packages/store/src/log-store.ts: a record of the log before it is sealed
pub record RecordPayload : Type 0 where
  pub seq : ℕ
  pub at : ℕ
  pub kind : Text
  pub prev : Text
  pub item : Option StoredItem
  pub id : Option Text
  pub patch : Option ItemPatch
  pub reason : Option DeleteReason
  pub tag : Option Text
  pub max_seq : Option ℕ
  pub live_item_count : Option ℕ
  pub watermarks : Bool

-- An object that `JSON.parse` gave: `none` stands for a field that is not there or is of another
-- type than the reader asks for, of `seq` and `at` that they are no safe integers.
pub record ParsedObject : Type 0 where
  pub seq : Option ℕ
  pub at : Option ℕ
  pub kind : Option Text
  pub prev : Option Text
  pub item : Option StoredItem
  pub id : Option Text
  pub patch : Option ItemPatch
  pub reason : Option DeleteReason
  pub tag : Option Text
  pub max_seq : Option ℕ
  pub live_item_count : Option ℕ
  pub watermarks : Bool

pub data Parsed : Type 0 where
  not_json not_object : Parsed
  object : ParsedObject → Parsed

-- What is read of a payload that was written.
abbrev pub parsed_of : RecordPayload → ParsedObject
parsed_of p = record {
  seq = some p.seq;
  at = some p.at;
  kind = some p.kind;
  prev = some p.prev;
  item = p.item;
  id = p.id;
  patch = p.patch;
  reason = p.reason;
  tag = p.tag;
  max_seq = p.max_seq;
  live_item_count = p.live_item_count;
  watermarks = p.watermarks;
}

-- The arguments of the cipher are the key, the nonce, the additional data and the plain text; of the
-- decipher the tag and the cipher text come last.
pub record Platform : Type 0 where
  pub encrypt : Bytes → Bytes → Bytes → Bytes → Bytes
  pub auth_tag : Bytes → Bytes → Bytes → Bytes → Bytes
  pub decrypt : Bytes → Bytes → Bytes → Bytes → Bytes → Option Bytes
  pub to_base64 : Bytes → Text
  pub from_base64 : Text → Bytes
  pub content_hash : Bytes → Text
  pub file_name : Bytes → Text → Text
  pub blob_key : Bytes → Text → Bytes
  pub stringify : RecordPayload → Bytes
  pub parse : Bytes → Parsed

abbrev is_hash_char : ℕ → Bool
is_hash_char c =
    (leb 65 c && leb c 90)
    || (leb 97 c && leb c 122)
    || (leb 48 c && leb c 57)
    || c == 95
    || c == 45

abbrev pub all_of : (ℕ → Bool) → Text → Bool
all_of f [] = true
all_of f (c ∷ cs) = f c && all_of f cs

-- `HASH_RE`
unfoldable pub is_hash : Text → Bool
is_hash t =
    text_eq (take 7 t) (codes "sha256-")
    && (length (drop 7 t) == 43)
    && all_of is_hash_char (drop 7 t)

-- No line feed stands in the text.
abbrev pub is_one_line : Text → Bool
is_one_line [] = true
is_one_line (c ∷ cs) = if c == 10 then false else is_one_line cs

-- What the store relies on: what was sealed opens under the additional data it was sealed with, and
-- under no other; base64 and JSON give back what they are given.
pub record IsPlatform (p : Platform) : Type 0 where
  pub opened :
      (key nonce aad plain : Bytes)
      → p.decrypt key nonce aad (p.auth_tag key nonce aad plain) (p.encrypt key nonce aad plain)
        ≡ some plain
  pub unopened :
      (key nonce aad other plain : Bytes)
      → aad ≢ other
      → p.decrypt key nonce other (p.auth_tag key nonce aad plain) (p.encrypt key nonce aad plain)
        ≡ none
  pub tag_length : (key nonce aad plain : Bytes) → length (p.auth_tag key nonce aad plain) ≡ 16
  pub decoded : (bytes : Bytes) → p.from_base64 (p.to_base64 bytes) ≡ bytes
  pub one_line : (bytes : Bytes) → is_one_line (p.to_base64 bytes) ≡ true
  pub hash_form : (bytes : Bytes) → is_hash (p.content_hash bytes) ≡ true
  pub parsed :
      (payload : RecordPayload) → p.parse (p.stringify payload) ≡ Parsed.object (parsed_of payload)
