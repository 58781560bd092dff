-- ===== src/Protocol/Types.antt =====
-- packages/protocol/src/types.ts: items, their patches, and the events of the store. Times and
-- sizes are whole numbers; a `null` that a reader may meet is `none`.
use copy_clipboard_app.Base.{ℕ, Text, List, Option, Bool, true, false, any}

pub data ItemKind : Type 0 where
  text richtext image files : ItemKind

pub data PasteboardHint : Type 0 where
  concealed transient auto_generated password_manager : PasteboardHint

pub data Flag : Type 0 where
  secret concealed transient auto_generated excluded no_sync cut : Flag

pub data Confidence : Type 0 where
  heuristic unknown : Confidence

pub data DetectorName : Type 0 where
  pem_private_key aws_access_key github_token openai_key anthropic_key : DetectorName
  slack_token stripe_live_key google_api_key jwt high_entropy : DetectorName

pub record SourceApp : Type 0 where
  pub bundle_id : Option Text
  pub name : Option Text
  pub confidence : Confidence

abbrev pub Bytes : Type 0
Bytes = List ℕ

-- A representation with its bytes in memory.
pub record ResolvedRep : Type 0 where
  pub mime : Text
  pub uti : Option Text
  pub bytes : Bytes
  pub byte_length : ℕ
  pub sha256 : Text

pub record Snapshot : Type 0 where
  pub reps : List ResolvedRep
  pub primary_text : Option Text
  pub kind : ItemKind
  pub hints : List PasteboardHint
  pub source_app : Option SourceApp
  pub total_bytes : ℕ

pub record Candidate : Type 0 where
  pub reps : List ResolvedRep
  pub kind : ItemKind
  pub content_hash : Text
  pub primary_text : Option Text
  pub hints : List PasteboardHint
  pub source_app : Option SourceApp
  pub thumbnail_jpeg : Option Bytes
  pub change_token : Text
  pub captured_at : ℕ

pub record MaskSpan : Type 0 where
  pub start : ℕ
  pub end : ℕ
  pub detector : DetectorName

pub record RepRef : Type 0 where
  pub mime : Text
  pub uti : Option Text
  pub byte_length : ℕ
  pub sha256 : Text
  pub blob_id : Text

-- The fields of an item that every record has, whatever its age.
pub record ItemCore : Type 0 where
  pub id : Text
  pub kind : ItemKind
  pub content_hash : Text
  pub preview : Text
  pub preview_truncated : Bool
  pub mask_spans : List MaskSpan
  pub flags : List Flag
  pub rep_refs : List RepRef
  pub thumbnail_blob_id : Option Text
  pub source_app : Option SourceApp
  pub byte_length : ℕ
  pub created_at : ℕ
  pub updated_at : ℕ
  pub pinned : Bool
  pub expires_at : Option ℕ

-- An item in memory: its title is a string or `null`, its tags are an array.
pub record Item : Type 0 where
  pub core : ItemCore
  pub open core use *
  pub title : Option Text
  pub tags : List Text

-- An item in a record of the log: `none` stands for a field that an old record does not have.
pub record StoredItem : Type 0 where
  pub core : ItemCore
  pub title : Option (Option Text)
  pub tags : Option (List Text)

-- `none` stands for a field that the patch does not have.
pub record ItemPatch : Type 0 where
  pub updated_at : ℕ
  pub title : Option (Option Text)
  pub pinned : Option Bool
  pub tags : Option (List Text)
  pub expires_at : Option (Option ℕ)

pub data DeleteReason : Type 0 where
  user retention_count retention_age retention_bytes secret_ttl rekey : DeleteReason

-- The watermarks of a checkpoint are always empty in this version.
pub data StoreEvent : Type 0 where
  item_added : ℕ → ℕ → StoredItem → StoreEvent
  item_updated : ℕ → ℕ → Text → ItemPatch → StoreEvent
  item_deleted : ℕ → ℕ → Text → DeleteReason → StoreEvent
  tab_created : ℕ → ℕ → Text → StoreEvent
  tab_deleted : ℕ → ℕ → Text → StoreEvent
  checkpoint : ℕ → ℕ → ℕ → ℕ → StoreEvent

pub record Classification : Type 0 where
  pub records : Bool
  pub flags : List Flag

pub record Tab : Type 0 where
  pub tag : Text
  pub count : ℕ

abbrev pub is_secret : Flag → Bool
is_secret Flag.secret = true
is_secret _ = false

-- flags.includes('secret')
abbrev pub has_secret : List Flag → Bool
has_secret = any is_secret
