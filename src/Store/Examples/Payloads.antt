-- ===== src/Store/Examples/Payloads.antt =====
-- The records of the log, written as numbers: each field by its own codec.
use copy_clipboard_app.Base.{ℕ, ◌≡◌, refl, Text, Bool, Option, List, [], ◌∷◌}
use copy_clipboard_app.Protocol.Types.{
  Flag, Confidence, DetectorName, SourceApp, MaskSpan, RepRef, ItemKind, ItemCore, StoredItem,
  ItemPatch, DeleteReason,
}
use copy_clipboard_app.Store.Platform.{RecordPayload}
use copy_clipboard_app.Store.Examples.Codec.{
  Codec, nat, pair, through, option, list_of, nth, bool, kind,
}

text : Codec Text
text = list_of nat

abbrev flags : List Flag
flags =
    Flag.secret ∷ Flag.concealed ∷ Flag.transient ∷ Flag.auto_generated ∷ Flag.excluded
    ∷ Flag.no_sync ∷ Flag.cut ∷ []

abbrev place_of_flag : Flag → ℕ
place_of_flag Flag.secret = 0
place_of_flag Flag.concealed = 1
place_of_flag Flag.transient = 2
place_of_flag Flag.auto_generated = 3
place_of_flag Flag.excluded = 4
place_of_flag Flag.no_sync = 5
place_of_flag Flag.cut = 6

flag : Codec Flag
flag = through (nth Flag.secret flags) place_of_flag law nat
  where
    law : (x : Flag) → nth Flag.secret flags (place_of_flag x) ≡ x
    law Flag.secret = refl
    law Flag.concealed = refl
    law Flag.transient = refl
    law Flag.auto_generated = refl
    law Flag.excluded = refl
    law Flag.no_sync = refl
    law Flag.cut = refl

abbrev confidences : List Confidence
confidences = Confidence.heuristic ∷ Confidence.unknown ∷ []

abbrev place_of_confidence : Confidence → ℕ
place_of_confidence Confidence.heuristic = 0
place_of_confidence Confidence.unknown = 1

confidence : Codec Confidence
confidence = through (nth Confidence.heuristic confidences) place_of_confidence law nat
  where
    law : (x : Confidence) → nth Confidence.heuristic confidences (place_of_confidence x) ≡ x
    law Confidence.heuristic = refl
    law Confidence.unknown = refl

abbrev detectors : List DetectorName
detectors =
    DetectorName.pem_private_key ∷ DetectorName.aws_access_key ∷ DetectorName.github_token
    ∷ DetectorName.openai_key ∷ DetectorName.anthropic_key ∷ DetectorName.slack_token
    ∷ DetectorName.stripe_live_key ∷ DetectorName.google_api_key ∷ DetectorName.jwt
    ∷ DetectorName.high_entropy ∷ []

abbrev place_of_detector : DetectorName → ℕ
place_of_detector DetectorName.pem_private_key = 0
place_of_detector DetectorName.aws_access_key = 1
place_of_detector DetectorName.github_token = 2
place_of_detector DetectorName.openai_key = 3
place_of_detector DetectorName.anthropic_key = 4
place_of_detector DetectorName.slack_token = 5
place_of_detector DetectorName.stripe_live_key = 6
place_of_detector DetectorName.google_api_key = 7
place_of_detector DetectorName.jwt = 8
place_of_detector DetectorName.high_entropy = 9

detector : Codec DetectorName
detector = through (nth DetectorName.pem_private_key detectors) place_of_detector law nat
  where
    law : (x : DetectorName) → nth DetectorName.pem_private_key detectors (place_of_detector x) ≡ x
    law DetectorName.pem_private_key = refl
    law DetectorName.aws_access_key = refl
    law DetectorName.github_token = refl
    law DetectorName.openai_key = refl
    law DetectorName.anthropic_key = refl
    law DetectorName.slack_token = refl
    law DetectorName.stripe_live_key = refl
    law DetectorName.google_api_key = refl
    law DetectorName.jwt = refl
    law DetectorName.high_entropy = refl

abbrev reasons : List DeleteReason
reasons =
    DeleteReason.user ∷ DeleteReason.retention_count ∷ DeleteReason.retention_age
    ∷ DeleteReason.retention_bytes ∷ DeleteReason.secret_ttl ∷ DeleteReason.rekey ∷ []

abbrev place_of_reason : DeleteReason → ℕ
place_of_reason DeleteReason.user = 0
place_of_reason DeleteReason.retention_count = 1
place_of_reason DeleteReason.retention_age = 2
place_of_reason DeleteReason.retention_bytes = 3
place_of_reason DeleteReason.secret_ttl = 4
place_of_reason DeleteReason.rekey = 5

reason : Codec DeleteReason
reason = through (nth DeleteReason.user reasons) place_of_reason law nat
  where
    law : (x : DeleteReason) → nth DeleteReason.user reasons (place_of_reason x) ≡ x
    law DeleteReason.user = refl
    law DeleteReason.retention_count = refl
    law DeleteReason.retention_age = refl
    law DeleteReason.retention_bytes = refl
    law DeleteReason.secret_ttl = refl
    law DeleteReason.rekey = refl

abbrev SourceAppFields : Type 0
SourceAppFields = Option Text × (Option Text × Confidence)

abbrev to_source_app : SourceAppFields → SourceApp
to_source_app x = record { bundle_id = x.0; name = x.1.0; confidence = x.1.1 }

abbrev of_source_app : SourceApp → SourceAppFields
of_source_app r = (r.bundle_id, (r.name, r.confidence))

source_app : Codec SourceApp
source_app =
    through to_source_app of_source_app (λ r. refl)
      (pair (option text) (pair (option text) confidence))

abbrev MaskSpanFields : Type 0
MaskSpanFields = ℕ × (ℕ × DetectorName)

abbrev to_mask_span : MaskSpanFields → MaskSpan
to_mask_span x = record { start = x.0; end = x.1.0; detector = x.1.1 }

abbrev of_mask_span : MaskSpan → MaskSpanFields
of_mask_span r = (r.start, (r.end, r.detector))

mask_span : Codec MaskSpan
mask_span = through to_mask_span of_mask_span (λ r. refl) (pair nat (pair nat detector))

abbrev RepRefFields : Type 0
RepRefFields = Text × (Option Text × (ℕ × (Text × Text)))

abbrev to_rep_ref : RepRefFields → RepRef
to_rep_ref x = record {
  mime = x.0;
  uti = x.1.0;
  byte_length = x.1.1.0;
  sha256 = x.1.1.1.0;
  blob_id = x.1.1.1.1;
}

abbrev of_rep_ref : RepRef → RepRefFields
of_rep_ref r = (r.mime, (r.uti, (r.byte_length, (r.sha256, r.blob_id))))

rep_ref : Codec RepRef
rep_ref =
    through to_rep_ref of_rep_ref (λ r. refl)
      (pair text (pair (option text) (pair nat (pair text text))))

abbrev ItemCoreFields : Type 0
ItemCoreFields =
    Text
    × (ItemKind
        × (Text
            × (Text
                × (Bool
                    × (List MaskSpan
                        × (List Flag
                            × (List RepRef
                                × (Option Text
                                    × (Option SourceApp
                                        × (ℕ × (ℕ × (ℕ × (Bool × Option ℕ)))))))))))))

abbrev to_item_core : ItemCoreFields → ItemCore
to_item_core x = record {
  id = x.0;
  kind = x.1.0;
  content_hash = x.1.1.0;
  preview = x.1.1.1.0;
  preview_truncated = x.1.1.1.1.0;
  mask_spans = x.1.1.1.1.1.0;
  flags = x.1.1.1.1.1.1.0;
  rep_refs = x.1.1.1.1.1.1.1.0;
  thumbnail_blob_id = x.1.1.1.1.1.1.1.1.0;
  source_app = x.1.1.1.1.1.1.1.1.1.0;
  byte_length = x.1.1.1.1.1.1.1.1.1.1.0;
  created_at = x.1.1.1.1.1.1.1.1.1.1.1.0;
  updated_at = x.1.1.1.1.1.1.1.1.1.1.1.1.0;
  pinned = x.1.1.1.1.1.1.1.1.1.1.1.1.1.0;
  expires_at = x.1.1.1.1.1.1.1.1.1.1.1.1.1.1;
}

abbrev of_item_core : ItemCore → ItemCoreFields
of_item_core r = (
  r.id,
  (
    r.kind,
    (
      r.content_hash,
      (
        r.preview,
        (
          r.preview_truncated,
          (
            r.mask_spans,
            (
              r.flags,
              (
                r.rep_refs,
                (
                  r.thumbnail_blob_id,
                  (
                    r.source_app,
                    (r.byte_length, (r.created_at, (r.updated_at, (r.pinned, r.expires_at)))),
                  ),
                ),
              ),
            ),
          ),
        ),
      ),
    ),
  ),
)

item_core : Codec ItemCore
item_core =
    through to_item_core of_item_core (λ r. refl)
      (pair text (
        pair kind (
          pair text (
            pair text (
              pair bool (
                pair (list_of mask_span) (
                  pair (list_of flag) (
                    pair (list_of rep_ref) (
                      pair (option text) (
                        pair (option source_app)
                          (pair nat (pair nat (pair nat (pair bool (option nat)))))))))))))))

abbrev StoredItemFields : Type 0
StoredItemFields = ItemCore × (Option (Option Text) × Option (List Text))

abbrev to_stored_item : StoredItemFields → StoredItem
to_stored_item x = record { core = x.0; title = x.1.0; tags = x.1.1 }

abbrev of_stored_item : StoredItem → StoredItemFields
of_stored_item r = (r.core, (r.title, r.tags))

stored_item : Codec StoredItem
stored_item =
    through to_stored_item of_stored_item (λ r. refl)
      (pair item_core (pair (option (option text)) (option (list_of text))))

abbrev ItemPatchFields : Type 0
ItemPatchFields =
    ℕ × (Option (Option Text) × (Option Bool × (Option (List Text) × Option (Option ℕ))))

abbrev to_item_patch : ItemPatchFields → ItemPatch
to_item_patch x = record {
  updated_at = x.0;
  title = x.1.0;
  pinned = x.1.1.0;
  tags = x.1.1.1.0;
  expires_at = x.1.1.1.1;
}

abbrev of_item_patch : ItemPatch → ItemPatchFields
of_item_patch r = (r.updated_at, (r.title, (r.pinned, (r.tags, r.expires_at))))

item_patch : Codec ItemPatch
item_patch =
    through to_item_patch of_item_patch (λ r. refl)
      (pair nat (
        pair (option (option text))
          (pair (option bool) (pair (option (list_of text)) (option (option nat))))))

abbrev RecordPayloadFields : Type 0
RecordPayloadFields =
    ℕ
    × (ℕ
        × (Text
            × (Text
                × (Option StoredItem
                    × (Option Text
                        × (Option ItemPatch
                            × (Option DeleteReason
                                × (Option Text × (Option ℕ × (Option ℕ × Bool))))))))))

abbrev to_payload : RecordPayloadFields → RecordPayload
to_payload x = record {
  seq = x.0;
  at = x.1.0;
  kind = x.1.1.0;
  prev = x.1.1.1.0;
  item = x.1.1.1.1.0;
  id = x.1.1.1.1.1.0;
  patch = x.1.1.1.1.1.1.0;
  reason = x.1.1.1.1.1.1.1.0;
  tag = x.1.1.1.1.1.1.1.1.0;
  max_seq = x.1.1.1.1.1.1.1.1.1.0;
  live_item_count = x.1.1.1.1.1.1.1.1.1.1.0;
  watermarks = x.1.1.1.1.1.1.1.1.1.1.1;
}

abbrev of_payload : RecordPayload → RecordPayloadFields
of_payload r = (
  r.seq,
  (
    r.at,
    (
      r.kind,
      (
        r.prev,
        (
          r.item,
          (r.id, (r.patch, (r.reason, (r.tag, (r.max_seq, (r.live_item_count, r.watermarks)))))),
        ),
      ),
    ),
  ),
)

pub payload : Codec RecordPayload
payload =
    through to_payload of_payload (λ r. refl)
      (pair nat (
        pair nat (
          pair text (
            pair text (
              pair (option stored_item) (
                pair (option text) (
                  pair (option item_patch) (
                    pair (option reason)
                      (pair (option text) (pair (option nat) (pair (option nat) bool)))))))))))
