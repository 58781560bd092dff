-- ===== src/Privacy/Classify.antt =====
-- packages/privacy/src/classify.ts: the three layers of `classify`. What the detectors find in a
-- text is an argument; a reason is left out.
use copy_clipboard_app.Base.{
  keep_if, Text, Bool, true, false, Option, none, some, List, [], ◌∷◌, ◌++◌, length, ltb, any,
  includes, if◌then◌else◌,
}
use copy_clipboard_app.Protocol.Types.{
  Item, Snapshot, Classification, PasteboardHint, Flag, SourceApp, MaskSpan, DetectorName,
}
use copy_clipboard_app.Protocol.Tags.{is_empty}

pub record PrivacyRules : Type 0 where
  pub detectors : List DetectorName
  pub honour_hints : Bool
  pub excluded_bundle_ids : List Text

-- SKIP_HINTS
abbrev pub is_skip_hint : PasteboardHint → Bool
is_skip_hint PasteboardHint.concealed = true
is_skip_hint PasteboardHint.password_manager = true
is_skip_hint _ = false

abbrev pub should_skip_on_hints : List PasteboardHint → PrivacyRules → Bool
should_skip_on_hints hints rules = if rules.honour_hints then any is_skip_hint hints else false

abbrev pub hint_flag : PasteboardHint → List Flag
hint_flag PasteboardHint.transient = Flag.transient ∷ []
hint_flag PasteboardHint.auto_generated = Flag.auto_generated ∷ []
hint_flag _ = []

unfoldable pub hint_flags : List PasteboardHint → List Flag
hint_flags [] = []
hint_flags (h ∷ hints) = hint_flag h ++ hint_flags hints

abbrev pub skip : Flag → Classification
skip flag = record { records = false; flags = flag ∷ [] }

abbrev pub bundle_id : Option SourceApp → Option Text
bundle_id none = none
bundle_id (some app) = app.bundle_id

-- With a rule active, an owner that is excluded or not known is refused.
abbrev pub is_excluded : Option Text → List Text → Bool
is_excluded none excluded = true
is_excluded (some id) excluded = includes id excluded

abbrev pub finds_secret :
    (Text → List DetectorName → List MaskSpan) → Option Text → PrivacyRules → Bool
finds_secret detect none rules = false
finds_secret detect (some text) rules =
    if is_empty text then false else ltb 0 (length (detect text rules.detectors))

unfoldable pub classify :
    (Text → List DetectorName → List MaskSpan) → Snapshot → PrivacyRules → Classification
unfolding hint_flags
classify detect s rules =
    let flags = hint_flags s.hints in
    if should_skip_on_hints s.hints rules
    then skip Flag.concealed
    else if (if ltb 0 (length rules.excluded_bundle_ids)
        then is_excluded (bundle_id s.source_app) rules.excluded_bundle_ids
        else false)
    then skip Flag.excluded
    else if finds_secret detect s.primary_text rules
    then record { records = true; flags = flags ++ Flag.secret ∷ [] }
    else record { records = true; flags = flags }

-- ALL_DETECTORS
abbrev pub all_detectors : List DetectorName
all_detectors =
    DetectorName.pem_private_key ∷ DetectorName.aws_access_key ∷ DetectorName.github_token
    ∷ DetectorName.openai_key ∷ DetectorName.anthropic_key ∷ DetectorName.slack_token
    ∷ DetectorName.stripe_live_key ∷ DetectorName.google_api_key ∷ DetectorName.jwt
    ∷ DetectorName.high_entropy ∷ []

abbrev pub default_rules : PrivacyRules
default_rules = record { detectors = all_detectors; honour_hints = true; excluded_bundle_ids = [] }

-- packages/protocol/src/types.ts: NON_SYNCABLE_FLAGS
abbrev pub is_non_syncable : Flag → Bool
is_non_syncable Flag.secret = true
is_non_syncable Flag.concealed = true
is_non_syncable Flag.excluded = true
is_non_syncable Flag.no_sync = true
is_non_syncable _ = false

-- packages/privacy/src/assert-syncable.ts: `none` is its exception
unfoldable pub assert_syncable : Item → Option (Unit {0})
assert_syncable it = if ltb 0 (length (keep_if is_non_syncable it.flags)) then none else some tt
