-- ===== src/Privacy/Examples.antt =====
-- Spans that overlap, and a copy of a secret.
use copy_clipboard_app.Base.{
  ℕ, Text, codes, ◌≡◌, refl, true, none, some, List, [], ◌∷◌, length, includes, text_eq, sort,
  insert_sorted,
}
use copy_clipboard_app.Protocol.Types.{
  Snapshot, ItemKind, MaskSpan, DetectorName, PasteboardHint, Confidence, Flag, jwt, high_entropy,
}
use copy_clipboard_app.Privacy.Spans.{merge_spans, merge_from, mask_token}
use copy_clipboard_app.Privacy.Classify.{PrivacyRules, hint_flags, classify}
use copy_clipboard_app.Privacy.Cover.{covers, Disjoint, merge_spans_lem}
use copy_clipboard_app.Privacy.Verdicts.{IsJudged, classify_lem}

abbrev span : ℕ → ℕ → DetectorName → MaskSpan
span from to name = record { start = from; end = to; detector = name }

abbrev found : List MaskSpan
found = span 8 20 jwt ∷ span 2 5 high_entropy ∷ span 4 10 high_entropy ∷ []

united : merge_spans found ≡ span 2 20 jwt ∷ []
unfolding merge_spans merge_from sort insert_sorted
united = refl

masked : mask_token (codes "AKIAABCDEFGHA7QD") ≡ codes "AKIA••••A7QD"
unfolding mask_token
masked = refl

merge_spans_lem_example :
    ((i : ℕ) → covers i (merge_spans found) ≡ covers i found) × Disjoint (merge_spans found)
merge_spans_lem_example = merge_spans_lem found

-- A copy with a hint, of an application that is known and not excluded.
abbrev copied : Snapshot
copied = record {
  reps = [];
  primary_text = some (codes "secret");
  kind = ItemKind.text;
  hints = PasteboardHint.transient ∷ [];
  source_app = some (record {
    bundle_id = some (codes "org.editor");
    name = none;
    confidence = Confidence.heuristic;
  });
  total_bytes = 6;
}

abbrev rules : PrivacyRules
rules = record {
  detectors = jwt ∷ [];
  honour_hints = true;
  excluded_bundle_ids = codes "org.vault" ∷ [];
}

detect_all : Text → List DetectorName → List MaskSpan
detect_all text names = span 0 (length text) jwt ∷ []

flagged : (classify detect_all copied rules).flags ≡ Flag.transient ∷ Flag.secret ∷ []
unfolding classify detect_all hint_flags includes text_eq
flagged = refl

classify_lem_example : IsJudged detect_all copied rules (classify detect_all copied rules)
classify_lem_example = classify_lem detect_all copied rules
