-- ===== src/Privacy/Spans.antt =====
-- packages/privacy/src/detectors.ts and mask.ts: the union of overlapping spans, and the masked text.
-- What the regular expressions and the entropy scan find is an argument.
use copy_clipboard_app.Base.{
  ℕ, zero, suc, ◌-◌, max, Text, Bool, List, [], ◌∷◌, ◌++◌, length, take, drop, ltb, leb, ◌==◌,
  if◌then◌else◌, sort,
}
use copy_clipboard_app.Protocol.Types.{MaskSpan, DetectorName, high_entropy}

-- `a.start - b.start || a.end - b.end`, as "stands strictly before"
abbrev pub span_before : MaskSpan → MaskSpan → Bool
span_before a b = if a.start == b.start then ltb a.end b.end else ltb a.start b.start

-- A named detector wins the label.
abbrev pub label : DetectorName → DetectorName → DetectorName
label high_entropy d = d
label c d = c

abbrev pub join_spans : MaskSpan → MaskSpan → MaskSpan
join_spans last s = record {
  start = last.start;
  end = max last.end s.end;
  detector = label last.detector s.detector;
}

-- The loop over the sorted spans: `last` is the last of `out`.
unfoldable pub merge_from : MaskSpan → List MaskSpan → List MaskSpan
merge_from last [] = last ∷ []
merge_from last (s ∷ spans) =
    let joined = merge_from (join_spans last s) spans in
    let apart = merge_from s spans in if ltb s.start last.end then joined else last ∷ apart

abbrev pub merge_sorted : List MaskSpan → List MaskSpan
merge_sorted [] = []
merge_sorted (s ∷ spans) = merge_from s spans

unfoldable pub merge_spans : List MaskSpan → List MaskSpan
unfolding merge_from
merge_spans spans = merge_sorted (sort span_before spans)

-- packages/protocol/src/constants.ts: MASK_BULLET
abbrev pub mask_bullet : ℕ
mask_bullet = 8226

abbrev pub bullets : ℕ → Text
bullets zero = []
bullets (suc n) = mask_bullet ∷ bullets n

-- `maskToken`
unfoldable pub mask_token : Text → Text
mask_token raw =
    if leb 12 (length raw) then take 4 raw ++ bullets 4 ++ drop (length raw - 4) raw else bullets 8

-- `text.slice(from, to)`
abbrev pub slice : ℕ → ℕ → Text → Text
slice from to text = take (to - from) (drop from text)

-- The loop of `mask`, from a cursor.
unfoldable pub mask_from : ℕ → Text → List MaskSpan → Text
unfolding mask_token
mask_from cursor text [] = drop cursor text
mask_from cursor text (s ∷ spans) =
    slice cursor s.start text ++ mask_token (slice s.start s.end text) ++ mask_from s.end text spans

-- `detectSpans` over what the patterns find
unfoldable pub detect_spans :
    (Text → List DetectorName → List MaskSpan) → Text → List DetectorName → List MaskSpan
unfolding merge_spans
detect_spans found text enabled = merge_spans (found text enabled)

unfoldable pub mask :
    (Text → List DetectorName → List MaskSpan) → List DetectorName → Text → Text × List MaskSpan
unfolding detect_spans mask_from
mask found detectors text =
    let spans = detect_spans found text detectors in (mask_from 0 text spans, spans)
