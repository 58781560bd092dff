-- ===== src/Capture.antt =====
-- packages/capture/src/classify-kind.ts: the kind of a copy, and the representation that stands for it.
pub mod Primary
pub mod Uti
pub mod Examples
use copy_clipboard_app.Base.{
  Text, codes, text_eq, Bool, true, false, ◌||◌, Option, none, some, List, [], ◌∷◌, any, find,
  if◌then◌else◌,
}
use copy_clipboard_app.Protocol.Types.{ItemKind, ResolvedRep}
use copy_clipboard_app.History.Ingest.{starts_with}

unfoldable pub classify_kind : List ResolvedRep → ItemKind
classify_kind reps =
    if any (λ (r : ResolvedRep). text_eq r.mime (codes "text/uri-list")) reps
    then ItemKind.files
    else if any (λ (r : ResolvedRep). starts_with (codes "image/") r.mime) reps
    then ItemKind.image
    else if any
        (λ (r : ResolvedRep).
          text_eq r.mime (codes "text/html") || text_eq r.mime (codes "text/rtf"))
        reps
    then ItemKind.richtext
    else ItemKind.text

abbrev pub primary_rep_order : List Text
primary_rep_order =
    codes "text/plain"
    ∷ codes "text/uri-list"
    ∷ codes "image/png"
    ∷ codes "text/html"
    ∷ codes "text/rtf"
    ∷ []

abbrev pub or_else : Option ResolvedRep → Option ResolvedRep → Option ResolvedRep
or_else none later = later
or_else (some r) later = some r

-- The loop over the order: the first that some representation has, or `last` if none has.
unfoldable pub select_from : List Text → List ResolvedRep → ResolvedRep → Option ResolvedRep
select_from [] reps last = some last
select_from (mime ∷ mimes) reps last =
    or_else (find (λ (r : ResolvedRep). text_eq r.mime mime) reps) (select_from mimes reps last)

unfoldable pub select_primary_rep : List ResolvedRep → Option ResolvedRep
unfolding select_from
select_primary_rep [] = none
select_primary_rep (r ∷ reps) = select_from primary_rep_order (r ∷ reps) r
