-- ===== src/Capture/Uti.antt =====
-- packages/capture/src/normalize-reps.ts: the types that are dropped, and the modern names of the old
-- ones. What the normal form does with the bytes is not modelled.
use copy_clipboard_app.Base.{
  Text, codes, text_eq, Bool, false, Option, none, some, List, [], ◌∷◌, includes, if◌then◌else◌,
}

abbrev dropped_utis : List Text
dropped_utis =
    codes "org.chromium.source-url"
    ∷ codes "org.chromium.web-custom-data"
    ∷ codes "org.nspasteboard.source"
    ∷ codes "org.nspasteboard.ConcealedType"
    ∷ codes "org.nspasteboard.TransientType"
    ∷ codes "org.nspasteboard.AutoGeneratedType"
    ∷ codes "com.apple.pasteboard.promised-file-content-type"
    ∷ []

data UtiAlias : Type 0 where
  aliased : Text → Text → UtiAlias

abbrev legacy_uti_aliases : List UtiAlias
legacy_uti_aliases =
    aliased (codes "NSStringPboardType") (codes "public.utf8-plain-text")
    ∷ aliased (codes "NSPasteboardTypeString") (codes "public.utf8-plain-text")
    ∷ aliased (codes "NeXT plain ascii pasteboard type") (codes "public.utf8-plain-text")
    ∷ aliased (codes "NSHTMLPboardType") (codes "public.html")
    ∷ aliased (codes "NSPasteboardTypeHTML") (codes "public.html")
    ∷ aliased (codes "NSRTFPboardType") (codes "public.rtf")
    ∷ aliased (codes "NeXT Rich Text Format pasteboard type") (codes "public.rtf")
    ∷ aliased (codes "NSFilenamesPboardType") (codes "public.file-url")
    ∷ aliased (codes "NSTIFFPboardType") (codes "public.tiff")
    ∷ aliased (codes "NSPasteboardTypeTIFF") (codes "public.tiff")
    ∷ aliased (codes "NSURLPboardType") (codes "public.url")
    ∷ []

abbrev alias_of : Text → List UtiAlias → Text
alias_of t [] = t
alias_of t (aliased old_uti uti ∷ rest) =
    let later = alias_of t rest in if text_eq t old_uti then uti else later

-- The two guards at the head of the loop of `normalizeReps`.
abbrev is_dropped_uti : Option Text → Bool
is_dropped_uti none = false
is_dropped_uti (some t) = includes t dropped_utis

abbrev modern_uti : Option Text → Option Text
modern_uti none = none
modern_uti (some t) = some (alias_of t legacy_uti_aliases)
