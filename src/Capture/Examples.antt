-- ===== src/Capture/Examples.antt =====
-- A copy of a file: its list of paths, and its name as text.
use copy_clipboard_app.Base.{Text, text_eq, codes, ◌≡◌, refl, none, List, [], ◌∷◌}
use copy_clipboard_app.Protocol.Types.{ResolvedRep, files}
use copy_clipboard_app.History.Tags.{primary_rep}
use copy_clipboard_app.Capture.{classify_kind, select_primary_rep}
use copy_clipboard_app.Capture.Primary.{primary_rep_lem}

abbrev rep : Text → ResolvedRep
rep mime = record { mime = mime; uti = none; bytes = []; byte_length = 0; sha256 = [] }

abbrev reps : List ResolvedRep
reps = rep (codes "text/uri-list") ∷ rep (codes "text/plain") ∷ []

kind_of_reps : classify_kind reps ≡ files
unfolding classify_kind text_eq
kind_of_reps = refl

primary_rep_lem_example : select_primary_rep reps ≡ primary_rep reps
primary_rep_lem_example = primary_rep_lem reps
