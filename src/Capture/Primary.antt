-- ===== src/Capture/Primary.antt =====
-- Capture and the history choose the same representation: the bytes that capture hashes are those
-- that the history classifies and previews.
use copy_clipboard_app.Base.{Text, text_eq, ◌≡◌, refl, ◌∙◌, Option, none, some, List, [], ◌∷◌, find}
use copy_clipboard_app.Protocol.Types.{ResolvedRep}
use copy_clipboard_app.History.Tags.{primary_rep, first_of_mimes}
use copy_clipboard_app.Capture.{or_else, select_from, select_primary_rep, primary_rep_order}

select_from-first_of_mimes :
    (mimes : List Text) (reps : List ResolvedRep) (last : ResolvedRep)
    → select_from mimes reps last ≡ or_else (first_of_mimes mimes reps) (some last)
unfolding select_from first_of_mimes
select_from-first_of_mimes [] reps last = refl
select_from-first_of_mimes (mime ∷ mimes) reps last =
    chosen (find (λ (r : ResolvedRep). text_eq r.mime mime) reps)
      (select_from-first_of_mimes mimes reps last)
  where
    chosen :
        (o : Option ResolvedRep)
        → select_from mimes reps last ≡ or_else (first_of_mimes mimes reps) (some last)
        → or_else o (select_from mimes reps last)
          ≡ or_else (elim o [ none ↦ first_of_mimes mimes reps | some r ↦ some r ]) (some last)
    chosen none e = e
    chosen (some r) e = refl

-- `selectPrimaryRep` of capture and `primaryRep` of the history choose the same representation, or
-- both none, of any representations.
pub primary_rep_lem : (reps : List ResolvedRep) → select_primary_rep reps ≡ primary_rep reps
unfolding select_primary_rep primary_rep
primary_rep_lem [] = refl
primary_rep_lem (r ∷ reps) =
    select_from-first_of_mimes primary_rep_order (r ∷ reps) r
    ∙ chosen (first_of_mimes primary_rep_order (r ∷ reps))
  where
    chosen :
        (o : Option ResolvedRep) → or_else o (some r) ≡ elim o [ none ↦ some r | some x ↦ some x ]
    chosen none = refl
    chosen (some x) = refl
