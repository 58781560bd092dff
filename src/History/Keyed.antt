-- ===== src/History/Keyed.antt =====
-- Maps of items by their ids: each entry stands under its item's own id, and no id stands twice.
use mathlib.Core.Option
use mathlib.Core.List.{append-nil, append_assoc}
use copy_clipboard_app.Base.{
  Fresh, Fresh-append, Fresh-nil, set_new, Text, text_eq, text_eq_iff, text_eq→eq, ◌≡◌, refl, sym,
  ap, subst, ◌∙◌, inl, inr, none, some, List, [], ◌∷◌, ◌++◌, arith, Bool-cases, Dict, get, set,
  delete, values, get-set, get-delete, map_values, get-map_values, text_eq_refl,
}
use copy_clipboard_app.Protocol.Types.{Item}

abbrev pub IsKeyed : Dict Item → Type 0
IsKeyed [] = Unit
IsKeyed ((k, it) ∷ m) = (it.id ≡ k) × (get k m ≡ none) × IsKeyed m

pub set-IsKeyed :
    (k : Text) (it : Item) (m : Dict Item) → it.id ≡ k → IsKeyed m → IsKeyed (set k it m)
unfolding set get
set-IsKeyed k it [] e h = (e, refl, tt)
set-IsKeyed k it ((j, w) ∷ m) e h = elim (Bool-cases (text_eq j k)) [
  | inl same ↦ rw same (e ∙ sym (text_eq→eq j k same), h.1, h.2)
  | inr other ↦ rw other (
    h.0,
    rw (get-set k j it m) (ground (arith, text_eq_iff k j, text_eq_iff j k, h.1)),
    set-IsKeyed k it m e h.2,
  )
]

pub delete-IsKeyed : (k : Text) (m : Dict Item) → IsKeyed m → IsKeyed (delete k m)
unfolding delete
delete-IsKeyed k [] h = tt
delete-IsKeyed k ((j, w) ∷ m) h = elim (Bool-cases (text_eq j k)) [
  | inl same ↦ rw same (delete-IsKeyed k m h.2)
  | inr other ↦
      rw other
        (h.0, rw (get-delete k j m) (ground (arith, text_eq_iff k j, h.1)), delete-IsKeyed k m h.2)
]

pub id-get : (k : Text) (m : Dict Item) (it : Item) → IsKeyed m → get k m ≡ some it → it.id ≡ k
unfolding get
id-get k [] it h e = cc
id-get k ((j, w) ∷ m) it h e = elim (Bool-cases (text_eq j k)) [
  | inl same ↦ ground (arith, text_eq_iff j k, h.0)
  | inr other ↦ id-get k m it h.2 (ground arith)
]

-- Items put in by their ids, one after another.
unfoldable pub set_all : (Item → Item) → List Item → Dict Item → Dict Item
set_all f [] m = m
set_all f (it ∷ its) m = set_all f its (set it.id (f it) m)

set_all-append :
    (f : Item → Item) (m acc : Dict Item)
    → IsKeyed m
    → Fresh acc m
    → set_all f (values m) acc ≡ acc ++ map_values f m
unfolding set_all
set_all-append f [] acc h e = sym (append-nil acc)
set_all-append f ((k, it) ∷ m) acc h e =
    ap (set_all f (values m))
      (subst (λ j. set j (f it) acc ≡ acc ++ (k, f it) ∷ []) (sym h.0) (set_new k (f it) acc e.0))
    ∙ set_all-append f m (acc ++ (k, f it) ∷ []) h.2 (Fresh-append k (f it) acc m h.1 e.1)
    ∙ append_assoc acc ((k, f it) ∷ []) (map_values f m)

-- The values of a map, put in by their ids, make the map again.
pub set_all-values :
    (f : Item → Item) (m : Dict Item) → IsKeyed m → set_all f (values m) [] ≡ map_values f m
set_all-values f m h = set_all-append f m [] h (Fresh-nil m)

set_there :
    (k : Text) (it new : Item) (m done : Dict Item)
    → get k done ≡ none
    → set k new (done ++ (k, it) ∷ m) ≡ (done ++ (k, new) ∷ []) ++ m
unfolding get set
set_there k it new m [] e = rw (text_eq_refl k)
set_there k it new m ((j, w) ∷ done) e = ground (arith, set_there k it new m done)

set_all-replace :
    (f : Item → Item) (m done : Dict Item)
    → IsKeyed m
    → Fresh done m
    → set_all f (values m) (done ++ m) ≡ done ++ map_values f m
unfolding set_all
set_all-replace f [] done h u = refl
set_all-replace f ((k, it) ∷ m) done h u =
    ap (set_all f (values m)) (
      subst (λ j. set j (f it) (done ++ (k, it) ∷ m) ≡ (done ++ (k, f it) ∷ []) ++ m) (sym h.0)
        (set_there k it (f it) m done u.0))
    ∙ set_all-replace f m (done ++ (k, f it) ∷ []) h.2 (Fresh-append k (f it) done m h.1 u.1)
    ∙ append_assoc done ((k, f it) ∷ []) (map_values f m)

-- Every item of a map, put in anew, in its place.
pub set_all_self :
    (f : Item → Item) (m : Dict Item) → IsKeyed m → set_all f (values m) m ≡ map_values f m
set_all_self f m h = set_all-replace f m [] h (Fresh-nil m)

pub map_values-IsKeyed :
    (f : Item → Item) (m : Dict Item)
    → ((it : Item) → (f it).id ≡ it.id)
    → IsKeyed m
    → IsKeyed (map_values f m)
map_values-IsKeyed f [] e h = tt
map_values-IsKeyed f ((k, it) ∷ m) e h =
    (e it ∙ h.0, get-map_values f k m ∙ ap (Option.map f) h.1, map_values-IsKeyed f m e h.2)
