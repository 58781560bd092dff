-- ===== src/Base/Maps.antt =====
-- Maps without a repeated key, sets without a repeated element, and copies of them.
use mathlib.Core.Path.{◌≡◌, refl, sym, ap, ◌∙◌}
use mathlib.Core.Logic.{inl, inr}
use mathlib.Core.Bool.{false}
use mathlib.Core.List.{List, [], ◌∷◌, ◌++◌, append-nil, append_assoc}
use mathlib.Core.Option.{none}
use native.Mathlib.Omega.{arith}
use copy_clipboard_app.Base.Bools.{Bool-cases}
use copy_clipboard_app.Base.Texts.{Text, text_eq, text_eq_iff}
use copy_clipboard_app.Base.Dicts.{
  Dict, add_all, set_each, get, set, delete, get-set, get-delete, includes, insert, without,
  includes-append, includes-without,
}

-- No element stands twice.
abbrev pub NoRepeats : List Text → Type 0
NoRepeats [] = Unit
NoRepeats (k ∷ s) = (includes k s ≡ false) × NoRepeats s

pub NoRepeats-append :
    (s : List Text) (k : Text) → NoRepeats s → includes k s ≡ false → NoRepeats (s ++ k ∷ [])
unfolding includes
NoRepeats-append [] k h e = (refl, tt)
NoRepeats-append (j ∷ s) k h e = (
  ground (arith, includes-append j s (k ∷ []), h.0, text_eq_iff j k, text_eq_iff k j),
  NoRepeats-append s k h.1 (ground arith),
)

pub insert-NoRepeats : (k : Text) (s : List Text) → NoRepeats s → NoRepeats (insert k s)
unfolding insert
insert-NoRepeats k s h = elim (Bool-cases (includes k s)) [
  | inl e ↦ rw e h
  | inr e ↦ rw e (NoRepeats-append s k h e)
]

pub without-NoRepeats : (k : Text) (s : List Text) → NoRepeats s → NoRepeats (without k s)
unfolding without
without-NoRepeats k [] h = tt
without-NoRepeats k (j ∷ s) h = elim (Bool-cases (text_eq j k)) [
  | inl e ↦ rw e (without-NoRepeats k s h.1)
  | inr e ↦ rw e (rw (includes-without k j s) (ground (arith, h.0)), without-NoRepeats k s h.1)
]

-- A set, added element by element to one that has none of them.
abbrev Unlike : List Text → List Text → Type 0
Unlike acc [] = Unit
Unlike acc (k ∷ s) = (includes k acc ≡ false) × Unlike acc s

Unlike-append :
    (k : Text) (acc s : List Text) → includes k s ≡ false → Unlike acc s → Unlike (acc ++ k ∷ []) s
unfolding includes
Unlike-append k acc [] e h = tt
Unlike-append k acc (j ∷ s) e h = (
  ground (arith, includes-append j acc (k ∷ []), h.0, text_eq_iff j k, text_eq_iff k j),
  Unlike-append k acc s (ground arith) h.1,
)

add_all-append : (s acc : List Text) → NoRepeats s → Unlike acc s → add_all acc s ≡ acc ++ s
unfolding insert
add_all-append [] acc h u = sym (append-nil acc)
add_all-append (k ∷ s) acc h u = rw u.0 (
    add_all-append s (acc ++ k ∷ []) h.1 (Unlike-append k acc s h.0 u.1)
    ∙ append_assoc acc (k ∷ []) s)

Unlike-nil : (s : List Text) → Unlike [] s
unfolding includes
Unlike-nil [] = tt
Unlike-nil (k ∷ s) = (refl, Unlike-nil s)

-- The copy of a set is the set.
pub add_all_self : (s : List Text) → NoRepeats s → add_all [] s ≡ s
add_all_self s h = add_all-append s [] h (Unlike-nil s)

module _ {V : Type 0} where
  -- No key stands twice.
  abbrev pub IsMap : Dict V → Type 0
  IsMap [] = Unit
  IsMap ((k, v) ∷ m) = (get k m ≡ none) × IsMap m

  pub set-IsMap : (k : Text) (v : V) (m : Dict V) → IsMap m → IsMap (set k v m)
  unfolding set get
  set-IsMap k v [] h = (refl, tt)
  set-IsMap k v ((j, w) ∷ m) h = elim (Bool-cases (text_eq j k)) [
    | inl same ↦ rw same h
    | inr other ↦ rw other (
      rw (get-set k j v m) (ground (arith, text_eq_iff k j, text_eq_iff j k, h.0)),
      set-IsMap k v m h.1,
    )
  ]

  pub delete-IsMap : (k : Text) (m : Dict V) → IsMap m → IsMap (delete k m)
  unfolding delete
  delete-IsMap k [] h = tt
  delete-IsMap k ((j, w) ∷ m) h = elim (Bool-cases (text_eq j k)) [
    | inl same ↦ rw same (delete-IsMap k m h.1)
    | inr other ↦
        rw other
          (rw (get-delete k j m) (ground (arith, text_eq_iff k j, h.0)), delete-IsMap k m h.1)
  ]

  -- No entry of `m` stands under a key of `acc`.
  abbrev pub Fresh : Dict V → Dict V → Type 0
  Fresh acc [] = Unit
  Fresh acc ((k, v) ∷ m) = (get k acc ≡ none) × Fresh acc m

  get-append_new :
      (j k : Text) (v : V) (acc : Dict V)
      → get j acc ≡ none
      → text_eq k j ≡ false
      → get j (acc ++ (k, v) ∷ []) ≡ none
  unfolding get
  get-append_new j k v [] e f = ground arith
  get-append_new j k v ((i, w) ∷ acc) e f = ground (arith, get-append_new j k v acc)

  pub Fresh-append :
      (k : Text) (v : V) (acc m : Dict V)
      → get k m ≡ none
      → Fresh acc m
      → Fresh (acc ++ (k, v) ∷ []) m
  unfolding get
  Fresh-append k v acc [] e h = tt
  Fresh-append k v acc ((j, w) ∷ m) e h = (
    get-append_new j k v acc h.0 (ground (arith, text_eq_iff j k, text_eq_iff k j)),
    Fresh-append k v acc m (ground arith) h.1,
  )

  pub Fresh-nil : (m : Dict V) → Fresh [] m
  unfolding get
  Fresh-nil [] = tt
  Fresh-nil ((k, v) ∷ m) = (refl, Fresh-nil m)

  pub set_new : (k : Text) (v : V) (m : Dict V) → get k m ≡ none → set k v m ≡ m ++ (k, v) ∷ []
  unfolding get set
  set_new k v [] e = refl
  set_new k v ((j, w) ∷ m) e = ground (arith, set_new k v m)

  set_each-append : (m acc : Dict V) → IsMap m → Fresh acc m → set_each m acc ≡ acc ++ m
  set_each-append [] acc h u = sym (append-nil acc)
  set_each-append ((k, v) ∷ m) acc h u =
      ap (set_each m) (set_new k v acc u.0)
      ∙ set_each-append m (acc ++ (k, v) ∷ []) h.1 (Fresh-append k v acc m h.0 u.1)
      ∙ append_assoc acc ((k, v) ∷ []) m

  -- The copy of a map is the map.
  pub set_each_self : (m : Dict V) → IsMap m → set_each m [] ≡ m
  set_each_self m h = set_each-append m [] h (Fresh-nil m)
