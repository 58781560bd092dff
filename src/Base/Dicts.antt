-- ===== src/Base/Dicts.antt =====
-- A JavaScript `Map` with string keys: entries in the order of insertion. `set` of a key that is
-- there keeps its place. A `Set` of strings is a list without repetition, in the same order.
use mathlib.Core.Path.{◌≡◌, refl}
use mathlib.Core.Bool.{Bool, true, false}
use mathlib.Core.List.{List, [], ◌∷◌, ◌++◌, map}
use mathlib.Core.Option.{Option, none, some}
use mathlib.Core.Option
use native.Mathlib.Omega.{arith}
use copy_clipboard_app.Base.Bools.{if◌then◌else◌}
use copy_clipboard_app.Base.Texts.{Text, text_eq, text_eq_iff}

abbrev pub Dict {ℓ} : Type ℓ → Type ℓ
Dict V = List (Text × V)

module _ {ℓ} {V : Type ℓ} where
  -- m.get(k)
  unfoldable pub get : Text → Dict V → Option V
  get k [] = none
  get k ((j, v) ∷ m) = if text_eq j k then some v else get k m

  -- m.set(k, v)
  unfoldable pub set : Text → V → Dict V → Dict V
  set k v [] = (k, v) ∷ []
  set k v ((j, w) ∷ m) = if text_eq j k then (j, v) ∷ m else (j, w) ∷ set k v m

  -- m.delete(k)
  unfoldable pub delete : Text → Dict V → Dict V
  delete k [] = []
  delete k ((j, v) ∷ m) = let rest = delete k m in if text_eq j k then rest else (j, v) ∷ rest

  -- m.values()
  abbrev pub values : Dict V → List V
  values = map λ (e : Text × V). e.1

  -- m.keys()
  abbrev pub keys : Dict V → List Text
  keys = map λ (e : Text × V). e.0

  pub get-set :
      (k j : Text) (v : V) (m : Dict V)
      → get j (set k v m) ≡ (if text_eq k j then some v else get j m)
  unfolding get set
  get-set k j v [] = refl
  get-set k j v ((i, w) ∷ m) =
      ground (arith, text_eq_iff k j, text_eq_iff i k, text_eq_iff i j, get-set k j v m)

  pub get-delete :
      (k j : Text) (m : Dict V) → get j (delete k m) ≡ (if text_eq k j then none else get j m)
  unfolding get delete
  get-delete k j [] = ground arith
  get-delete k j ((i, w) ∷ m) =
      ground (arith, text_eq_iff k j, text_eq_iff i k, text_eq_iff i j, get-delete k j m)

-- The same map with every value changed.
abbrev pub map_values {ℓ κ} : {V : Type ℓ} {W : Type κ} → (V → W) → Dict V → Dict W
map_values f [] = []
map_values f ((k, v) ∷ m) = (k, f v) ∷ map_values f m

module _ {ℓ κ} {V : Type ℓ} {W : Type κ} (f : V → W) where
  pub get-map_values : (k : Text) (m : Dict V) → get k (map_values f m) ≡ Option.map f (get k m)
  unfolding get
  get-map_values k [] = refl
  get-map_values k ((j, v) ∷ m) = ground (arith, get-map_values k m)

  pub set-map_values :
      (k : Text) (v : V) (m : Dict V) → set k (f v) (map_values f m) ≡ map_values f (set k v m)
  unfolding set
  set-map_values k v [] = refl
  set-map_values k v ((j, w) ∷ m) = ground (arith, set-map_values k v m)

  pub delete-map_values :
      (k : Text) (m : Dict V) → delete k (map_values f m) ≡ map_values f (delete k m)
  unfolding delete
  delete-map_values k [] = refl
  delete-map_values k ((j, w) ∷ m) = ground (arith, delete-map_values k m)

-- s.has(x), s.add(x) and s.delete(x) of a `Set`; xs.includes(x) of an array
unfoldable pub includes : Text → List Text → Bool
includes k [] = false
includes k (j ∷ s) = if text_eq j k then true else includes k s

unfoldable pub insert : Text → List Text → List Text
insert k s = if includes k s then s else s ++ k ∷ []

unfoldable pub without : Text → List Text → List Text
without k [] = []
without k (j ∷ s) = let rest = without k s in if text_eq j k then rest else j ∷ rest

-- The elements of an array, added one by one.
abbrev pub add_all : List Text → List Text → List Text
add_all s [] = s
add_all s (k ∷ ks) = add_all (insert k s) ks

-- The entries of a map, set one by one in another.
abbrev pub set_each {ℓ} : {V : Type ℓ} → Dict V → Dict V → Dict V
set_each [] m = m
set_each ((k, v) ∷ es) m = set_each es (set k v m)

pub includes-append :
    (k : Text) (s t : List Text)
    → includes k (s ++ t) ≡ (if includes k s then true else includes k t)
unfolding includes
includes-append k [] t = refl
includes-append k (j ∷ s) t = ground (arith, includes-append k s t)

pub includes-insert :
    (k j : Text) (s : List Text)
    → includes j (insert k s) ≡ (if text_eq k j then true else includes j s)
unfolding insert includes
includes-insert k j s = ground (arith, includes-append j s (k ∷ []), text_eq_iff k j)

pub includes-without :
    (k j : Text) (s : List Text)
    → includes j (without k s) ≡ (if text_eq k j then false else includes j s)
unfolding without includes
includes-without k j [] = ground arith
includes-without k j (i ∷ s) =
    ground (arith, text_eq_iff k j, text_eq_iff i k, text_eq_iff i j, includes-without k j s)
