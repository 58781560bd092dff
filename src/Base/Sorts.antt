-- ===== src/Base/Sorts.antt =====
-- `Array.prototype.sort`: stable, by a Boolean `before a b`, "a stands strictly before b".
use Prim.Native.Nat.{ℕ, ◌+◌}
use mathlib.Core.Path.{◌≡◌, refl}
use mathlib.Core.Logic.{◌⊎◌, inl, inr}
use mathlib.Core.Bool.{Bool, true, false}
use mathlib.Core.List.{List, [], ◌∷◌, Perm}
use mathlib.Core.List.Perm
use native.Mathlib.Omega.{arith}
use copy_clipboard_app.Base.Bools.{if◌then◌else◌, Bool-cases}
use copy_clipboard_app.Base.Lists.{sum_by, All, Some, either}

module _ {ℓ} {A : Type ℓ} (before : A → A → Bool) where
  -- An element goes before the first that does not stand strictly before it.
  unfoldable pub insert_sorted : A → List A → List A
  insert_sorted x [] = x ∷ []
  insert_sorted x (y ∷ ys) = if before y x then y ∷ insert_sorted x ys else x ∷ y ∷ ys

  unfoldable pub sort : List A → List A
  unfolding insert_sorted
  sort [] = []
  sort (x ∷ xs) = insert_sorted x (sort xs)

module _ {ℓ} {A : Type ℓ} where
  -- Whatever holds of each element, by position, of a list that is sorted.
  pub insert_sorted-perm :
      (before : A → A → Bool) (x : A) (ys : List A) → Perm (insert_sorted before x ys) (x ∷ ys)
  unfolding insert_sorted
  insert_sorted-perm before x [] = Perm.refl _
  insert_sorted-perm before x (y ∷ ys) = elim (Bool-cases (before y x)) [
    | inl e ↦ rw e (Perm.trans (Perm.cons y (insert_sorted-perm before x ys)) (Perm.swap x y ys))
    | inr e ↦ rw e (Perm.refl _)
  ]

  pub sort-perm : (before : A → A → Bool) (xs : List A) → Perm (sort before xs) xs
  unfolding sort
  sort-perm before [] = Perm.nil
  sort-perm before (x ∷ xs) =
      Perm.trans (insert_sorted-perm before x (sort before xs)) (Perm.cons x (sort-perm before xs))

-- The sum of a measure does not see the order.
module _ {ℓ} {A : Type ℓ} (f : A → ℕ) (before : A → A → Bool) where
  sum_by-insert_sorted :
      (x : A) (ys : List A) → sum_by f (insert_sorted before x ys) ≡ f x + sum_by f ys
  unfolding insert_sorted
  sum_by-insert_sorted x [] = omega arith
  sum_by-insert_sorted x (y ∷ ys) = ground (arith, sum_by-insert_sorted x ys)

  pub sum_by-sort : (xs : List A) → sum_by f (sort before xs) ≡ sum_by f xs
  unfolding sort
  sum_by-sort [] = refl
  sum_by-sort (x ∷ xs) = omega (arith, sum_by-insert_sorted x (sort before xs), sum_by-sort xs)

module _ {ℓ κ} {A : Type ℓ} (P : A → Type κ) (before : A → A → Bool) where
  All-insert_sorted : (x : A) (ys : List A) → All P (insert_sorted before x ys) → P x × All P ys
  unfolding insert_sorted
  All-insert_sorted x [] h = h
  All-insert_sorted x (y ∷ ys) h =
      (elim (before y x)
          as (λ b.
            All P (if b then y ∷ insert_sorted before x ys else x ∷ y ∷ ys)
            → P x × All P (y ∷ ys)) [
              | true ↦ λ k. let (p, q) = All-insert_sorted x ys k.1 in (p, (k.0, q))
              | false ↦ λ k. k
            ])
        h

  -- A property that every element of the sorted list has, every element of the list has.
  pub All-of-All-sort : (xs : List A) → All P (sort before xs) → All P xs
  unfolding sort
  All-of-All-sort [] h = tt
  All-of-All-sort (x ∷ xs) h =
      let (p, q) = All-insert_sorted x (sort before xs) h in (p, All-of-All-sort xs q)

  pub insert_sorted-All : (x : A) (ys : List A) → P x → All P ys → All P (insert_sorted before x ys)
  unfolding insert_sorted
  insert_sorted-All x [] p h = (p, tt)
  insert_sorted-All x (y ∷ ys) p h =
      elim (before y x) as (λ b. All P (if b then y ∷ insert_sorted before x ys else x ∷ y ∷ ys)) [
        | true ↦ (h.0, insert_sorted-All x ys p h.1)
        | false ↦ (p, h)
      ]

  pub sort-All : (xs : List A) → All P xs → All P (sort before xs)
  unfolding sort
  sort-All [] h = tt
  sort-All (x ∷ xs) h = insert_sorted-All x (sort before xs) h.0 (sort-All xs h.1)

module _ {ℓ} {A : Type ℓ} (P : A → Type 0) (before : A → A → Bool) where
  Some-insert_sorted : (x : A) (ys : List A) → Some P (insert_sorted before x ys) → P x ⊎ Some P ys
  unfolding insert_sorted
  Some-insert_sorted x [] h = h
  Some-insert_sorted x (y ∷ ys) h =
      (elim (before y x)
          as (λ b.
            Some P (if b then y ∷ insert_sorted before x ys else x ∷ y ∷ ys)
            → P x ⊎ Some P (y ∷ ys)) [
              | true ↦
                  either (λ p. inr (inl p))
                    (λ q. either inl (λ r. inr (inr r)) (Some-insert_sorted x ys q))
              | false ↦ λ k. k
            ])
        h

  -- An element of the sorted list is an element of the list.
  pub Some-of-Some-sort : (xs : List A) → Some P (sort before xs) → Some P xs
  unfolding sort
  Some-of-Some-sort [] h = h
  Some-of-Some-sort (x ∷ xs) h =
      either inl (λ q. inr (Some-of-Some-sort xs q)) (Some-insert_sorted x (sort before xs) h)
