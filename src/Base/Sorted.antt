-- ===== src/Base/Sorted.antt =====
-- What `sort` does when `before` is a strict order: the result is in order, and it is the same for
-- every rearrangement of a list of which no two elements tie.
use mathlib.Core.Path.{◌≡◌, refl, ◌∙◌, subst}
use mathlib.Core.Logic.{inl, inr}
use mathlib.Core.Bool.{Bool, true, false, not}
use mathlib.Core.List.{List, [], ◌∷◌, Permᴰ}
use native.Mathlib.Omega.{arith}
use copy_clipboard_app.Base.Bools.{Bool-cases}
use copy_clipboard_app.Base.Lists.{All, All-map_impl}
use copy_clipboard_app.Base.Sorts.{insert_sorted, sort, insert_sorted-All}

-- Every element is related to every later one.
abbrev pub Pairs {ℓ} : {A : Type ℓ} → (A → A → Type 0) → List A → Type 0
Pairs R [] = Unit
Pairs R (x ∷ xs) = All (R x) xs × Pairs R xs

-- A strict order that may tie.
pub record IsStrict {ℓ} {A : Type ℓ} (before : A → A → Bool) : Type ℓ where
  pub asymm : (x y : A) → before x y ≡ true → before y x ≡ false
  pub cotrans : (x y z : A) → before x z ≡ true → before y z ≡ false → before x y ≡ true

module _ {ℓ} {A : Type ℓ} (before : A → A → Bool) (o : IsStrict before) where
  abbrev pub InOrder : A → A → Type 0
  InOrder x y = before y x ≡ false

  insert_sorted-Pairs :
      (x : A) (ys : List A) → Pairs InOrder ys → Pairs InOrder (insert_sorted before x ys)
  unfolding insert_sorted
  insert_sorted-Pairs x [] h = (tt, tt)
  insert_sorted-Pairs x (y ∷ ys) h = elim (Bool-cases (before y x)) [
    | inl e ↦ rw e (
      insert_sorted-All (InOrder y) before x ys (o.asymm y x e) h.0,
      insert_sorted-Pairs x ys h.1,
    )
    | inr e ↦ rw e ((e, All-map_impl (InOrder y) (λ z k. behind x y z e k) ys h.0), h)
  ]
    where
      behind : (x y z : A) → before y x ≡ false → before z y ≡ false → before z x ≡ false
      behind x y z e k = elim (Bool-cases (before z x)) [
        | inl g ↦ cc (k, o.cotrans z y x g e)
        | inr g ↦ g
      ]

  -- The result of `sort` is in order.
  pub sort-Pairs : (xs : List A) → Pairs InOrder (sort before xs)
  unfolding sort
  sort-Pairs [] = tt
  sort-Pairs (x ∷ xs) = insert_sorted-Pairs x (sort before xs) (sort-Pairs xs)

  -- One of two elements stands before the other.
  abbrev pub Apart : A → A → Type 0
  Apart x y = before x y ≡ not (before y x)

  insert_comm :
      (x y : A) (zs : List A)
      → Apart x y
      → insert_sorted before x (insert_sorted before y zs)
        ≡ insert_sorted before y (insert_sorted before x zs)
  unfolding insert_sorted
  insert_comm x y [] h = ground arith
  insert_comm x y (z ∷ zs) h = ground (arith, insert_comm x y zs, o.cotrans z y x, o.cotrans z x y)

  -- Through a rearrangement.
  pub All-Permᴰ {κ} : (P : A → Type κ) {xs ys : List A} → Permᴰ xs ys → All P xs → All P ys
  All-Permᴰ P Permᴰ.nil h = tt
  All-Permᴰ P (Permᴰ.cons e p) h = (subst P e h.0, All-Permᴰ P p h.1)
  All-Permᴰ P (Permᴰ.swap e f) h = (subst P f h.1.0, (subst P e h.0, h.1.1))
  All-Permᴰ P (Permᴰ.trans p q) h = All-Permᴰ P q (All-Permᴰ P p h)

  Pairs-Permᴰ : {xs ys : List A} → Permᴰ xs ys → Pairs Apart xs → Pairs Apart ys
  Pairs-Permᴰ Permᴰ.nil h = tt
  Pairs-Permᴰ (Permᴰ.cons {b = b} {l₁ = xs} e p) h =
      (All-Permᴰ (Apart b) p (subst (λ c. All (Apart c) xs) e h.0), Pairs-Permᴰ p h.1)
  Pairs-Permᴰ (Permᴰ.swap {a = a} {b = b} {b' = b'} {l = l} e f) h =
      subst (λ c. Pairs Apart (c ∷ b' ∷ l)) f
        (subst (λ c. Pairs Apart (b ∷ c ∷ l)) e ((flip h.0.0, h.1.0), (h.0.1, h.1.1)))
    where
      flip : Apart a b → Apart b a
      flip k = ground arith
  Pairs-Permᴰ (Permᴰ.trans p q) h = Pairs-Permᴰ q (Pairs-Permᴰ p h)

  -- A list of which no two elements tie has one sorted form, in whatever order it is given.
  pub sort-Permᴰ : {xs ys : List A} → Permᴰ xs ys → Pairs Apart xs → sort before xs ≡ sort before ys
  unfolding sort
  sort-Permᴰ Permᴰ.nil h = refl
  sort-Permᴰ (Permᴰ.cons {b = b} e p) h = cc (e, sort-Permᴰ p h.1)
  sort-Permᴰ (Permᴰ.swap {a = a} {b = b} {l = l} e f) h =
      rw (← e, ← f) (insert_comm a b (sort before l) h.0.0)
  sort-Permᴰ (Permᴰ.trans p q) h = sort-Permᴰ p h ∙ sort-Permᴰ q (Pairs-Permᴰ p h)

  -- A relation that holds down a sorted list holds between any two elements of which one stands
  -- before the other.
  module _ (R : A → A → Type 0) where
    abbrev Guarded : A → A → Type 0
    Guarded x y = before x y ≡ true → R x y

    Guarded-self : (x : A) → Guarded x x
    Guarded-self x e = cc (e, o.asymm x x e)

    Guarded-later : (x y : A) → InOrder x y → Guarded y x
    Guarded-later x y k e = cc (k, e)

    Guarded-add :
        (x : A) (xs zs : List A)
        → All (λ z. InOrder x z) zs
        → All (λ z. All (Guarded z) xs) zs
        → All (λ z. All (Guarded z) (x ∷ xs)) zs
    Guarded-add x xs [] h k = tt
    Guarded-add x xs (z ∷ zs) h k = ((Guarded-later x z h.0, k.0), Guarded-add x xs zs h.1 k.1)

    pub Pairs-everywhere :
        (xs : List A)
        → Pairs InOrder xs
        → Pairs R xs
        → All (λ x. All (λ y. before x y ≡ true → R x y) xs) xs
    Pairs-everywhere [] h k = tt
    Pairs-everywhere (x ∷ xs) h k = (
      (Guarded-self x, All-map_impl (R x) (λ y r _. r) xs k.0),
      Guarded-add x xs xs h.0 (Pairs-everywhere xs h.1 k.1),
    )
