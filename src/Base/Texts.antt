-- ===== src/Base/Texts.antt =====
-- JavaScript strings as their UTF-16 code units, with `===` and `<`.
use Prim.Native.Nat.{ℕ}
use Prim.Native.Char.{code}
use Prim.Native.String.{String}
use mathlib.Core.Path.{◌≡◌, refl}
use mathlib.Core.Logic.{◌↔◌}
use mathlib.Core.Bool.{Bool, true, false}
use mathlib.Core.List.{List, [], ◌∷◌}
use native.Mathlib.Omega.{arith}
use copy_clipboard_app.Base.Bools.{ltb, ◌==◌, if◌then◌else◌}

abbrev pub Text : Type 0
Text = List ℕ

-- The code units of a literal whose characters are all ASCII.
abbrev pub codes : String → Text
codes String.[] = []
codes (String.◌∷◌ c s) = code c ∷ codes s

unfoldable pub text_eq : Text → Text → Bool
text_eq [] [] = true
text_eq [] (b ∷ bs) = false
text_eq (a ∷ as') [] = false
text_eq (a ∷ as') (b ∷ bs) = if a == b then text_eq as' bs else false

-- s < t, by the first code unit that differs; a proper prefix comes first.
unfoldable pub text_lt : Text → Text → Bool
text_lt [] [] = false
text_lt [] (b ∷ bs) = true
text_lt (a ∷ as') [] = false
text_lt (a ∷ as') (b ∷ bs) = if a == b then text_lt as' bs else ltb a b

pub text_eq→eq : (s t : Text) → text_eq s t ≡ true → s ≡ t
unfolding text_eq
text_eq→eq [] [] h = refl
text_eq→eq [] (b ∷ bs) h = cc
text_eq→eq (a ∷ as') [] h = cc
text_eq→eq (a ∷ as') (b ∷ bs) h = ground (arith, text_eq→eq as' bs)

pub text_eq_refl : (s : Text) → text_eq s s ≡ true
unfolding text_eq
text_eq_refl [] = refl
text_eq_refl (a ∷ as') = ground (arith, text_eq_refl as')

pub text_eq_iff : (s t : Text) → (text_eq s t ≡ true) ↔ (s ≡ t)
text_eq_iff s t = (text_eq→eq s t, λ e. rw e (text_eq_refl t))

pub text_lt_asymm : (s t : Text) → text_lt s t ≡ true → text_lt t s ≡ false
unfolding text_lt
text_lt_asymm [] [] h = refl
text_lt_asymm [] (b ∷ bs) h = refl
text_lt_asymm (a ∷ as') [] h = cc
text_lt_asymm (a ∷ as') (b ∷ bs) h = ground (arith, text_lt_asymm as' bs)

-- What comes before `u`, where `t` does not, comes before `t`.
pub text_lt_cotrans : (s t u : Text) → text_lt s u ≡ true → text_lt t u ≡ false → text_lt s t ≡ true
unfolding text_lt
text_lt_cotrans [] [] u h k = cc
text_lt_cotrans [] (b ∷ bs) u h k = refl
text_lt_cotrans (a ∷ as') [] [] h k = cc
text_lt_cotrans (a ∷ as') [] (c ∷ cs) h k = cc
text_lt_cotrans (a ∷ as') (b ∷ bs) [] h k = cc
text_lt_cotrans (a ∷ as') (b ∷ bs) (c ∷ cs) h k = ground (arith, text_lt_cotrans as' bs cs)

-- Two strings of which neither comes first are the same.
pub text_lt_total : (s t : Text) → text_lt s t ≡ false → text_lt t s ≡ false → s ≡ t
unfolding text_lt
text_lt_total [] [] h k = refl
text_lt_total [] (b ∷ bs) h k = cc
text_lt_total (a ∷ as') [] h k = cc
text_lt_total (a ∷ as') (b ∷ bs) h k = ground (arith, text_lt_total as' bs)
