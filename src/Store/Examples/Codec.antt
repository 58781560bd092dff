-- ===== src/Store/Examples/Codec.antt =====
-- A way to write the records of the log as numbers and to read them again, which stands for JSON in the
-- examples.
use copy_clipboard_app.Base.{
  ℕ, zero, suc, ◌≡◌, refl, ap, ◌∙◌, Bool, true, false, Option, none, some, List, [], ◌∷◌, ◌++◌,
  length,
}
use mathlib.Core.List.{append_assoc}
use copy_clipboard_app.Protocol.Types.{ItemKind}

pub record Codec (A : Type 0) : Type 0 where
  pub print : A → List ℕ
  pub scan : List ℕ → Option (A × List ℕ)
  pub scan-print : (a : A) (rest : List ℕ) → scan (print a ++ rest) ≡ some (a, rest)

scan_nat : List ℕ → Option (ℕ × List ℕ)
scan_nat [] = none
scan_nat (n ∷ rest) = some (n, rest)

pub nat : Codec ℕ
unfolding scan_nat
nat = record { print = λ n. n ∷ []; scan = scan_nat; scan-print = λ n rest. refl }

module _ {A B : Type 0} where
  abbrev after_second : A → Option (B × List ℕ) → Option ((A × B) × List ℕ)
  after_second a none = none
  after_second a (some (b, rest)) = some ((a, b), rest)

  abbrev after_first : Codec B → Option (A × List ℕ) → Option ((A × B) × List ℕ)
  after_first d none = none
  after_first d (some (a, rest)) = after_second a (d.scan rest)

  pub pair : Codec A → Codec B → Codec (A × B)
  pair c d = record {
    print = λ (x : A × B). c.print x.0 ++ d.print x.1;
    scan = λ l. after_first d (c.scan l);
    scan-print = λ x rest.
        ap (λ l. after_first d (c.scan l)) (append_assoc (c.print x.0) (d.print x.1) rest)
        ∙ ap (after_first d) (c.scan-print x.0 (d.print x.1 ++ rest))
        ∙ ap (after_second x.0) (d.scan-print x.1 rest);
  }

  abbrev mapped : (A → B) → Option (A × List ℕ) → Option (B × List ℕ)
  mapped f none = none
  mapped f (some (a, rest)) = some (f a, rest)

  pub through : (f : A → B) (g : B → A) → ((b : B) → f (g b) ≡ b) → Codec A → Codec B
  through f g e c = record {
    print = λ b. c.print (g b);
    scan = λ l. mapped f (c.scan l);
    scan-print =
        λ b rest. ap (mapped f) (c.scan-print (g b) rest) ∙ ap (λ b'. some (b', rest)) (e b);
  }

module _ {A : Type 0} (c : Codec A) where
  abbrev print_option : Option A → List ℕ
  print_option none = 0 ∷ []
  print_option (some a) = 1 ∷ c.print a

  abbrev as_some : Option (A × List ℕ) → Option (Option A × List ℕ)
  as_some none = none
  as_some (some (a, rest)) = some (some a, rest)

  abbrev scan_option : List ℕ → Option (Option A × List ℕ)
  scan_option [] = none
  scan_option (zero ∷ rest) = some (none, rest)
  scan_option (suc n ∷ rest) = as_some (c.scan rest)

  scan_option-print :
      (o : Option A) (rest : List ℕ) → scan_option (print_option o ++ rest) ≡ some (o, rest)
  scan_option-print none rest = refl
  scan_option-print (some a) rest = ap as_some (c.scan-print a rest)

  pub option : Codec (Option A)
  option = record { print = print_option; scan = scan_option; scan-print = scan_option-print }

  abbrev print_each : List A → List ℕ
  print_each [] = []
  print_each (a ∷ as') = c.print a ++ print_each as'

  abbrev with_head : A → Option (List A × List ℕ) → Option (List A × List ℕ)
  with_head a none = none
  with_head a (some (as', rest)) = some (a ∷ as', rest)

  abbrev then_tail :
      (List ℕ → Option (List A × List ℕ)) → Option (A × List ℕ) → Option (List A × List ℕ)
  then_tail more none = none
  then_tail more (some (a, rest)) = with_head a (more rest)

  abbrev scan_each : ℕ → List ℕ → Option (List A × List ℕ)
  scan_each zero l = some ([], l)
  scan_each (suc n) l = then_tail (scan_each n) (c.scan l)

  scan_each-print :
      (as' : List A) (rest : List ℕ)
      → scan_each (length as') (print_each as' ++ rest) ≡ some (as', rest)
  scan_each-print [] rest = refl
  scan_each-print (a ∷ as') rest =
      ap (λ l. then_tail (scan_each (length as')) (c.scan l))
        (append_assoc (c.print a) (print_each as') rest)
      ∙ ap (then_tail (scan_each (length as'))) (c.scan-print a (print_each as' ++ rest))
      ∙ ap (with_head a) (scan_each-print as' rest)

  abbrev scan_list : List ℕ → Option (List A × List ℕ)
  scan_list [] = none
  scan_list (n ∷ rest) = scan_each n rest

  pub list_of : Codec (List A)
  list_of = record {
    print = λ as'. length as' ∷ print_each as';
    scan = scan_list;
    scan-print = scan_each-print;
  }

abbrev pub nth : {A : Type 0} → A → List A → ℕ → A
nth a [] n = a
nth a (b ∷ bs) zero = b
nth a (b ∷ bs) (suc n) = nth a bs n

abbrev place_of_bool : Bool → ℕ
place_of_bool false = 0
place_of_bool true = 1

pub bool : Codec Bool
bool = through (nth false (false ∷ true ∷ [])) place_of_bool law nat
  where
    law : (b : Bool) → nth false (false ∷ true ∷ []) (place_of_bool b) ≡ b
    law false = refl
    law true = refl

abbrev place_of_kind : ItemKind → ℕ
place_of_kind ItemKind.text = 0
place_of_kind ItemKind.richtext = 1
place_of_kind ItemKind.image = 2
place_of_kind ItemKind.files = 3

abbrev kinds : List ItemKind
kinds = ItemKind.text ∷ ItemKind.richtext ∷ ItemKind.image ∷ ItemKind.files ∷ []

pub kind : Codec ItemKind
kind = through (nth ItemKind.text kinds) place_of_kind law nat
  where
    law : (k : ItemKind) → nth ItemKind.text kinds (place_of_kind k) ≡ k
    law ItemKind.text = refl
    law ItemKind.richtext = refl
    law ItemKind.image = refl
    law ItemKind.files = refl
