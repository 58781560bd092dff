-- ===== src/AgentHost/Reassembler/Entries.antt =====
-- Maps whose entries all satisfy a predicate, and the lengths of maps and of parts put together.
use copy_clipboard_app.Base.{
  suc, ◌+◌, ◌≤◌, ◌≡◌, refl, subst, Text, text_eq, inl, inr, some, List, [], ◌∷◌, ◌++◌, arith,
  length, length-append, sum_by, Bool-cases, Dict, get, set, delete, All,
}
use copy_clipboard_app.Protocol.Types.{Bytes}
use copy_clipboard_app.AgentHost.Reassembler.{concat}

module _ {V : Type 0} (P : V → Type 0) where
  -- Every entry of the map satisfies the predicate.
  abbrev pub AllIn : Dict V → Type 0
  AllIn = All λ (e : Text × V). P e.1

  pub set-AllIn : (k : Text) (v : V) (m : Dict V) → P v → AllIn m → AllIn (set k v m)
  unfolding set
  set-AllIn k v [] p h = (p, tt)
  set-AllIn k v ((j, w) ∷ m) p h = elim (Bool-cases (text_eq j k)) [
    | inl e ↦ rw e (p, h.1)
    | inr e ↦ rw e (h.0, set-AllIn k v m p h.1)
  ]

  pub delete-AllIn : (k : Text) (m : Dict V) → AllIn m → AllIn (delete k m)
  unfolding delete
  delete-AllIn k [] h = tt
  delete-AllIn k ((j, w) ∷ m) h = elim (Bool-cases (text_eq j k)) [
    | inl e ↦ rw e (delete-AllIn k m h.1)
    | inr e ↦ rw e (h.0, delete-AllIn k m h.1)
  ]

  pub get-AllIn : (k : Text) (v : V) (m : Dict V) → AllIn m → get k m ≡ some v → P v
  unfolding get
  get-AllIn k v [] h e = cc
  get-AllIn k v ((j, w) ∷ m) h e = elim (Bool-cases (text_eq j k)) [
    | inl same ↦ let found : w ≡ v = ground arith in subst P found h.0
    | inr other ↦ get-AllIn k v m h.1 (ground arith)
  ]

module _ {V : Type 0} where
  pub length-set : (k : Text) (v : V) (m : Dict V) → length (set k v m) ≤ suc (length m)
  unfolding set
  length-set k v [] = omega arith
  length-set k v ((j, w) ∷ m) = ground (arith, length-set k v m)

  pub length-delete : (k : Text) (m : Dict V) → length (delete k m) ≤ length m
  unfolding delete
  length-delete k [] = omega arith
  length-delete k ((j, w) ∷ m) = ground (arith, length-delete k m)

  pub length-set_there :
      (k : Text) (v w : V) (m : Dict V) → get k m ≡ some w → length (set k v m) ≡ length m
  unfolding set get
  length-set_there k v w [] e = cc
  length-set_there k v w ((j, u) ∷ m) e = ground (arith, length-set_there k v w m)

pub sum_parts :
    (parts : List Bytes) (bytes : Bytes)
    → sum_by length (parts ++ bytes ∷ []) ≡ sum_by length parts + length bytes
sum_parts [] bytes = omega arith
sum_parts (p ∷ parts) bytes = omega (arith, sum_parts parts bytes)

pub length-concat : (parts : List Bytes) → length (concat parts) ≡ sum_by length parts
length-concat [] = refl
length-concat (p ∷ parts) = omega (arith, length-append p (concat parts), length-concat parts)
