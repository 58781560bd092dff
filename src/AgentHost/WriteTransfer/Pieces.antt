-- ===== src/AgentHost/WriteTransfer/Pieces.antt =====
-- write-transfer.ts: the chunks of a representation are its bytes.
use copy_clipboard_app.Base.{
  ℕ, zero, suc, ◌-◌, ◌≤◌, ◌≡◌, refl, ap, ◌∙◌, List, [], ◌∷◌, ◌++◌, arith, length, take, drop, All,
  map,
}
use copy_clipboard_app.Protocol.Types.{Bytes}
use copy_clipboard_app.Protocol.Constants.{chunk_payload_bytes}
use copy_clipboard_app.AgentHost.WriteTransfer.{pieces, pieces_of}
use copy_clipboard_app.AgentHost.Reassembler.{concat}

module _ {A : Type 0} where
  take-drop : (n : ℕ) (xs : List A) → take n xs ++ drop n xs ≡ xs
  take-drop zero xs = refl
  take-drop (suc n) [] = refl
  take-drop (suc n) (x ∷ xs) = ap (λ ys. x ∷ ys) (take-drop n xs)

  length-take : (n : ℕ) (xs : List A) → length (take n xs) ≤ n
  length-take zero xs = omega arith
  length-take (suc n) [] = omega arith
  length-take (suc n) (x ∷ xs) = omega (arith, length-take n xs)

  length-drop : (n : ℕ) (xs : List A) → length (drop n xs) ≡ length xs - n
  length-drop zero xs = omega arith
  length-drop (suc n) [] = omega arith
  length-drop (suc n) (x ∷ xs) = omega (arith, length-drop n xs)

-- The numbers from one on, as many as there are pieces.
abbrev pub CountsFrom : ℕ → List (ℕ × Bytes) → Type 0
CountsFrom n [] = Unit
CountsFrom n ((seq, bytes) ∷ ps) = (seq ≡ n) × CountsFrom (suc n) ps

-- The bytes of the pieces.
abbrev pub payloads : List (ℕ × Bytes) → List Bytes
payloads = map λ (p : ℕ × Bytes). p.1

pieces-concat :
    (fuel seq : ℕ) (bytes : Bytes)
    → length bytes ≤ fuel
    → concat (payloads (pieces fuel seq bytes)) ≡ bytes
unfolding pieces
pieces-concat zero seq [] h = refl
pieces-concat zero seq (b ∷ bytes) h = absurd (omega (arith, h))
pieces-concat (suc fuel) seq [] h = refl
pieces-concat (suc fuel) seq (b ∷ bytes) h =
    ap (λ ys. take chunk_payload_bytes (b ∷ bytes) ++ ys)
      (pieces-concat fuel (suc seq) (drop chunk_payload_bytes (b ∷ bytes))
        (omega (arith, h, length-drop chunk_payload_bytes (b ∷ bytes))))
    ∙ take-drop chunk_payload_bytes (b ∷ bytes)

pieces-CountsFrom : (fuel seq : ℕ) (bytes : Bytes) → CountsFrom seq (pieces fuel seq bytes)
unfolding pieces
pieces-CountsFrom zero seq bytes = tt
pieces-CountsFrom (suc fuel) seq [] = tt
pieces-CountsFrom (suc fuel) seq (b ∷ bytes) = (refl, pieces-CountsFrom fuel (suc seq) _)

pieces_short :
    (fuel seq : ℕ) (bytes : Bytes)
    → All (λ b. length b ≤ chunk_payload_bytes) (payloads (pieces fuel seq bytes))
unfolding pieces
pieces_short zero seq bytes = tt
pieces_short (suc fuel) seq [] = tt
pieces_short (suc fuel) seq (b ∷ bytes) =
    (length-take chunk_payload_bytes (b ∷ bytes), pieces_short fuel (suc seq) _)

-- The chunks in which a representation is sent are its bytes when they are put together in order;
-- each has at most 32 KiB; and they are numbered from 0 on without a gap, as a receiver expects them.
pub pieces_of_lem :
    (bytes : Bytes)
    → (concat (payloads (pieces_of bytes)) ≡ bytes)
      × All (λ b. length b ≤ chunk_payload_bytes) (payloads (pieces_of bytes))
      × CountsFrom 0 (pieces_of bytes)
unfolding pieces_of
pieces_of_lem bytes = (
  pieces-concat (length bytes) 0 bytes (omega arith),
  pieces_short (length bytes) 0 bytes,
  pieces-CountsFrom (length bytes) 0 bytes,
)
