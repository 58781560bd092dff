-- ===== src/AgentHost/Reassembler/Examples.antt =====
-- A representation in two chunks, and one that is longer than it was declared.
use copy_clipboard_app.Base.{
  ℕ, Text, text_eq, codes, ◌≡◌, refl, Bool, true, false, none, List, [], ◌∷◌, get, set, delete,
}
use copy_clipboard_app.Protocol.Result.{rep_overflow}
use copy_clipboard_app.AgentHost.Reassembler.{
  DeclaredRep, RepChunkIn, Codec, Told, aborted, new_reassembler, Step, declares, chunks, run, step,
  declare, chunk, take_bytes, decode_base64, is_strict_base64, finish, abort, mark_ended,
}
use copy_clipboard_app.AgentHost.Reassembler.Bounds.{IsSound, reassembler-IsSound}

-- A codec that copies, and a hash that is the bytes.
plain : Codec
plain = record { from_base64 = λ s. s; to_base64 = λ b. b; content_hash = λ b. b }

abbrev declared : DeclaredRep
declared = record {
  rep_id = codes "r1";
  mime = codes "text/plain";
  uti = none;
  byte_length = 8;
  sha256 = codes "abcdefgh";
}

abbrev part : ℕ → Bool → Text → RepChunkIn
part seq final b64 = record { rep_id = codes "r1"; seq = seq; final = final; b64 = b64 }

abbrev steps : List Step
steps =
    declares 0 declared
    ∷ chunks 1 (part 0 false (codes "abcd"))
    ∷ chunks 2 (part 1 true (codes "efgh"))
    ∷ declares 3 declared
    ∷ chunks 4 (part 0 true (codes "abcdefghijkl"))
    ∷ []

reassembler-IsSound_example : IsSound plain (λ d. d ≡ declared) (run plain steps new_reassembler)
reassembler-IsSound_example =
    reassembler-IsSound plain (λ d. d ≡ declared) steps (refl, (tt, (tt, (refl, (tt, tt)))))

abbrev told_last : List Told → List Told
told_last [] = []
told_last (t ∷ []) = t ∷ []
told_last (t ∷ u ∷ ts) = told_last (u ∷ ts)

longer_than_declared :
    told_last (run plain steps new_reassembler).told
    ≡ aborted (codes "r1") (codes "text/plain") rep_overflow ∷ []
unfolding run step declare chunk take_bytes decode_base64 is_strict_base64 finish abort mark_ended
    get set delete text_eq plain
longer_than_declared = refl
