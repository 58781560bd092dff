-- ===== src/AgentHost/WriteTransfer/Examples.antt =====
-- A representation of five bytes is one chunk, and an empty one is none.
use copy_clipboard_app.Base.{codes, ◌≡◌, ◌≤◌, refl, [], All, length}
use copy_clipboard_app.Protocol.Constants.{chunk_payload_bytes}
use copy_clipboard_app.AgentHost.Reassembler.{concat}
use copy_clipboard_app.AgentHost.WriteTransfer.{pieces, pieces_of}
use copy_clipboard_app.AgentHost.WriteTransfer.Pieces.{payloads, CountsFrom, pieces_of_lem}

empty_pieces : pieces_of [] ≡ []
unfolding pieces_of pieces
empty_pieces = refl

pieces_of_lem_example :
    (concat (payloads (pieces_of (codes "hello"))) ≡ codes "hello")
    × All (λ b. length b ≤ chunk_payload_bytes) (payloads (pieces_of (codes "hello")))
    × CountsFrom 0 (pieces_of (codes "hello"))
pieces_of_lem_example = pieces_of_lem (codes "hello")
