-- ===== src/AgentHost/Core/Examples.antt =====
-- Lines in chunks: a hotkey, ten lines in a row that do not parse, and one that is too long.
use copy_clipboard_app.Base.{
  ℕ, zero, suc, Text, text_eq, codes, ◌≡◌, refl, Option, some, List, [], ◌∷◌, ◌++◌, if◌then◌else◌,
}
use copy_clipboard_app.Protocol.Types.{Bytes}
use copy_clipboard_app.Protocol.Result.{Result, ok, err, parse, line_too_long}
use copy_clipboard_app.AgentHost.Framing.{new_splitter, push, cut, cut_lines}
use copy_clipboard_app.AgentHost.Framing.Says.{to_say, joined}
use copy_clipboard_app.AgentHost.Reassembler.{Codec}
use copy_clipboard_app.AgentHost.Core.{
  AgentLine, hotkey_fired, new_core, Core, handle_line, hear, hear_each, handle_bytes, handle_all,
}
use copy_clipboard_app.AgentHost.Core.Stream.{hear_lines, handle_all_lem}

plain : Codec
plain = record { from_base64 = λ s. s; to_base64 = λ b. b; content_hash = λ b. b }

schema : Text → ℕ → Option ℕ
schema method r = some r

parse_line : Bytes → Result (AgentLine ℕ)
parse_line l = if text_eq l (codes "hot") then ok (hotkey_fired l l 0) else err parse

abbrev repeated : ℕ → Bytes → Bytes
repeated zero b = []
repeated (suc n) b = b ++ repeated n b

abbrev chunks : List Bytes
chunks =
    codes "ho"
    ∷ (codes "t" ++ 10 ∷ repeated 9 (codes "bad" ++ 10 ∷ []))
    ∷ (codes "worse" ++ 10 ∷ codes "much too lon")
    ∷ codes "g"
    ∷ []

abbrev heard : Core ℕ
heard = (handle_all plain schema parse_line 8 0 chunks (new_splitter, new_core)).1

given_up : heard.fatals ≡ parse ∷ line_too_long ∷ []
unfolding handle_all handle_bytes hear_each hear handle_line push cut_lines cut parse_line text_eq
given_up = refl

handle_all_lem_example :
    (handle_all plain schema parse_line 8 0 chunks (new_splitter, new_core)).1
    ≡ hear_lines plain schema parse_line 0 (to_say 8 (joined chunks)) new_core
handle_all_lem_example = handle_all_lem plain schema parse_line 8 0 chunks new_core
