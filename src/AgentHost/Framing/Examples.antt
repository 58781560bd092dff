-- ===== src/AgentHost/Framing/Examples.antt =====
-- A stream in three chunks: a line cut in two, one that is too long, an empty one, and a rest.
use copy_clipboard_app.Base.{codes, ◌≤◌, ◌≡◌, refl, List, [], ◌∷◌, ◌++◌, length, ltb, if◌then◌else◌}
use copy_clipboard_app.Protocol.Types.{Bytes}
use copy_clipboard_app.AgentHost.Framing.{
  line, overflow, Splitter, new_splitter, cut, cut_lines, push, push_all,
}
use copy_clipboard_app.AgentHost.Framing.Lines.{lines_of}
use copy_clipboard_app.AgentHost.Framing.Says.{said, to_say, joined}
use copy_clipboard_app.AgentHost.Framing.Chunks.{push_all_lem}

abbrev chunks : List Bytes
chunks =
    codes "he"
    ∷ (codes "llo" ++ 10 ∷ codes "too long ")
    ∷ (codes "a line" ++ 10 ∷ 10 ∷ codes "on")
    ∷ []

reported : (push_all 5 chunks new_splitter).events ≡ line (codes "hello") ∷ overflow 9 ∷ []
unfolding push_all push cut_lines cut
reported = refl

push_all_lem_example :
    let s : Splitter = push_all 5 chunks new_splitter in
    (said s.events ≡ to_say 5 (joined chunks))
    × (s.buf ≡ (
        if ltb 5 (length (lines_of (joined chunks)).1) then [] else (lines_of (joined chunks)).1))
    × (length s.buf ≤ 5)
push_all_lem_example = push_all_lem 5 chunks
