-- ===== src/AgentHost/Core/Stream.antt =====
-- packages/agent-host/src/spawn-agent.ts: the core hears the lines of the stream, whatever its chunks.
use mathlib.Core.List.{append_assoc, append-nil}
use copy_clipboard_app.Base.{
  ℕ, zero, suc, ◌≡◌, refl, sym, ap, ◌∙◌, Text, true, false, inl, inr, Option, none, some, List, [],
  ◌∷◌, ◌++◌, length, ltb, Bool-cases,
}
use copy_clipboard_app.Protocol.Types.{Bytes}
use copy_clipboard_app.Protocol.Result.{Result, line_too_long}
use copy_clipboard_app.AgentHost.Framing.{
  Event, line, overflow, Splitter, new_splitter, cut, cut_round, cut_lines, report, take_line,
  settle, push, push_all,
}
use copy_clipboard_app.AgentHost.Framing.Says.{Said, said, to_say, joined}
use copy_clipboard_app.AgentHost.Framing.Chunks.{push_all_lem}
use copy_clipboard_app.AgentHost.Reassembler.{Codec}
use copy_clipboard_app.AgentHost.Core.{
  AgentLine, Core, handle_line, hear, hear_each, handle_bytes, handle_all, on_fatal,
}

-- The splitter with other events in front of its own
abbrev behind : List Event → Splitter → Splitter
behind es s = record s { events = es ++ s.events }

report-append :
    (max : ℕ) (l : Bytes) (es fs : List Event) → report max l (es ++ fs) ≡ es ++ report max l fs
report-append max l es fs = elim (Bool-cases (ltb max (length l))) [
  | inl e ↦ rw e (append_assoc es fs (overflow (length l) ∷ []))
  | inr e ↦ elim (Bool-cases (ltb 0 (length l))) [
    | inl f ↦ rw (e, f) (append_assoc es fs (line l ∷ []))
    | inr f ↦ rw (e, f) refl
  ]
]

take_line-behind :
    (max : ℕ) (l rest : Bytes) (es : List Event) (s : Splitter)
    → take_line max l rest (behind es s) ≡ behind es (take_line max l rest s)
take_line-behind max l rest es s = elim (Bool-cases s.discarding) [
  | inl e ↦ rw e refl
  | inr e ↦ rw e (
      ap (λ fs. record { buf = rest; discarding = false; events = fs })
        (report-append max l es s.events))
]

cut_round-behind :
    (max : ℕ) (again : Splitter → Splitter) (o : Option (Bytes × Bytes)) (es : List Event)
    (s : Splitter)
    → ((es : List Event) (s : Splitter) → again (behind es s) ≡ behind es (again s))
    → cut_round max again o (behind es s) ≡ behind es (cut_round max again o s)
cut_round-behind max again none es s h = refl
cut_round-behind max again (some (l, rest)) es s h =
    ap again (take_line-behind max l rest es s) ∙ h es (take_line max l rest s)

cut_lines-behind :
    (max fuel : ℕ) (es : List Event) (s : Splitter)
    → cut_lines max fuel (behind es s) ≡ behind es (cut_lines max fuel s)
unfolding cut_lines
cut_lines-behind max zero es s = refl
cut_lines-behind max (suc fuel) es s =
    cut_round-behind max (cut_lines max fuel) (cut s.buf) es s
      (λ fs t. cut_lines-behind max fuel fs t)

settle-behind :
    (max : ℕ) (es : List Event) (s : Splitter) → settle max (behind es s) ≡ behind es (settle max s)
settle-behind max es s = elim (Bool-cases s.discarding) [
  | inl e ↦ rw e refl
  | inr e ↦ elim (Bool-cases (ltb max (length s.buf))) [
    | inl f ↦
        rw (e, f)
          (ap (λ fs. record { buf = []; discarding = true; events = fs })
            (append_assoc es s.events (overflow (length s.buf) ∷ [])))
    | inr f ↦ rw (e, f) refl
  ]
]

push-behind :
    (max : ℕ) (chunk : Bytes) (es : List Event) (s : Splitter)
    → push max chunk (behind es s) ≡ behind es (push max chunk s)
unfolding push
push-behind max chunk es s =
    let held = s.buf ++ chunk in
    ap (settle max) (cut_lines-behind max (length held) es (record s { buf = held }))
    ∙ settle-behind max es (cut_lines max (length held) (record s { buf = held }))

push_all-behind :
    (max : ℕ) (chunks : List Bytes) (es : List Event) (s : Splitter)
    → push_all max chunks (behind es s) ≡ behind es (push_all max chunks s)
unfolding push_all
push_all-behind max [] es s = refl
push_all-behind max (chunk ∷ chunks) es s =
    ap (push_all max chunks) (push-behind max chunk es s)
    ∙ push_all-behind max chunks es (push max chunk s)

module _ {R : Type 0} (codec : Codec) (schema : Text → R → Option R)
    (parse_agent_line : Bytes → Result (AgentLine R)) where
  -- What the core does with the lines of a stream: with a line that is too long, it gives the child up.
  abbrev pub hear_lines : ℕ → List Said → Core R → Core R
  hear_lines now [] c = c
  hear_lines now (some l ∷ ls) c =
      hear_lines now ls (handle_line codec schema parse_agent_line now l c)
  hear_lines now (none ∷ ls) c = hear_lines now ls (on_fatal line_too_long c)

  hear_each-append :
      (now : ℕ) (es fs : List Event) (c : Core R)
      → hear_each codec schema parse_agent_line now (es ++ fs) c
        ≡ hear_each codec schema parse_agent_line now fs
            (hear_each codec schema parse_agent_line now es c)
  unfolding hear_each
  hear_each-append now [] fs c = refl
  hear_each-append now (e ∷ es) fs c = hear_each-append now es fs _

  hear_each-said :
      (now : ℕ) (es : List Event) (c : Core R)
      → hear_each codec schema parse_agent_line now es c ≡ hear_lines now (said es) c
  unfolding hear_each hear
  hear_each-said now [] c = refl
  hear_each-said now (line l ∷ es) c = hear_each-said now es _
  hear_each-said now (overflow n ∷ es) c = hear_each-said now es _

  handle_all-heard :
      (max now : ℕ) (chunks : List Bytes) (s : Splitter) (c : Core R)
      → s.events ≡ []
      → (handle_all codec schema parse_agent_line max now chunks (s, c)).1
        ≡ hear_each codec schema parse_agent_line now (push_all max chunks s).events c
  unfolding handle_all handle_bytes push_all hear_each
  handle_all-heard max now [] s c e = rw e refl
  handle_all-heard max now (chunk ∷ chunks) s c e =
      let s' = push max chunk s in
      let fresh = record s' { events = [] } in
      let split : push_all max chunks s' ≡ behind s'.events (push_all max chunks fresh) =
        ap (λ es. push_all max chunks (record s' { events = es })) (sym (append-nil s'.events))
        ∙ push_all-behind max chunks s'.events fresh in
      handle_all-heard max now chunks fresh _ refl
      ∙ sym (hear_each-append now s'.events (push_all max chunks fresh).events c)
      ∙ ap (λ t. hear_each codec schema parse_agent_line now t.events c) (sym split)

  -- However the output of the agent is cut into chunks, the core is left in one state, with the same
  -- requests settled, changes emitted, events heard and failures counted: that of a core that is given
  -- the lines of the stream one by one, without the empty ones, and told of each that is too long. The
  -- time is the same for all chunks.
  pub handle_all_lem :
      (max now : ℕ) (chunks : List Bytes) (c : Core R)
      → (handle_all codec schema parse_agent_line max now chunks (new_splitter, c)).1
        ≡ hear_lines now (to_say max (joined chunks)) c
  handle_all_lem max now chunks c =
      handle_all-heard max now chunks new_splitter c refl
      ∙ hear_each-said now (push_all max chunks new_splitter).events c
      ∙ ap (λ ls. hear_lines now ls c) (push_all_lem max chunks).0
