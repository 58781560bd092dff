-- ===== src/AgentHost/Correlator/Examples.antt =====
-- Two requests: one is answered, late again and then for good, one waits until everything fails.
use copy_clipboard_app.Base.{
  ℕ, Text, text_eq, codes, ◌≡◌, ◌≤◌, ◌+◌, refl, Option, some, List, [], ◌∷◌, arith, sum_by, get,
  set, delete,
}
use copy_clipboard_app.Protocol.Result.{ok, err, agent_exit}
use copy_clipboard_app.AgentHost.Correlator.{
  Correlator, new_correlator, success, Step, registers, settles, expires, run, step, fail_all,
  register, settle, expire, fail, fail_each,
}
use copy_clipboard_app.AgentHost.Correlator.Settled.{answered, waiting, asked, settled_once}

schema : Text → ℕ → Option ℕ
schema method r = some r

abbrev steps : List (Step ℕ)
steps =
    registers 0 (codes "1") (codes "ping") 2_000
    ∷ registers 5 (codes "2") (codes "read") 2_000
    ∷ settles (success (codes "1") 7)
    ∷ expires (codes "1")
    ∷ settles (success (codes "1") 8)
    ∷ []

once : sum_by (asked (codes "1")) steps ≤ 1
unfolding text_eq
once = omega arith

settled_once_example :
    let c : Correlator ℕ = run schema steps new_correlator in
    (answered (codes "1") c + waiting (codes "1") c ≡ sum_by (asked (codes "1")) steps)
    × (answered (codes "1") (fail_all agent_exit c) ≡ sum_by (asked (codes "1")) steps)
    × (waiting (codes "1") (fail_all agent_exit c) ≡ 0)
settled_once_example = settled_once schema (codes "1") steps agent_exit once

all_settled :
    (fail_all agent_exit (run schema steps new_correlator)).settled
    ≡ (codes "1", ok 7) ∷ (codes "2", err agent_exit) ∷ []
unfolding run step register settle expire fail_all fail_each fail get set delete text_eq schema
all_settled = refl
