-- ===== src/AgentHost/Supervisor/Examples.antt =====
-- packages/agent-host/src/spawn-agent.ts: a child that exits, and is not started again.
use copy_clipboard_app.Base.{◌≡◌, true, arith}
use copy_clipboard_app.AgentHost.Supervisor.{
  new_supervisor, start, on_exit, restart, Reach, begun, after, starts_up, exits_now, fires,
  request, watch_start,
}
use copy_clipboard_app.AgentHost.Supervisor.Restarts.{IsBounded, life, Reach-IsBounded, gives_up}

-- The child exits, is started again after 250 ms, and exits.
first_exit : Reach 1 (on_exit 1 (start new_supervisor))
unfolding start on_exit
first_exit =
    after (after begun (starts_up new_supervisor)) (exits_now (start new_supervisor) (omega arith))

second_exit : Reach 1 (on_exit 1 (restart (on_exit 1 (start new_supervisor))))
unfolding start on_exit restart
second_exit =
    after (after first_exit (fires (on_exit 1 (start new_supervisor)) (omega arith)))
      (exits_now (restart (on_exit 1 (start new_supervisor))) (omega arith))

Reach-IsBounded_example :
    IsBounded 1 (life (on_exit 1 (restart (on_exit 1 (start new_supervisor)))))
Reach-IsBounded_example = Reach-IsBounded 1 second_exit

gives_up_example :
    (let s = on_exit 1 (restart (on_exit 1 (start new_supervisor))) in
      request true (watch_start 500) s ≡ s)
unfolding start on_exit restart
gives_up_example = (gives_up 1 second_exit (omega arith) true (watch_start 500)).2
