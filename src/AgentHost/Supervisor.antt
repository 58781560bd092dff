-- ===== src/AgentHost/Supervisor.antt =====
-- packages/agent-host/src/spawn-agent.ts: `spawnAgent`, which keeps a child process running. The fields
-- from `alive` on are what has happened: processes that run, timers that wait, and calls so far. Step
-- has what may happen; Restarts has the theorems. What the core does with the lines of the child is
-- left out, but for what it remembers to ask for again.
pub mod Restarts
pub mod Examples
use copy_clipboard_app.Base.{
  ℕ, zero, suc, ◌+◌, ◌-◌, Text, Bool, true, false, ◌||◌, ◌≡◌, ◌<◌, Option, none, some, List, [],
  ◌∷◌, ◌++◌, leb, if◌then◌else◌,
}
use copy_clipboard_app.Protocol.Result.{
  Result, ErrorCode, ok, err, agent_disposed, agent_exit, wire_major,
}

abbrev pub default_max_restarts : ℕ
default_max_restarts = 5

abbrev pub restart_backoff_ms : List ℕ
restart_backoff_ms = 250 ∷ 500 ∷ 1000 ∷ 2000 ∷ 4000 ∷ []

-- The entry at a place, or the last one
abbrev pub entry_or_last : ℕ → List ℕ → ℕ
entry_or_last n [] = 0
entry_or_last n (d ∷ []) = d
entry_or_last zero (d ∷ e ∷ ds) = d
entry_or_last (suc n) (d ∷ e ∷ ds) = entry_or_last n (e ∷ ds)

-- The requests that the core remembers; any other is `other`.
pub data Request : Type 0 where
  watch_start : ℕ → Request
  watch_stop hotkey_unregister other : Request
  hotkey_register : Text → Request

pub record Supervisor : Type 0 where
  pub has_child : Bool
  pub disposed : Bool
  pub failed : Bool
  pub restarts_used : ℕ
  pub last_watch_interval_ms : Option ℕ
  pub last_accelerator : Option Text
  pub alive : ℕ
  pub timers : ℕ
  pub starts : ℕ
  pub spawns : ℕ
  pub exits : ℕ
  pub delays : List ℕ
  pub written : List Request

abbrev pub new_supervisor : Supervisor
new_supervisor = record {
  has_child = false;
  disposed = false;
  failed = false;
  restarts_used = 0;
  last_watch_interval_ms = none;
  last_accelerator = none;
  alive = 0;
  timers = 0;
  starts = 0;
  spawns = 0;
  exits = 0;
  delays = [];
  written = [];
}

-- `send`, to a child whose input is open or not
unfoldable pub send : Bool → Request → Supervisor → Result (Unit {0}) × Supervisor
send writable r s =
    if s.disposed
    then (err agent_disposed, s)
    else if s.failed
    then (err agent_exit, s)
    else if s.has_child
    then (if writable
        then (ok tt, record s { written = s.written ++ r ∷ [] })
        else (err agent_exit, s))
    else (err agent_exit, s)

abbrev pub note_sent : Request → Supervisor → Supervisor
note_sent (watch_start ms) s = record s { last_watch_interval_ms = some ms }
note_sent watch_stop s = record s { last_watch_interval_ms = none }
note_sent (hotkey_register a) s = record s { last_accelerator = some a }
note_sent hotkey_unregister s = record s { last_accelerator = none }
note_sent other s = s

abbrev pub note_answer : Request → Result (Unit {0}) × Supervisor → Supervisor
note_answer r (err code, s) = s
note_answer r (ok u, s) = note_sent r s

-- `request`, from the sending of its line to the wait for the answer
unfoldable pub request : Bool → Request → Supervisor → Supervisor
unfolding send
request writable r s = note_answer r (send writable r s)

-- The handle is dropped; the process is told to end, and its exit is an event of its own.
abbrev pub kill_child : Supervisor → Supervisor
kill_child s = record s { has_child = false }

abbrev pub is_wire_major : ErrorCode → Bool
is_wire_major wire_major = true
is_wire_major _ = false

unfoldable pub on_fatal : ErrorCode → Supervisor → Supervisor
on_fatal code s = kill_child (record s { failed = s.failed || is_wire_major code })

abbrev pub spawn_child : Supervisor → Supervisor
spawn_child s = record s {
  has_child = true;
  alive = suc s.alive;
  spawns = suc s.spawns;
  written = [];
}

abbrev pub schedule : Supervisor → Supervisor
schedule s = record s {
  restarts_used = suc s.restarts_used;
  timers = suc s.timers;
  delays = s.delays ++ entry_or_last s.restarts_used restart_backoff_ms ∷ [];
}

abbrev pub exited : Supervisor → Supervisor
exited s = record s { has_child = false; alive = s.alive - 1; exits = suc s.exits }

-- `onExit`
unfoldable pub on_exit : ℕ → Supervisor → Supervisor
on_exit max_restarts s =
    if s.disposed || s.failed
    then exited s
    else if leb max_restarts s.restarts_used
    then record (exited s) { failed = true }
    else schedule (exited s)

-- The 'error' event, of a process that did not start or of one that runs
unfoldable pub on_spawn_error : Supervisor → Supervisor
on_spawn_error s = record s { has_child = false; failed = true; alive = s.alive - 1 }

unfoldable pub on_error : Supervisor → Supervisor
on_error s = record s { has_child = false; failed = true }

-- `restart`, up to the wait for `hello`: the timer has run out
unfoldable pub restart : Supervisor → Supervisor
restart s =
    let fired = record s { timers = s.timers - 1 } in
    if s.disposed || s.failed then fired else spawn_child fired

-- What `restart` asks for again when the child has greeted: the watch, and when that was answered, the
-- hotkey
abbrev pub rearm_watch : Bool → Option ℕ → Supervisor → Supervisor
rearm_watch writable none s = s
rearm_watch writable (some ms) s = request writable (watch_start ms) s

abbrev pub rearm_hotkey : Bool → Option Text → Supervisor → Supervisor
rearm_hotkey writable none s = s
rearm_hotkey writable (some a) s = request writable (hotkey_register a) s

-- `start`, up to the wait for `hello`, and what it does if that fails
unfoldable pub start : Supervisor → Supervisor
start s = if s.disposed then s else spawn_child (record s { starts = suc s.starts })

unfoldable pub start_refused : Supervisor → Supervisor
start_refused s = kill_child (record s { failed = true })

-- `dispose`: the timer that was set last is cancelled, if it still waits
unfoldable pub dispose : Bool → Supervisor → Supervisor
dispose waits s = if s.disposed then s else record s {
  disposed = true;
  has_child = false;
  timers = if waits then s.timers - 1 else s.timers;
}

-- What may happen next: a process exits that runs, a timer runs out that waits, an answer comes, or
-- the program calls.
pub data Step (max_restarts : ℕ) : Supervisor → Supervisor → Type 0 where
  starts_up : (s : Supervisor) → Step max_restarts s (start s)
  refuses_start : (s : Supervisor) → Step max_restarts s (start_refused s)
  exits_now : (s : Supervisor) → 0 < s.alive → Step max_restarts s (on_exit max_restarts s)
  fails_to_spawn : (s : Supervisor) → 0 < s.alive → Step max_restarts s (on_spawn_error s)
  errs : (s : Supervisor) → Step max_restarts s (on_error s)
  fires : (s : Supervisor) → 0 < s.timers → Step max_restarts s (restart s)
  refuses_restart : (s : Supervisor) → Step max_restarts s (kill_child s)
  rearms_watch :
      (s : Supervisor) (writable : Bool)
      → Step max_restarts s (rearm_watch writable s.last_watch_interval_ms s)
  rearms_hotkey :
      (s : Supervisor) (writable : Bool)
      → Step max_restarts s (rearm_hotkey writable s.last_accelerator s)
  is_fatal : (s : Supervisor) (code : ErrorCode) → Step max_restarts s (on_fatal code s)
  requests :
      (s : Supervisor) (writable : Bool) (r : Request) → Step max_restarts s (request writable r s)
  disposes : (s : Supervisor) (waits : Bool) → Step max_restarts s (dispose waits s)

pub data Reach (max_restarts : ℕ) : Supervisor → Type 0 where
  begun : Reach max_restarts new_supervisor
  after : {s t : Supervisor} → Reach max_restarts s → Step max_restarts s t → Reach max_restarts t
