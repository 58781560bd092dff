-- ===== src/AgentHost/Supervisor/Restarts.antt =====
-- packages/agent-host/src/spawn-agent.ts: how often a child is started, and when none is.
use copy_clipboard_app.Base.{
  ℕ, Text, zero, suc, ◌+◌, ◌≤◌, ◌<◌, ◌≡◌, refl, sym, ap, subst, Bool, true, false, ◌||◌, ◌⊎◌, inl,
  inr, List, [], ◌∷◌, ◌++◌, Option, none, some, leb, arith, if◌then◌else◌,
}
use copy_clipboard_app.Protocol.Result.{Result, ErrorCode}
use copy_clipboard_app.AgentHost.Supervisor.{
  Supervisor, restart_backoff_ms, entry_or_last, Request, send, request, note_answer, note_sent,
  on_fatal, is_wire_major, on_exit, on_spawn_error, on_error, restart, rearm_watch, rearm_hotkey,
  start, start_refused, dispose, Step, Reach, begun, after, starts_up, refuses_start, exits_now,
  fails_to_spawn, errs, fires, refuses_restart, rearms_watch, rearms_hotkey, is_fatal, requests,
  disposes, watch_start, watch_stop, hotkey_register, hotkey_unregister, other,
}

-- What a supervisor counts, and whether it was disposed of or has failed
pub record Life : Type 0 where
  pub ended : Bool
  pub restarts_used : ℕ
  pub alive : ℕ
  pub timers : ℕ
  pub starts : ℕ
  pub spawns : ℕ
  pub exits : ℕ
  pub delays : List ℕ

abbrev pub life : Supervisor → Life
life s = record {
  ended = s.disposed || s.failed;
  restarts_used = s.restarts_used;
  alive = s.alive;
  timers = s.timers;
  starts = s.starts;
  spawns = s.spawns;
  exits = s.exits;
  delays = s.delays;
}

-- The first delays of the table, whose last entry repeats.
abbrev pub backoffs : ℕ → List ℕ
backoffs zero = []
backoffs (suc n) = backoffs n ++ entry_or_last n restart_backoff_ms ∷ []

abbrev pub IsBounded : ℕ → Life → Type 0
IsBounded max l =
    (l.restarts_used ≤ max)
    × (l.delays ≡ backoffs l.restarts_used)
    × (l.alive + l.timers ≤ l.starts)
    × (l.spawns + l.timers ≤ l.starts + l.restarts_used)
    × ((l.ended ≡ true) ⊎ (l.exits ≡ l.restarts_used))

if-holds {ℓ κ} :
    {A : Type ℓ} (P : A → Type κ) (b : Bool) (x y : A)
    → (b ≡ true → P x)
    → (b ≡ false → P y)
    → P (if b then x else y)
if-holds P true x y h k = h refl
if-holds P false x y h k = k refl

or-true : (b : Bool) → (b || true) ≡ true
or-true b = ground arith

or-more : (a b c : Bool) → (a || b) ≡ true → (a || (b || c)) ≡ true
or-more a b c h = ground arith

life-note_sent : (r : Request) (s : Supervisor) → life (note_sent r s) ≡ life s
life-note_sent (watch_start ms) s = refl
life-note_sent watch_stop s = refl
life-note_sent (hotkey_register a) s = refl
life-note_sent hotkey_unregister s = refl
life-note_sent other s = refl

life-request : (w : Bool) (r : Request) (s : Supervisor) → life (request w r s) ≡ life s
unfolding request send
life-request w r s =
    let kept : Result (Unit {0}) × Supervisor → Type 0 = λ p. life (note_answer r p) ≡ life s in
    if-holds kept s.disposed _ _ (λ e. refl)
      (λ e.
        if-holds kept s.failed _ _ (λ f. refl)
          (λ f.
            if-holds kept s.has_child _ _
              (λ g.
                if-holds kept w _ _
                  (λ i. life-note_sent r (record s { written = s.written ++ r ∷ [] })) (λ i. refl))
              (λ g. refl)))

life-rearm_watch : (w : Bool) (o : Option ℕ) (s : Supervisor) → life (rearm_watch w o s) ≡ life s
life-rearm_watch w none s = refl
life-rearm_watch w (some ms) s = life-request w (watch_start ms) s

life-rearm_hotkey :
    (w : Bool) (o : Option Text) (s : Supervisor) → life (rearm_hotkey w o s) ≡ life s
life-rearm_hotkey w none s = refl
life-rearm_hotkey w (some a) s = life-request w (hotkey_register a) s

module _ (max : ℕ) where
  abbrev Holds : Supervisor → Type 0
  Holds s = IsBounded max (life s)

  start-Holds : (s : Supervisor) → Holds s → Holds (start s)
  unfolding start
  start-Holds s h =
      if-holds Holds s.disposed _ _ (λ e. h)
        (λ e. (h.0, h.1, omega (arith, h.2), omega (arith, h.3), h.4))

  on_exit-Holds : (s : Supervisor) → 0 < s.alive → Holds s → Holds (on_exit max s)
  unfolding on_exit
  on_exit-Holds s some_run h =
      if-holds Holds (s.disposed || s.failed) _ _ (λ e. (h.0, h.1, omega (arith, h.2), h.3, inl e))
        (λ e.
          if-holds Holds (leb max s.restarts_used) _ _
            (λ f. (h.0, h.1, omega (arith, h.2), h.3, inl (or-true s.disposed)))
            (λ f. (
              ground (arith, f),
              ap (λ ds. ds ++ entry_or_last s.restarts_used restart_backoff_ms ∷ []) h.1,
              omega (arith, h.2, some_run),
              omega (arith, h.3),
              elim h.4 [ inl e' ↦ cc | inr same ↦ inr (ap suc same) ],
            )))

  restart-Holds : (s : Supervisor) → 0 < s.timers → Holds s → Holds (restart s)
  unfolding restart
  restart-Holds s some_wait h =
      if-holds Holds (s.disposed || s.failed) _ _
        (λ e. (h.0, h.1, omega (arith, h.2), omega (arith, h.3), h.4))
        (λ e. (h.0, h.1, omega (arith, h.2, some_wait), omega (arith, h.3, some_wait), h.4))

  dispose-Holds : (waits : Bool) (s : Supervisor) → Holds s → Holds (dispose waits s)
  unfolding dispose
  dispose-Holds true s h =
      if-holds Holds s.disposed _ _ (λ e. h)
        (λ e. (h.0, h.1, omega (arith, h.2), omega (arith, h.3), inl refl))
  dispose-Holds false s h =
      if-holds Holds s.disposed _ _ (λ e. h) (λ e. (h.0, h.1, h.2, h.3, inl refl))

  on_fatal-Holds : (code : ErrorCode) (s : Supervisor) → Holds s → Holds (on_fatal code s)
  unfolding on_fatal
  on_fatal-Holds code s h = (
    h.0,
    h.1,
    h.2,
    h.3,
    elim h.4 [ inl e ↦ inl (or-more s.disposed s.failed (is_wire_major code) e) | inr e ↦ inr e ],
  )

  Step-Holds : {s t : Supervisor} → Step max s t → Holds s → Holds t
  unfolding start_refused on_spawn_error on_error
  Step-Holds (starts_up s) h = start-Holds s h
  Step-Holds (refuses_start s) h = (h.0, h.1, h.2, h.3, inl (or-true s.disposed))
  Step-Holds (exits_now s run) h = on_exit-Holds s run h
  Step-Holds (fails_to_spawn s run) h =
      (h.0, h.1, omega (arith, h.2), h.3, inl (or-true s.disposed))
  Step-Holds (errs s) h = (h.0, h.1, h.2, h.3, inl (or-true s.disposed))
  Step-Holds (fires s wait) h = restart-Holds s wait h
  Step-Holds (refuses_restart s) h = h
  Step-Holds (rearms_watch s w) h =
      subst (IsBounded max) (sym (life-rearm_watch w s.last_watch_interval_ms s)) h
  Step-Holds (rearms_hotkey s w) h =
      subst (IsBounded max) (sym (life-rearm_hotkey w s.last_accelerator s)) h
  Step-Holds (is_fatal s code) h = on_fatal-Holds code s h
  Step-Holds (requests s w r) h = subst (IsBounded max) (sym (life-request w r s)) h
  Step-Holds (disposes s waits) h = dispose-Holds waits s h

  -- Whatever exits, errors, answers, timers and calls come in whatever order: at most `max` restarts are
  -- scheduled; their delays are the first ones of the table, in order, whose last entry repeats; no more
  -- processes run and timers wait together than `start` was called, so one call never has two processes;
  -- no more processes are spawned than there were calls of `start` and restarts; and as long as the
  -- supervisor was not disposed of and has not failed, every exit has used a restart.
  pub Reach-IsBounded : {s : Supervisor} → Reach max s → IsBounded max (life s)
  Reach-IsBounded begun = (omega arith, refl, omega arith, omega arith, inr refl)
  Reach-IsBounded (after r st) = Step-Holds st (Reach-IsBounded r)

  refused :
      (w : Bool) (r : Request) (s : Supervisor)
      → (s.disposed || s.failed) ≡ true
      → request w r s ≡ s
  unfolding request send
  refused w r s e =
      let same : Result (Unit {0}) × Supervisor → Type 0 = λ p. note_answer r p ≡ s in
      if-holds same s.disposed _ _ (λ d. refl)
        (λ d.
          if-holds same s.failed _ _ (λ f. refl)
            (λ f. let no : (s.disposed || s.failed) ≡ false = rw (d, f) refl in cc))

  -- Once more processes have exited than restarts are allowed, the supervisor has failed or was disposed
  -- of: a timer that still runs out spawns nothing, and no request is written or remembered.
  pub gives_up :
      {s : Supervisor}
      → Reach max s
      → max < s.exits
      → (w : Bool) (r : Request)
      → ((s.disposed || s.failed) ≡ true) × ((restart s).spawns ≡ s.spawns) × (request w r s ≡ s)
  unfolding restart
  gives_up {s} reach over w r =
      let h = Reach-IsBounded reach in
      let ended : (s.disposed || s.failed) ≡ true = elim h.4 [
        | inl e ↦ e
        | inr e ↦ absurd (omega (arith, h.0, e, over))
      ] in
      (ended, rw ended refl, refused w r s ended)
