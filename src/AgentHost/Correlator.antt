-- ===== src/AgentHost/Correlator.antt =====
-- packages/agent-host/src/correlator.ts: requests to the agent that wait for their responses. A
-- promise that is resolved is an entry of `settled`; a timer is the time at which it runs out, and
-- its callback is `expire`. The schemas of the methods' results are an argument.
pub mod Settled
pub mod Examples
use copy_clipboard_app.Base.{
  ℕ, zero, suc, ◌+◌, Text, Bool, true, false, Option, none, some, List, [], ◌∷◌, ◌++◌,
  if◌then◌else◌, Dict, get, set, delete, keys,
}
use copy_clipboard_app.Protocol.Result.{Result, ErrorCode, ok, err, timeout, parse}

-- The method is a name; what a method answers is of type `R`, before and after its schema.
pub record Pending : Type 0 where
  pub id : Text
  pub method : Text
  pub started_at : ℕ
  pub deadline : ℕ

pub data AgentResponse (R : Type 0) : Type 0 where
  success : Text → R → AgentResponse R
  -- The error's code, if it is one of ERROR_CODES
  failure : Text → Option ErrorCode → AgentResponse R

pub record Correlator (R : Type 0) : Type 0 where
  pub pending : Dict Pending
  pub counter : ℕ
  pub settled : List (Text × Result R)

module _ {R : Type 0} where
  abbrev pub new_correlator : Correlator R
  new_correlator = record { pending = []; counter = 0; settled = [] }

  -- `nextId`, whose id is the decimal form of the new counter
  abbrev pub next_id : Correlator R → ℕ × Correlator R
  next_id c = (suc c.counter, record c { counter = suc c.counter })

  unfoldable pub register : ℕ → Text → Text → ℕ → Correlator R → Correlator R
  register now id method timeout_ms c = record c {
    pending =
        set id (record { id = id; method = method; started_at = now; deadline = now + timeout_ms })
          c.pending;
  }

  -- `take`, with what is then done with the request: nothing if there is none.
  abbrev pub take_then : Option Pending → (Pending → Result R) → Text → Correlator R → Correlator R
  take_then none reply id c = c
  take_then (some p) reply id c = record c {
    pending = delete id c.pending;
    settled = c.settled ++ (id, reply p) ∷ [];
  }

  abbrev pub parsed : Option R → Result R
  parsed none = err parse
  parsed (some r) = ok r

  abbrev pub failed : Option ErrorCode → Result R
  failed none = err ErrorCode.internal
  failed (some code) = err code

  unfoldable pub settle : (Text → R → Option R) → AgentResponse R → Correlator R → Correlator R
  settle schema (success id r) c =
      take_then (get id c.pending) (λ (p : Pending). parsed (schema p.method r)) id c
  settle schema (failure id code) c = take_then (get id c.pending) (λ p. failed code) id c

  unfoldable pub fail : Text → ErrorCode → Correlator R → Correlator R
  fail id code c = take_then (get id c.pending) (λ p. err code) id c

  unfoldable pub fail_each : List Text → ErrorCode → Correlator R → Correlator R
  unfolding fail
  fail_each [] code c = c
  fail_each (id ∷ ids) code c = fail_each ids code (fail id code c)

  unfoldable pub fail_all : ErrorCode → Correlator R → Correlator R
  unfolding fail_each
  fail_all code c = fail_each (keys c.pending) code c

  -- The timer of a request has run out; a request that was taken has no timer.
  unfoldable pub expire : Text → Correlator R → Correlator R
  expire id c = take_then (get id c.pending) (λ p. err timeout) id c

-- A call of the correlator, or a timer that runs out.
pub data Step (R : Type 0) : Type 0 where
  registers : ℕ → Text → Text → ℕ → Step R
  settles : AgentResponse R → Step R
  fails : Text → ErrorCode → Step R
  fails_all : ErrorCode → Step R
  expires : Text → Step R

module _ {R : Type 0} (schema : Text → R → Option R) where
  unfoldable pub step : Step R → Correlator R → Correlator R
  unfolding register settle fail fail_all expire
  step (registers now id method timeout_ms) c = register now id method timeout_ms c
  step (settles res) c = settle schema res c
  step (fails id code) c = fail id code c
  step (fails_all code) c = fail_all code c
  step (expires id) c = expire id c

  unfoldable pub run : List (Step R) → Correlator R → Correlator R
  unfolding step
  run [] c = c
  run (x ∷ xs) c = run xs (step x c)
