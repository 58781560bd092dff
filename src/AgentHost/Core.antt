-- ===== src/AgentHost/Core.antt =====
-- packages/agent-host/src/spawn-agent.ts: `createAgentCore`, which puts the splitter, the correlator and
-- the change assembler together. A call of `onFatal` or of a listener is an entry of `fatals` or
-- `heard`. What `parseAgentLine` makes of the bytes of a line is an argument, and so are the schemas of
-- the results. What the core remembers to ask for again is in Supervisor.
pub mod Stream
pub mod Examples
use copy_clipboard_app.Base.{
  ℕ, zero, suc, ◌==◌, Text, text_eq, Bool, true, false, not, ◌&&◌, Option, none, some, List, [],
  ◌∷◌, ◌++◌, leb, if◌then◌else◌,
}
use copy_clipboard_app.Protocol.Types.{Bytes}
use copy_clipboard_app.Protocol.Result.{
  Result, ErrorCode, ok, err, parse, line_too_long, wire_major, rep_timeout,
}
use copy_clipboard_app.AgentHost.Framing.{Event, line, overflow, Splitter, new_splitter, push}
use copy_clipboard_app.AgentHost.Framing
use copy_clipboard_app.AgentHost.Reassembler.{Codec, RepChunkIn}
use copy_clipboard_app.AgentHost.Changes.{
  ChangedWire, Assembler, new_assembler, handle_changed, handle_chunk,
}
use copy_clipboard_app.AgentHost.Changes
use copy_clipboard_app.AgentHost.Supervisor.{is_wire_major}
use copy_clipboard_app.AgentHost.Correlator.{
  AgentResponse, success, failure, Correlator, new_correlator, next_id, register, settle, fail,
  fail_all,
}

abbrev pub max_consecutive_parse_failures : ℕ
max_consecutive_parse_failures = 10

abbrev pub wire_major_version : ℕ
wire_major_version = 1

-- A line of the agent. A response that succeeds comes with the wire major that its result names.
pub data AgentLine (R : Type 0) : Type 0 where
  request_line : AgentLine R
  response : Option ℕ → AgentResponse R → AgentLine R
  clipboard_changed : ChangedWire → AgentLine R
  rep_chunk : RepChunkIn → AgentLine R
  hotkey_fired : Text → Text → ℕ → AgentLine R
  log : Text → Text → AgentLine R

-- What a listener of an event other than a change is given
pub data Heard : Type 0 where
  heard_chunk : Text → ℕ → Bool → Heard
  heard_hotkey : Text → Text → ℕ → Heard
  heard_log : Text → Text → Heard

pub record Core (R : Type 0) : Type 0 where
  pub correlator : Correlator R
  pub changes : Assembler
  pub consecutive_parse_failures : ℕ
  pub supports_chunked_write : Bool
  pub hello_id : Option Text
  pub fatals : List ErrorCode
  pub heard : List Heard

abbrev pub is_id : Text → Option Text → Bool
is_id id none = false
is_id id (some other) = text_eq id other

abbrev pub is_our_major : Option ℕ → Bool
is_our_major none = false
is_our_major (some major) = major == wire_major_version

module _ {R : Type 0} where
  abbrev pub new_core : Core R
  new_core = record {
    correlator = new_correlator;
    changes = new_assembler;
    consecutive_parse_failures = 0;
    supports_chunked_write = false;
    hello_id = none;
    fatals = [];
    heard = [];
  }

  abbrev pub on_fatal : ErrorCode → Core R → Core R
  on_fatal code c = record c { fatals = c.fatals ++ code ∷ [] }

  abbrev pub tell : Heard → Core R → Core R
  tell h c = record c { heard = c.heard ++ h ∷ [] }

  -- A line that does not parse
  abbrev pub unparseable : ErrorCode → Core R → Core R
  unparseable code c =
      let failures = suc c.consecutive_parse_failures in
      let c' = record c { consecutive_parse_failures = failures } in
      if is_wire_major code
      then on_fatal wire_major c'
      else if leb max_consecutive_parse_failures failures
      then on_fatal parse c'
      else c'

  -- Whether a response is the answer to `hello` of an agent that speaks another wire major
  abbrev pub is_foreign : Option Text → Option ℕ → AgentResponse R → Bool
  is_foreign hello_id major (success id r) = is_id id hello_id && not (is_our_major major)
  is_foreign hello_id major (failure id code) = false

  abbrev pub response_id : AgentResponse R → Text
  response_id (success id r) = id
  response_id (failure id code) = id

  module _ (codec : Codec) (schema : Text → R → Option R) where
    abbrev pub take_response : Option ℕ → AgentResponse R → Core R → Core R
    take_response major res c =
        if is_foreign c.hello_id major res
        then on_fatal wire_major
            (record c { correlator = fail (response_id res) wire_major c.correlator })
        else record c { correlator = settle schema res c.correlator }

    abbrev pub take_line : ℕ → AgentLine R → Core R → Core R
    take_line now request_line c = c
    take_line now (response major res) c = take_response major res c
    take_line now (clipboard_changed w) c = record c {
      changes = handle_changed codec now w c.changes;
    }
    take_line now (rep_chunk chunk) c =
        let told = tell (heard_chunk chunk.rep_id chunk.seq chunk.final) c in
        record told { changes = handle_chunk codec now chunk told.changes }
    take_line now (hotkey_fired accelerator focus_token fired_at) c =
        tell (heard_hotkey accelerator focus_token fired_at) c
    take_line now (log level event) c = tell (heard_log level event) c

    abbrev pub take_parsed : ℕ → Result (AgentLine R) → Core R → Core R
    take_parsed now (err code) c = unparseable code c
    take_parsed now (ok l) c = take_line now l (record c { consecutive_parse_failures = 0 })

    module _ (parse_agent_line : Bytes → Result (AgentLine R)) where
      unfoldable pub handle_line : ℕ → Bytes → Core R → Core R
      handle_line now l c = take_parsed now (parse_agent_line l) c

      -- `onLine` and `onOverflow` of the splitter
      unfoldable pub hear : ℕ → Event → Core R → Core R
      unfolding handle_line
      hear now (line l) c = handle_line now l c
      hear now (overflow dropped) c = on_fatal line_too_long c

      unfoldable pub hear_each : ℕ → List Event → Core R → Core R
      unfolding hear
      hear_each now [] c = c
      hear_each now (e ∷ es) c = hear_each now es (hear now e c)

      -- `handleBytes`: the splitter calls back line by line; it holds no events between two calls.
      unfoldable pub handle_bytes : ℕ → ℕ → Bytes → Splitter × Core R → Splitter × Core R
      unfolding push hear_each
      handle_bytes max now chunk (s, c) =
          let s' = push max chunk s in (record s' { events = [] }, hear_each now s'.events c)

      unfoldable pub handle_all : ℕ → ℕ → List Bytes → Splitter × Core R → Splitter × Core R
      unfolding handle_bytes
      handle_all max now [] x = x
      handle_all max now (chunk ∷ chunks) x =
          handle_all max now chunks (handle_bytes max now chunk x)

  -- `request`, up to the wait for the answer: the decimal form of a number, whether the line is too long
  -- for the wire, and what `send` answers, which does not throw, are arguments. The id in the result is
  -- that of the promise.
  abbrev pub sent : Text → Result (Unit {0}) → Core R → Core R
  sent id (ok u) c = c
  sent id (err code) c = record c { correlator = fail id code c.correlator }

  unfoldable pub request :
      (ℕ → Text) → ℕ → Text → Bool → ℕ → Bool → Result (Unit {0}) → Core R → Result Text × Core R
  request decimal now method is_hello timeout_ms too_long written c =
      let (n, numbered) = next_id c.correlator in
      let id = decimal n in
      let named = record c {
        correlator = numbered;
        hello_id = if is_hello then some id else c.hello_id;
      } in
      if too_long then (err line_too_long, named) else (
        ok id,
        sent id written
            (record named { correlator = register now id method timeout_ms named.correlator }),
      )

  -- What follows the answer to `hello`
  unfoldable pub greeted : Bool → Core R → Core R
  greeted chunked_write c = record c { supports_chunked_write = chunked_write }

  unfoldable pub fail_all_pending : ErrorCode → Core R → Core R
  fail_all_pending code c = record c { correlator = fail_all code c.correlator }

  unfoldable pub abort_streams : ErrorCode → Core R → Core R
  abort_streams code c = record c { changes = Changes.abort_all code c.changes }

  unfoldable pub reset_framing : Splitter × Core R → Splitter × Core R
  reset_framing (s, c) =
      (Framing.reset s, record c { supports_chunked_write = false; consecutive_parse_failures = 0 })
