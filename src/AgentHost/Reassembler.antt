-- ===== src/AgentHost/Reassembler.antt =====
-- packages/agent-host/src/reassembler.ts: `createReassembler`, which puts chunked representations
-- together. A call of `onComplete` or `onAbort` is an entry of `told`; a timer is the time at which
-- it runs out, and its callback is `expire`. The hash and the codec of `Buffer` are arguments.
pub mod Entries
pub mod Bounds
pub mod Examples
use copy_clipboard_app.Base.{
  ℕ, zero, suc, ◌+◌, ◌*◌, ◌%◌, ◌==◌, Text, text_eq, Bool, true, false, not, ◌&&◌, ◌||◌, Option,
  none, some, List, [], ◌∷◌, ◌++◌, length, leb, ltb, drop, sum_by, if◌then◌else◌, Dict, get, set,
  delete, values, includes,
}
use copy_clipboard_app.Protocol.Result.{
  ErrorCode, rep_seq_gap, rep_seq_duplicate, rep_bad_base64, rep_overflow, rep_short,
  rep_hash_mismatch, rep_timeout, rep_too_many,
}
use copy_clipboard_app.Protocol.Types.{Bytes, ResolvedRep}
use copy_clipboard_app.Protocol.Constants.{
  max_rep_bytes, rep_stream_timeout_ms, max_concurrent_rep_streams,
}

-- A representation as the agent declares it, with the id of its stream.
pub record DeclaredRep : Type 0 where
  pub rep_id : Text
  pub mime : Text
  pub uti : Option Text
  pub byte_length : ℕ
  pub sha256 : Text

pub record RepChunkIn : Type 0 where
  pub rep_id : Text
  pub seq : ℕ
  pub final : Bool
  pub b64 : Text

pub record RepStream : Type 0 where
  pub rep_id : Text
  pub mime : Text
  pub uti : Option Text
  pub declared_bytes : ℕ
  pub declared_hash : Text
  pub parts : List Bytes
  pub received_bytes : ℕ
  pub expected_seq : ℕ
  pub saw_final : Bool
  pub deadline : Option ℕ

pub data Told : Type 0 where
  completed : Text → ResolvedRep → Told
  aborted : Text → Text → ErrorCode → Told

pub record Reassembler : Type 0 where
  pub streams : Dict RepStream
  pub ended : List Text
  pub told : List Told

abbrev pub new_reassembler : Reassembler
new_reassembler = record { streams = []; ended = []; told = [] }

-- The characters of `[A-Za-z0-9+/]`
abbrev pub is_base64 : ℕ → Bool
is_base64 c =
    (leb 65 c && leb c 90)
    || (leb 97 c && leb c 122)
    || (leb 48 c && leb c 57)
    || c == 43
    || c == 47

-- `={0,2}$`
abbrev pub is_padding : Text → Bool
is_padding [] = true
is_padding (c ∷ []) = c == 61
is_padding (c ∷ d ∷ []) = (c == 61) && (d == 61)
is_padding (c ∷ d ∷ e ∷ cs) = false

-- `/^[A-Za-z0-9+/]*={0,2}$/`
unfoldable pub is_strict_base64 : Text → Bool
is_strict_base64 [] = true
is_strict_base64 (c ∷ cs) =
    let rest = is_strict_base64 cs in if is_base64 c then rest else is_padding (c ∷ cs)

-- What the platform gives: `Buffer.from(s, 'base64')`, `toString('base64')` and the hash.
pub record Codec : Type 0 where
  pub from_base64 : Text → Bytes
  pub to_base64 : Bytes → Text
  pub content_hash : Bytes → Text

unfoldable pub decode_base64 : Codec → Text → Option Bytes
unfolding is_strict_base64
decode_base64 codec b64 =
    if not (length b64 % 4 == 0) || not (is_strict_base64 b64)
    then none
    else let bytes = codec.from_base64 b64 in
      if text_eq (codec.to_base64 bytes) b64 then some bytes else none

-- `Buffer.concat`
abbrev pub concat : List Bytes → Bytes
concat [] = []
concat (part ∷ parts) = part ++ concat parts

-- A bounded queue: the oldest leaves when there are more than 32.
unfoldable pub mark_ended : Text → Reassembler → Reassembler
mark_ended rep_id r =
    let ended = r.ended ++ rep_id ∷ [] in
    record r {
      ended = if ltb (max_concurrent_rep_streams * 4) (length ended) then drop 1 ended else ended;
    }

unfoldable pub abort : RepStream → ErrorCode → Reassembler → Reassembler
abort s code r = record r {
  streams = delete s.rep_id r.streams;
  told = r.told ++ aborted s.rep_id s.mime code ∷ [];
}

unfoldable pub refuse : DeclaredRep → ErrorCode → Reassembler → Reassembler
refuse rep code r = record r { told = r.told ++ aborted rep.rep_id rep.mime code ∷ [] }

abbrev pub is_open : Option RepStream → Bool
is_open none = false
is_open (some s) = true

abbrev pub arm : ℕ → RepStream → RepStream
arm now s = record s { deadline = some (now + rep_stream_timeout_ms) }

abbrev pub open_stream : ℕ → DeclaredRep → RepStream
open_stream now rep = arm now (record {
  rep_id = rep.rep_id;
  mime = rep.mime;
  uti = rep.uti;
  declared_bytes = rep.byte_length;
  declared_hash = rep.sha256;
  parts = [];
  received_bytes = 0;
  expected_seq = 0;
  saw_final = false;
  deadline = none;
})

unfoldable pub declare : ℕ → DeclaredRep → Reassembler → Reassembler
unfolding refuse
declare now rep r =
    if is_open (get rep.rep_id r.streams) || leb max_concurrent_rep_streams (length r.streams)
    then refuse rep rep_too_many r
    else if ltb max_rep_bytes rep.byte_length
    then refuse rep rep_overflow r
    else record r { streams = set rep.rep_id (open_stream now rep) r.streams }

abbrev pub grown : Bytes → RepStream → RepStream
grown bytes s = record s {
  parts = s.parts ++ bytes ∷ [];
  received_bytes = s.received_bytes + length bytes;
  expected_seq = suc s.expected_seq;
  deadline = none;
}

module _ (codec : Codec) where
  abbrev pub assembled : RepStream → ResolvedRep
  assembled s =
      let bytes = concat s.parts in
      record {
        mime = s.mime;
        uti = s.uti;
        bytes = bytes;
        byte_length = length bytes;
        sha256 = codec.content_hash bytes;
      }

  -- What follows the chunk that says it is the last.
  unfoldable pub finish : RepStream → Reassembler → Reassembler
  unfolding mark_ended abort
  finish s r =
      let marked = mark_ended s.rep_id r in
      if not (s.received_bytes == s.declared_bytes)
      then abort s rep_short marked
      else if not (text_eq (codec.content_hash (concat s.parts)) s.declared_hash)
      then abort s rep_hash_mismatch marked
      else record marked {
        streams = delete s.rep_id marked.streams;
        told = marked.told ++ completed s.rep_id (assembled s) ∷ [];
      }

  -- The stream that stands under `key` is changed in place.
  unfoldable pub take_bytes : ℕ → Bool → Text → RepStream → Option Bytes → Reassembler → Reassembler
  unfolding finish
  take_bytes now final key s none r = abort s rep_bad_base64 r
  take_bytes now final key s (some bytes) r =
      let s' = grown bytes s in
      let last = record s' { saw_final = true } in
      if ltb s.declared_bytes s'.received_bytes || ltb max_rep_bytes s'.received_bytes
      then abort s rep_overflow r
      else if final
      then finish last (record r { streams = set key last r.streams })
      else record r { streams = set key (arm now s') r.streams }

  abbrev pub take_chunk : ℕ → RepChunkIn → Option RepStream → Reassembler → Reassembler
  take_chunk now c none r = r
  take_chunk now c (some s) r =
      if ltb c.seq s.expected_seq
      then abort s rep_seq_duplicate r
      else if ltb s.expected_seq c.seq
      then abort s rep_seq_gap r
      else take_bytes now c.final c.rep_id s (decode_base64 codec c.b64) r

  unfoldable pub chunk : ℕ → RepChunkIn → Reassembler → Reassembler
  unfolding take_bytes decode_base64
  chunk now c r = take_chunk now c (get c.rep_id r.streams) r

abbrev pub abort_found : ErrorCode → Option RepStream → Reassembler → Reassembler
abort_found code none r = r
abort_found code (some s) r = abort s code r

-- The timer of a stream has run out.
unfoldable pub expire : Text → Reassembler → Reassembler
expire rep_id r = abort_found rep_timeout (get rep_id r.streams) r

unfoldable pub abort_each : List RepStream → ErrorCode → Reassembler → Reassembler
unfolding abort
abort_each [] code r = r
abort_each (s ∷ ss) code r = abort_each ss code (abort s code r)

unfoldable pub abort_all : ErrorCode → Reassembler → Reassembler
unfolding abort_each
abort_all code r = abort_each (values r.streams) code r

abbrev pub open_streams : Reassembler → ℕ
open_streams r = length r.streams

abbrev pub buffered_bytes : Reassembler → ℕ
buffered_bytes r = sum_by (λ (s : RepStream). s.received_bytes) (values r.streams)

-- A call of the reassembler, or a timer that runs out.
pub data Step : Type 0 where
  declares : ℕ → DeclaredRep → Step
  chunks : ℕ → RepChunkIn → Step
  expires : Text → Step
  aborts : ErrorCode → Step

unfoldable pub step : Codec → Step → Reassembler → Reassembler
unfolding declare chunk expire abort_all
step codec (declares now rep) r = declare now rep r
step codec (chunks now c) r = chunk codec now c r
step codec (expires rep_id) r = expire rep_id r
step codec (aborts code) r = abort_all code r

unfoldable pub run : Codec → List Step → Reassembler → Reassembler
unfolding step
run codec [] r = r
run codec (x ∷ xs) r = run codec xs (step codec x r)
