-- ===== src/AgentHost/Changes.antt =====
-- packages/agent-host/src/reassembler.ts: `createChangeAssembler`, which makes one payload of a change
-- of the clipboard once every representation of it has come or was dropped. A pending change is an
-- object that the code changes in place: `changes` has them all, in the order in which they came, and
-- a place in it stands for the object. A call of `emit` is an entry of `emitted`, with that place. The
-- token of a payload, which is its count in decimal, is left out.
pub mod Counts
pub mod Settled
pub mod Streams
pub mod Owners
pub mod Once
pub mod Examples
use copy_clipboard_app.Base.{
  ℕ, zero, suc, ◌+◌, ◌-◌, ◌==◌, Text, text_eq, Bool, true, false, not, Option, none, some, List, [],
  ◌∷◌, ◌++◌, map, length, keep_if, if◌then◌else◌, Dict, get, set, delete,
}
use copy_clipboard_app.Protocol.Result.{ErrorCode, rep_short, rep_hash_mismatch, rep_too_many}
use copy_clipboard_app.Protocol.Types.{PasteboardHint, Confidence, SourceApp, ResolvedRep}
use copy_clipboard_app.AgentHost.Reassembler.{
  DeclaredRep, RepChunkIn, Told, completed, aborted, Reassembler, new_reassembler, Codec, declare,
  chunk, expire,
}
use copy_clipboard_app.AgentHost.Reassembler

-- A representation on the wire: its bytes stand inline, or come in chunks under an id.
pub record Rep : Type 0 where
  pub mime : Text
  pub uti : Option Text
  pub byte_length : ℕ
  pub sha256 : Text
  pub inline : Option Text
  pub rep_id : Option Text

pub record ChangedWire : Type 0 where
  pub change_count : ℕ
  pub hints : List PasteboardHint
  pub reps : List Rep
  pub frontmost_bundle_id : Option Text
  pub frontmost_name : Option Text
  pub attribution_confidence : Confidence

pub record Slot : Type 0 where
  pub mime : Text
  pub resolved : Option ResolvedRep
  pub dropped : Option ErrorCode

pub record PendingChange : Type 0 where
  pub slots : List Slot
  pub wire : ChangedWire
  pub outstanding : ℕ

pub record ChangedPayload : Type 0 where
  pub change_count : ℕ
  pub hints : List PasteboardHint
  pub reps : List ResolvedRep
  pub source_app : Option SourceApp
  pub dropped_reps : List (Text × ErrorCode)

-- Which change, and which of its slots
pub record Place : Type 0 where
  pub change : ℕ
  pub slot : ℕ

pub record Assembler : Type 0 where
  pub reassembler : Reassembler
  pub owner : Dict Place
  pub changes : List PendingChange
  pub pending : List ℕ
  pub emitted : List (ℕ × ChangedPayload)

abbrev pub new_assembler : Assembler
new_assembler = record {
  reassembler = new_reassembler;
  owner = [];
  changes = [];
  pending = [];
  emitted = [];
}

abbrev resolved_in : Option ResolvedRep → List ResolvedRep → List ResolvedRep
resolved_in none reps = reps
resolved_in (some rep) reps = rep ∷ reps

abbrev resolved_reps : List Slot → List ResolvedRep
resolved_reps [] = []
resolved_reps (s ∷ ss) = resolved_in s.resolved (resolved_reps ss)

abbrev dropped_in :
    Text → Option ResolvedRep → Option ErrorCode → List (Text × ErrorCode) → List (Text × ErrorCode)
dropped_in mime none (some code) reps = (mime, code) ∷ reps
dropped_in mime none none reps = reps
dropped_in mime (some rep) code reps = reps

abbrev dropped_reps : List Slot → List (Text × ErrorCode)
dropped_reps [] = []
dropped_reps (s ∷ ss) = dropped_in s.mime s.resolved s.dropped (dropped_reps ss)

abbrev source_app_of : Option Text → Option Text → Confidence → Option SourceApp
source_app_of none none confidence = none
source_app_of bundle_id name confidence =
    some (record { bundle_id = bundle_id; name = name; confidence = confidence })

abbrev pub payload_of : PendingChange → ChangedPayload
payload_of p = record {
  change_count = p.wire.change_count;
  hints = p.wire.hints;
  reps = resolved_reps p.slots;
  source_app =
      source_app_of p.wire.frontmost_bundle_id p.wire.frontmost_name p.wire.attribution_confidence;
  dropped_reps = dropped_reps p.slots;
}

-- The object at a place, if there is one, and the list with it changed
abbrev pub at : {A : Type 0} → ℕ → List A → Option A
at n [] = none
at zero (x ∷ xs) = some x
at (suc n) (x ∷ xs) = at n xs

abbrev pub update_at : {A : Type 0} → ℕ → (A → A) → List A → List A
update_at n f [] = []
update_at zero f (x ∷ xs) = f x ∷ xs
update_at (suc n) f (x ∷ xs) = x ∷ update_at n f xs

abbrev emit : ℕ → Option PendingChange → Assembler → Assembler
emit p none a = a
emit p (some c) a = record a { emitted = a.emitted ++ (p, payload_of c) ∷ [] }

unfoldable pub finish : ℕ → Assembler → Assembler
finish p a = emit p (at p a.changes) (record a { pending = keep_if (λ q. not (q == p)) a.pending })

abbrev pub outstanding_of : Option PendingChange → ℕ
outstanding_of none = 0
outstanding_of (some c) = c.outstanding

-- One representation of the change is settled: its slot is filled, and there is one less to come.
-- There is one to come whenever this is called, so the subtraction is the source's.
abbrev pub filled : ℕ → (Slot → Slot) → PendingChange → PendingChange
filled slot f c = record c { slots = update_at slot f c.slots; outstanding = c.outstanding - 1 }

unfoldable pub settle : Place → (Slot → Slot) → Assembler → Assembler
unfolding finish
settle place f a =
    let a' = record a { changes = update_at place.change (filled place.slot f) a.changes } in
    if outstanding_of (at place.change a'.changes) == 0 then finish place.change a' else a'

abbrev pub release : Text → Assembler → Assembler
release rep_id a = record a { owner = delete rep_id a.owner }

abbrev pub settle_owned : Text → (Slot → Slot) → Option Place → Assembler → Assembler
settle_owned rep_id f none a = a
settle_owned rep_id f (some place) a = settle place f (release rep_id a)

-- `onComplete` and `onAbort`
unfoldable pub call_back : Told → Assembler → Assembler
unfolding settle
call_back (completed rep_id rep) a =
    settle_owned rep_id (λ s. record s { resolved = some rep }) (get rep_id a.owner) a
call_back (aborted rep_id mime code) a =
    settle_owned rep_id (λ s. record s { dropped = some code }) (get rep_id a.owner) a

unfoldable pub call_back_each : List Told → Assembler → Assembler
unfolding call_back
call_back_each [] a = a
call_back_each (t ∷ ts) a = call_back_each ts (call_back t a)

-- A call of the reassembler, with what it calls back. The callbacks leave the reassembler as it is.
unfoldable pub reassemble : (Reassembler → Reassembler) → Assembler → Assembler
unfolding call_back_each
reassemble f a =
    let r = f a.reassembler in
    call_back_each r.told (record a { reassembler = record r { told = [] } })

-- Whether the representation comes in chunks
abbrev pub chunked_id : Rep → Option Text
chunked_id r = elim r.inline [ none ↦ r.rep_id | some b64 ↦ none ]

abbrev pub count_chunked : List Rep → ℕ
count_chunked [] = 0
count_chunked (r ∷ rs) =
    let n = count_chunked rs in elim (chunked_id r) [ none ↦ n | some id ↦ suc n ]

abbrev pub declared_of : Rep → Text → DeclaredRep
declared_of r id = record {
  rep_id = id;
  mime = r.mime;
  uti = r.uti;
  byte_length = r.byte_length;
  sha256 = r.sha256;
}

abbrev pub is_owned : Option Place → Bool
is_owned none = false
is_owned (some place) = true

module _ (codec : Codec) where
  abbrev inline_slot : Rep → Text → Slot
  inline_slot r b64 =
      let bytes = codec.from_base64 b64 in
      let hash = codec.content_hash bytes in
      if not (length bytes == r.byte_length)
      then record { mime = r.mime; resolved = none; dropped = some rep_short }
      else if not (text_eq hash r.sha256)
      then record { mime = r.mime; resolved = none; dropped = some rep_hash_mismatch }
      else record {
        mime = r.mime;
        resolved = some (record {
          mime = r.mime;
          uti = r.uti;
          bytes = bytes;
          byte_length = length bytes;
          sha256 = hash;
        });
        dropped = none;
      }

  -- The slot of a representation after the first pass
  abbrev pub first_slot : Rep → Slot
  first_slot r = elim r.inline [
    | none ↦ record { mime = r.mime; resolved = none; dropped = none }
    | some b64 ↦ inline_slot r b64
  ]

  abbrev pub change_of : ChangedWire → PendingChange
  change_of w = record {
    slots = map first_slot w.reps;
    wire = w;
    outstanding = count_chunked w.reps;
  }

abbrev pub own : Text → Place → Assembler → Assembler
own id place a = record a { owner = set id place a.owner }

abbrev pub declare_chunked : ℕ → Place → Rep → Option Text → Assembler → Assembler
declare_chunked now place r none a = a
declare_chunked now place r (some id) a =
    if is_owned (get id a.owner)
    then settle place (λ s. record s { dropped = some rep_too_many }) a
    else reassemble (declare now (declared_of r id)) (own id place a)

-- The loop over `chunked`
unfoldable pub declare_each : ℕ → ℕ → ℕ → List Rep → Assembler → Assembler
unfolding settle reassemble declare
declare_each now p i [] a = a
declare_each now p i (r ∷ rs) a =
    declare_each now p (suc i) rs
      (declare_chunked now (record { change = p; slot = i }) r (chunked_id r) a)

unfoldable pub handle_changed : Codec → ℕ → ChangedWire → Assembler → Assembler
unfolding finish declare_each
handle_changed codec now w a =
    let p = length a.changes in
    let a' = record a { changes = a.changes ++ change_of codec w ∷ [] } in
    if count_chunked w.reps == 0
    then finish p a'
    else declare_each now p 0 w.reps (record a' { pending = a.pending ++ p ∷ [] })

unfoldable pub handle_chunk : Codec → ℕ → RepChunkIn → Assembler → Assembler
unfolding reassemble
handle_chunk codec now c a = reassemble (chunk codec now c) a

-- The timer of a stream has run out.
unfoldable pub time_out : Text → Assembler → Assembler
unfolding reassemble
time_out rep_id a = reassemble (expire rep_id) a

unfoldable pub abort_all : ErrorCode → Assembler → Assembler
unfolding reassemble
abort_all code a = record (reassemble (Reassembler.abort_all code) a) { pending = []; owner = [] }

-- What comes to the assembler
pub data Event : Type 0 where
  changed : ℕ → ChangedWire → Event
  chunk_came : ℕ → RepChunkIn → Event
  timed_out : Text → Event
  aborted_all : ErrorCode → Event

unfoldable pub handle : Codec → Event → Assembler → Assembler
unfolding handle_changed handle_chunk time_out abort_all
handle codec (changed now w) a = handle_changed codec now w a
handle codec (chunk_came now c) a = handle_chunk codec now c a
handle codec (timed_out rep_id) a = time_out rep_id a
handle codec (aborted_all code) a = abort_all code a

unfoldable pub handle_each : Codec → List Event → Assembler → Assembler
unfolding handle
handle_each codec [] a = a
handle_each codec (e ∷ es) a = handle_each codec es (handle codec e a)
