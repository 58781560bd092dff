-- ===== src/History/Examples.antt =====
-- A small store and index for the witnesses: a log that is full after a number of events, blobs whose
-- names are their bytes, and an index that is the list of its rows.
pub mod Restarts
pub mod Operations
use copy_clipboard_app.Base.{
  ℕ, suc, ◌+◌, Text, codes, text_eq, Bool, true, false, ◌≡◌, refl, ap, ◌∙◌, sym, Option, none, some,
  List, [], ◌∷◌, ◌++◌, map, length, ltb, leb, arith, if◌then◌else◌, Bool-cases, Dict, get, set,
  delete, inl, inr,
}
use copy_clipboard_app.Protocol.Result.{Result, ErrorCode, ok, err, store_io, blob_missing}
use copy_clipboard_app.Protocol.Types.{
  Item, ItemCore, StoreEvent, RepRef, Classification, Snapshot, MaskSpan, Bytes, ResolvedRep,
  Candidate, ItemKind, Flag, text, secret,
}
use copy_clipboard_app.Retention.{RetentionLimits, default_retention}
use copy_clipboard_app.History.Ports.{
  Port, IsLog, StoreEventInput, stamp, to_stored, SearchEntry, SearchHit,
}
use copy_clipboard_app.History.State.{State}
use copy_clipboard_app.History.Replay.{Restored, replay, apply_event}

pub record Memory : Type 0 where
  pub log : List (Result StoreEvent)
  pub blobs : Dict Bytes
  pub capacity : ℕ

abbrev pub empty_memory : Memory
empty_memory = record { log = []; blobs = []; capacity = 20 }

-- An append to a log that is full, or is not.
abbrev append_unless : Bool → StoreEventInput → Memory → Result StoreEvent × Memory
append_unless true input m = (err store_io, m)
append_unless false input m =
    let ev = stamp (suc (length m.log)) 0 input in (ok ev, record m { log = m.log ++ ok ev ∷ [] })

abbrev append_stamped : StoreEventInput → Memory → Result StoreEvent × Memory
append_stamped input m = append_unless (leb m.capacity (length m.log)) input m

abbrev pub found_blob : Option Bytes → Result Bytes
found_blob none = err blob_missing
found_blob (some bytes) = ok bytes

abbrev hits_of : ℕ → List SearchEntry → List SearchHit
hits_of place [] = []
hits_of place (e ∷ es) = record { id = e.id; score = place; ranges = [] } ∷ hits_of (suc place) es

abbrev without_row : Text → List SearchEntry → List SearchEntry
without_row id [] = []
without_row id (e ∷ es) = let rest = without_row id es in if text_eq e.id id then rest else e ∷ rest

-- Text that begins with `s` counts as a secret.
abbrev flags_of : Option Text → List Flag
flags_of none = []
flags_of (some []) = []
flags_of (some (c ∷ cs)) = if text_eq (c ∷ []) (codes "s") then Flag.secret ∷ [] else []

unfoldable pub memory_port : Port
memory_port = record {
  Store = Memory;
  append_event = append_stamped;
  read_all = λ (m : Memory). m.log;
  put_blob = λ bytes (m : Memory). (ok bytes, record m { blobs = set bytes bytes m.blobs });
  get_blob = λ id (m : Memory). found_blob (get id m.blobs);
  delete_blob = λ id (m : Memory). (ok true, record m { blobs = delete id m.blobs });
  Index = List SearchEntry;
  index_add = λ e es. e ∷ without_row e.id es;
  index_remove = without_row;
  index_clear = λ es. [];
  index_size = λ es. length es;
  index_query = λ q n es. hits_of 0 es;
  classify = λ (s : Snapshot). record { records = true; flags = flags_of s.primary_text };
  mask = λ s. (s, []);
  content_hash = λ bytes. bytes;
  decode_utf8 = λ bytes. bytes;
  to_lower_case = λ s. s;
}

append_unless-ok :
    (full : Bool) (input : StoreEventInput) (m : Memory) (e : StoreEvent)
    → (append_unless full input m).0 ≡ ok e
    → (seq : ℕ) × (at : ℕ) × (e ≡ stamp seq at input)
      × ((append_unless full input m).1.log ≡ m.log ++ ok e ∷ [])
append_unless-ok true input m e h = cc
append_unless-ok false input m e h =
    let same : stamp (suc (length m.log)) 0 input ≡ e = cc in
    (suc (length m.log), 0, sym same, ap (λ w. m.log ++ ok w ∷ []) same)

append_unless-err :
    (full : Bool) (input : StoreEventInput) (m : Memory) (c : ErrorCode)
    → (append_unless full input m).0 ≡ err c
    → (append_unless full input m).1.log ≡ m.log
append_unless-err true input m c h = refl
append_unless-err false input m c h = cc

pub memory_port-IsLog : IsLog memory_port
unfolding memory_port
memory_port-IsLog = record {
  appended = λ input m e _ _ h. append_unless-ok (leb m.capacity (length m.log)) input m e h;
  refused = λ input m c h. append_unless-err (leb m.capacity (length m.log)) input m c h;
  put_blob_apart = λ bytes m. refl;
  delete_blob_apart = λ id m. refl;
}

-- A copied text.
abbrev pub copied : Text → ℕ → Candidate
copied content at = record {
  reps =
      record {
        mime = codes "text/plain";
        uti = none;
        bytes = content;
        byte_length = length content;
        sha256 = content;
      }
      ∷ [];
  kind = ItemKind.text;
  content_hash = content;
  primary_text = some content;
  hints = [];
  source_app = none;
  thumbnail_jpeg = none;
  change_token = codes "1";
  captured_at = at;
}

abbrev pub random_bytes : Bytes
random_bytes = 1 ∷ 2 ∷ 3 ∷ 4 ∷ 5 ∷ 6 ∷ 7 ∷ 8 ∷ 9 ∷ 10 ∷ []

abbrev pub no_rows : memory_port.Index
unfolding memory_port
no_rows = []

-- An item of a plain text, by its id, its text and the time of its copy.
abbrev pub item_with : Text → Text → ℕ → Item
item_with id content at = record {
  core = record {
    id = id;
    kind = ItemKind.text;
    content_hash = content;
    preview = content;
    preview_truncated = false;
    mask_spans = [];
    flags = [];
    rep_refs =
        record {
          mime = codes "text/plain";
          uti = none;
          byte_length = length content;
          sha256 = content;
          blob_id = content;
        }
        ∷ [];
    thumbnail_blob_id = none;
    source_app = none;
    byte_length = length content;
    created_at = at;
    updated_at = at;
    pinned = false;
    expires_at = none;
  };
  title = some (codes "note");
  tags = codes "work" ∷ [];
}

abbrev pub one_item : Item
one_item = item_with (codes "A") (codes "hello") 1_000

-- A store that has one item, and the state of a history over it.
abbrev pub one_store : memory_port.Store
unfolding memory_port
one_store = record {
  log = ok (StoreEvent.item_added 1 0 (to_stored one_item)) ∷ [];
  blobs = (codes "hello", codes "hello") ∷ [];
  capacity = 20;
}

abbrev pub one_state : State memory_port
one_state = record {
  store = one_store;
  index = no_rows;
  limits = default_retention;
  items = (one_item.id, one_item) ∷ [];
  explicit_tabs = [];
  ord = (one_item.id, 1) ∷ [];
  by_hash = (one_item.content_hash, one_item.id) ∷ [];
  pending_blob_deletes = [];
  previews_loaded = true;
  eviction_epoch = 0;
  loading = none;
  emitted = [];
}

abbrev pub one_restored : Restored
one_restored = record {
  items = (one_item.id, one_item) ∷ [];
  tabs = [];
  ord = (one_item.id, 1) ∷ [];
  deletes = [];
}

pub one_log : replay (memory_port.read_all one_store) ≡ ok one_restored
unfolding memory_port replay apply_event set
one_log = refl
