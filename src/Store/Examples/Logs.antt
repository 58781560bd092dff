-- ===== src/Store/Examples/Logs.antt =====
-- A log on the toy platform, and the theorems of the store on it.
use copy_clipboard_app.Base.{
  insert, includes, ℕ, suc, ◌+◌, ◌≡◌, refl, subst, Text, codes, text_eq, Option, none, some, List,
  [], ◌∷◌, ◌++◌, get, arith, ◌⊎◌, false,
}
use copy_clipboard_app.Protocol.Types.{Bytes, StoreEvent}
use copy_clipboard_app.Protocol.Result.{ok, err, store_decrypt}
use copy_clipboard_app.History.Ports.{StoreEventInput, IsClean, IsRecordable}
use copy_clipboard_app.History.Replay.{Restored, nothing, replay}
use copy_clipboard_app.History.Replay.{replay_from, apply_event}
use copy_clipboard_app.Store.Lines.{repair}
use copy_clipboard_app.Store.Chain.{chain_genesis, chain_next}
use copy_clipboard_app.Store.Record.{StoreEventKind, open_record, seal_record}
use copy_clipboard_app.Store.Log.{Tick, Store, append_event, read_all, read_from}
use copy_clipboard_app.Store.Events.{line_of}
use copy_clipboard_app.Store.Kinds.{open_record_exactly}
use copy_clipboard_app.Store.Blobs.{BlobWrite, put, get_blob}
use copy_clipboard_app.Store.BlobFiles.{get_blob-put}
use copy_clipboard_app.Store.Written.{Entry, IsOpen, read_all-IsOpen, read_from-lines_from}
use copy_clipboard_app.Store.Opening.{open_log}
use copy_clipboard_app.Store.Appended.{entry, next_event, with_line, next_event-IsOpen}
use copy_clipboard_app.Store.Fresh.{first_event, open_fresh}
use copy_clipboard_app.Store.Crashes.{Outcome, crash_lem}
use copy_clipboard_app.Store.Compact.{LineTicks, Rewrite, compact}
use copy_clipboard_app.Store.Compacted.{Holds, Reopens, compact_lem, compact_crash_lem}
use copy_clipboard_app.Store.Tampering.{Collides, read_from-binds}
use copy_clipboard_app.Store.Examples.Toy.{toy, raised, sum_of, toy-IsPlatform}

abbrev pub zeros : Bytes
zeros = 0 ∷ 0 ∷ 0 ∷ 0 ∷ 0 ∷ 0 ∷ 0 ∷ 0 ∷ 0 ∷ 0 ∷ 0 ∷ 0 ∷ []

abbrev pub tick_at : ℕ → Option ℕ → Tick
tick_at now fault = record { now = now; nonce = zeros; fault = fault }

-- The store of an empty directory.
abbrev pub fresh_store : Store
fresh_store = (open_log toy [] (tick_at 1_000 none) none []).1

abbrev pub fresh_entries : List Entry
fresh_entries = entry (tick_at 1_000 none) (first_event toy [] (tick_at 1_000 none) []) ∷ []

pub fresh_store-IsOpen : IsOpen toy [] fresh_store fresh_entries
unfolding repair
fresh_store-IsOpen = (open_fresh toy [] (tick_at 1_000 none) [] none refl refl refl).1

fresh_clean : IsClean (read_all toy [] fresh_store)
fresh_clean =
    rw (read_all-IsOpen toy [] toy-IsPlatform fresh_store fresh_entries fresh_store-IsOpen) tt

-- A tab is created in it.
abbrev tab_input : StoreEventInput
tab_input = StoreEventInput.tab_created (codes "work")

tab_input-IsRecordable : IsRecordable tab_input
tab_input-IsRecordable = omega arith

abbrev pub tabbed_store : Store
tabbed_store =
    with_line toy [] (tick_at 2_000 none)
      (next_event toy [] (tick_at 2_000 none) tab_input fresh_store) fresh_store

abbrev pub tabbed_entries : List Entry
tabbed_entries =
    fresh_entries
    ++ entry (tick_at 2_000 none) (next_event toy [] (tick_at 2_000 none) tab_input fresh_store)
      ∷ []

pub tabbed_store-IsOpen : IsOpen toy [] tabbed_store tabbed_entries
tabbed_store-IsOpen =
    next_event-IsOpen toy [] (tick_at 2_000 none) tab_input fresh_store fresh_entries
      fresh_store-IsOpen refl

abbrev pub tabbed : Restored
tabbed = record nothing { tabs = codes "work" ∷ [] }

pub tabbed_restored : replay (read_all toy [] tabbed_store) ≡ ok tabbed
unfolding replay replay_from apply_event insert includes
tabbed_restored =
    rw (read_all-IsOpen toy [] toy-IsPlatform tabbed_store tabbed_entries tabbed_store-IsOpen) refl

-- The append throws with five characters in the file.
crash_lem_example :
    Outcome toy toy-IsPlatform []
      (tick_at 2_000 (some 5))
      (tick_at 3_000 none)
      tab_input
      fresh_store
      fresh_entries
      fresh_store-IsOpen
      refl
      tab_input-IsRecordable
      fresh_clean
      (append_event toy [] (tick_at 2_000 (some 5)) tab_input fresh_store)
crash_lem_example =
    crash_lem toy toy-IsPlatform [] (tick_at 2_000 (some 5)) (tick_at 3_000 none) tab_input
      fresh_store fresh_entries fresh_store-IsOpen refl tab_input-IsRecordable fresh_clean

open_record_exactly_example :
    ((3 ≡ suc 2)
      × (7 ≡ suc 6)
      × (StoreEventKind.tab_created ≡ StoreEventKind.tab_created)
      × (open_record toy [] 3 7 StoreEventKind.tab_created
            (seal_record toy [] zeros 3 7 StoreEventKind.tab_created (codes "x"))
          ≡ ok (codes "x")))
    ⊎ ((((3 ≡ suc 2) × (7 ≡ suc 6) × (StoreEventKind.tab_created ≡ StoreEventKind.tab_created)) → ⊥)
        × (open_record toy [] 3 7 StoreEventKind.tab_created
              (seal_record toy [] zeros 3 7 StoreEventKind.tab_created (codes "x"))
            ≡ err store_decrypt))
open_record_exactly_example =
    open_record_exactly toy toy-IsPlatform [] zeros (codes "x") 3 3 7 7 StoreEventKind.tab_created
      StoreEventKind.tab_created refl (omega arith) (omega arith) (omega arith) (omega arith)

get_blob-put_example :
    let after = put toy [] BlobWrite.done zeros (codes "hello") [] in
    (after.0 ≡ ok (toy.content_hash (codes "hello")))
    × (get_blob toy [] (toy.content_hash (codes "hello")) after.1 ≡ ok (codes "hello"))
    × ((id : Text)
        → text_eq (toy.file_name [] (toy.content_hash (codes "hello"))) (toy.file_name [] id)
          ≡ false
        → get_blob toy [] id after.1 ≡ get_blob toy [] id [])
unfolding get
get_blob-put_example = get_blob-put toy [] toy-IsPlatform zeros (codes "hello") [] refl refl

abbrev line_ticks : LineTicks
line_ticks = record { now = λ n. 5_000 + n; nonce = λ n. zeros }

compact_lem_example :
    let after = (compact toy [] line_ticks Rewrite.done none [] tabbed_store).1 in
    ((ys : List Entry) × IsOpen toy [] after ys)
    × Holds toy toy-IsPlatform [] line_ticks
        (λ n. refl)
        []
        tabbed_store
        tabbed_entries
        tabbed
        tabbed_store-IsOpen
        tabbed_restored
        (read_all toy [] after)
compact_lem_example =
    compact_lem toy toy-IsPlatform [] line_ticks (λ n. refl) [] tabbed_store tabbed_entries tabbed
      tabbed_store-IsOpen tabbed_restored none

compact_crash_lem_example :
    Reopens toy toy-IsPlatform [] line_ticks
      (λ n. refl)
      []
      tabbed_store
      tabbed_entries
      tabbed
      tabbed_store-IsOpen
      tabbed_restored
      (tick_at 6_000 none)
      (compact toy [] line_ticks Rewrite.after_rename none [] tabbed_store).1
compact_crash_lem_example =
    compact_crash_lem toy toy-IsPlatform [] line_ticks (λ n. refl) [] tabbed_store tabbed_entries
      tabbed tabbed_store-IsOpen tabbed_restored (tick_at 6_000 none) Rewrite.after_rename none

-- The first line of a log that is begun at a time, and the line of a tab behind a tip.
abbrev anchor_line : ℕ → Text
anchor_line now =
    line_of toy [] zeros 0 (chain_genesis toy) (first_event toy [] (tick_at now none) [])

abbrev tab_line : Text → Text
tab_line tip = line_of toy [] zeros 1 tip (StoreEvent.tab_created 2 2_000 (codes "work"))

abbrev tip_after : ℕ → Text
tip_after now = chain_next toy (chain_genesis toy) (anchor_line now)

abbrev two_entries : ℕ → List Entry
two_entries now =
    entry (tick_at now none) (first_event toy [] (tick_at now none) [])
    ∷ record { nonce = zeros; event = StoreEvent.tab_created 2 2_000 (codes "work") }
    ∷ []

two_lines_clean :
    (now : ℕ)
    → IsClean (
        read_from toy [] 1 0
          (chain_genesis toy)
          (anchor_line now ∷ [] ++ tab_line (tip_after now) ∷ []))
two_lines_clean now =
    rw
      (read_from-lines_from toy [] toy-IsPlatform 1 0 (chain_genesis toy) (two_entries now)
        (toy-IsPlatform.hash_form (codes "cairn/store/v1/genesis")) (refl, refl, (refl, refl, tt)))
      tt

-- The two lines differ behind the part that the checksum reads.
same_tip : tip_after 3_000 ≡ tip_after 1_000
unfolding toy raised sum_of seal_record
same_tip = refl

other_line_clean : IsClean (
    read_from toy [] 1 0
      (chain_genesis toy)
      (anchor_line 3_000 ∷ [] ++ tab_line (tip_after 1_000) ∷ []))
other_line_clean =
    subst
      (λ tip.
        IsClean
          (read_from toy [] 1 0 (chain_genesis toy) (anchor_line 3_000 ∷ [] ++ tab_line tip ∷ [])))
      same_tip (two_lines_clean 3_000)

-- The anchors are different, and the theorem gives the two texts that collide.
read_from-binds_example :
    ((anchor_line 1_000 ∷ []) ≡ (anchor_line 3_000 ∷ []))
    ⊎ Collides toy
        (chain_genesis toy)
        (chain_genesis toy)
        (anchor_line 1_000 ∷ [])
        (anchor_line 3_000 ∷ [])
read_from-binds_example =
    read_from-binds toy [] toy-IsPlatform 1 (anchor_line 1_000 ∷ []) (anchor_line 3_000 ∷ [])
      (tab_line (tip_after 1_000)) refl (two_lines_clean 1_000) other_line_clean
