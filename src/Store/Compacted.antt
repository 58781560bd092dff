-- ===== src/Store/Compacted.antt =====
-- packages/store/src/log-store.ts: what a compaction leaves, when it ends and when it is cut off.
use mathlib.Core.List.{append-nil}
use copy_clipboard_app.Base.{
  ℕ, ◌+◌, ◌≡◌, refl, sym, ap, ◌∙◌, subst, Text, Option, none, some, List, [], ◌∷◌, length, arith,
  Dict, get, values, includes, keep_if, map, map_values, add_all, add_all_self, Bool-cases, inl,
  inr, ◌⊎◌,
}
use copy_clipboard_app.Protocol.Types.{Bytes, Item, StoredItem, StoreEvent}
use copy_clipboard_app.Protocol.Result.{Result, ok, err}
use copy_clipboard_app.History.Ports.{IsClean}
use copy_clipboard_app.History.Replay.{Restored, nothing, with_defaults, replay, replay_from}
use copy_clipboard_app.History.Replayed.{replay-IsWellFormed}
use copy_clipboard_app.History.Keyed.{IsKeyed, set_all, set_all-values}
use copy_clipboard_app.History.Synced.{replay_from-IsClean}
use copy_clipboard_app.Store.Platform.{Platform, IsPlatform}
use copy_clipboard_app.Store.Lines.{join_lines, read_lines}
use copy_clipboard_app.Store.Chain.{chain_genesis}
use copy_clipboard_app.Store.Log.{Tick, Store, max_seq, read_all}
use copy_clipboard_app.Store.Files.{text_of_lines, join_lines-text, read_lines_whole}
use copy_clipboard_app.Store.Written.{
  Entry, IsHeaded, IsNumbered, events_of, lines_from, lines_from-OneLine, length-lines_from, IsOpen,
  read_all-IsOpen,
}
use copy_clipboard_app.Store.Opening.{open_log}
use copy_clipboard_app.Store.Reopened.{open_log-lines}
use copy_clipboard_app.Store.Crashes.{reopened-IsOpen}
use copy_clipboard_app.Store.Compact.{
  Live, LineTicks, Rewrite, Built, CompactSummary, nothing_live, live_from, build, asked_for,
  installed, collected, rewritten, compacted, compact,
}
use copy_clipboard_app.Store.Replays.{
  live_all, restored_all, Mirrors, all-Mirrors, live_all-IsNamed, replay_from-events_of,
  live_from-lines_from,
}
use copy_clipboard_app.Store.Rebuilt.{Rebuilt, build-Rebuilt}

-- The entries of the items that were asked_for for, each in its place.
abbrev pub kept : List Text → Dict Item → Dict Item
kept ids = keep_if λ (e : Text × Item). includes e.1.id ids

kept-values :
    (ids : List Text) (m : Dict StoredItem)
    → map with_defaults (keep_if (λ (it : StoredItem). includes it.core.id ids) (values m))
      ≡ values (kept ids (map_values with_defaults m))
kept-values ids [] = refl
kept-values ids ((k, it) ∷ m) = elim (Bool-cases (includes it.core.id ids)) [
  | inl e ↦ rw (e, kept-values ids m) refl
  | inr e ↦ rw (e, kept-values ids m) refl
]

get-kept : (ids : List Text) (k : Text) (m : Dict Item) → get k m ≡ none → get k (kept ids m) ≡ none
unfolding get
get-kept ids k [] h = refl
get-kept ids k ((j, it) ∷ m) h = elim (Bool-cases (includes it.id ids)) [
  | inl e ↦ rw e (ground (arith, get-kept ids k m))
  | inr e ↦ rw e (get-kept ids k m (ground arith))
]

kept-IsKeyed : (ids : List Text) (m : Dict Item) → IsKeyed m → IsKeyed (kept ids m)
kept-IsKeyed ids [] h = tt
kept-IsKeyed ids ((k, it) ∷ m) h = elim (Bool-cases (includes it.id ids)) [
  | inl e ↦ rw e (h.0, get-kept ids k m h.1, kept-IsKeyed ids m h.2)
  | inr e ↦ rw e (kept-IsKeyed ids m h.2)
]

map_values_self : (m : Dict Item) → map_values (λ it. it) m ≡ m
map_values_self [] = refl
map_values_self ((k, it) ∷ m) = ap (λ l. (k, it) ∷ l) (map_values_self m)

module _ (p : Platform) (laws : IsPlatform p) (key : Bytes) (ticks : LineTicks)
    (hn : (n : ℕ) → length (ticks.nonce n) ≡ 12) (ids : List Text) (s : Store) (xs : List Entry)
    (r : Restored) (o : IsOpen p key s xs) (readable : replay (read_all p key s) ≡ ok r) where
  abbrev live : Live
  live = live_all nothing_live xs

  read_same : read_all p key s ≡ events_of xs
  read_same = read_all-IsOpen p key laws s xs o

  clean : IsClean (events_of xs)
  unfolding replay
  clean =
      replay_from-IsClean nothing r (events_of xs)
        (ap (replay_from nothing) (sym read_same) ∙ readable)

  restored_same : restored_all nothing xs ≡ r
  unfolding replay
  restored_same =
      let e : ok (restored_all nothing xs) ≡ ok r =
        sym (replay_from-events_of nothing xs clean)
        ∙ ap (replay_from nothing) (sym read_same)
        ∙ readable in
      cc

  live-Mirrors : Mirrors live r
  live-Mirrors =
      subst (Mirrors live) restored_same
        (all-Mirrors xs nothing_live nothing (record { items = refl; tabs = refl }))

  abbrev built : Built
  built = build p key ticks (max_seq s) (asked_for p key ids live) live.tabs

  -- The new generation restores the items that were asked_for for, and all created tabs.
  built-Rebuilt : Rebuilt p key ticks hn (max_seq s + 1) built (kept ids r.items) r.tabs
  built-Rebuilt =
      let w = replay-IsWellFormed (read_all p key s) r readable in
      let items : set_all (λ it. it) (map with_defaults (asked_for p key ids live)) []
          ≡ kept ids r.items =
        ap (λ its. set_all (λ it. it) its [])
          (kept-values ids live.items ∙ ap (λ m. values (kept ids m)) (sym live-Mirrors.items))
        ∙ set_all-values (λ it. it) (kept ids r.items) (kept-IsKeyed ids r.items w.keyed)
        ∙ map_values_self (kept ids r.items) in
      let tabs : add_all [] live.tabs ≡ r.tabs =
        ap (add_all []) (sym live-Mirrors.tabs) ∙ add_all_self r.tabs w.distinct in
      subst (Rebuilt p key ticks hn (max_seq s + 1) built (kept ids r.items)) tabs (
        subst (λ m. Rebuilt p key ticks hn (max_seq s + 1) built m (add_all [] live.tabs)) items
          (build-Rebuilt p key ticks hn (max_seq s) (asked_for p key ids live) live.tabs
            (live_all-IsNamed xs nothing_live clean tt)))

  -- The log of the new generation, as it is written at once.
  written_new :
      join_lines built.out
      ≡ text_of_lines (lines_from p key 0 (chain_genesis p) built-Rebuilt.entries)
  written_new = go built-Rebuilt.entries built-Rebuilt.headed built-Rebuilt.out
    where
      go :
          (ys : List Entry)
          → IsHeaded ys
          → built.out ≡ lines_from p key 0 (chain_genesis p) ys
          → join_lines built.out ≡ text_of_lines (lines_from p key 0 (chain_genesis p) ys)
      go [] h e = absurd h
      go (y ∷ ys) h e = ap join_lines e ∙ join_lines-text _ _

  -- A store that has been switched to the new generation.
  abbrev IsSwitched : Store → Type 0
  IsSwitched s' =
      (s'.log ≡ some (join_lines built.out))
      × (s'.anchor_seq ≡ max_seq s + 1)
      × (s'.line_count ≡ length built.out)
      × (s'.tip_hash ≡ built.tip)

  IsSwitched-IsOpen : (s' : Store) → IsSwitched s' → IsOpen p key s' built-Rebuilt.entries
  IsSwitched-IsOpen s' h = record {
    written = h.0 ∙ ap some written_new;
    numbered = subst (λ n. IsNumbered n 0 built-Rebuilt.entries) (sym h.1) built-Rebuilt.numbered;
    counted =
        h.2
        ∙ ap length built-Rebuilt.out
        ∙ length-lines_from p key 0 (chain_genesis p) built-Rebuilt.entries;
    linked = h.3 ∙ built-Rebuilt.tip;
    anchored = omega (arith, h.1);
    headed = built-Rebuilt.headed;
  }

  -- What a store in which the new generation is the log has in it.
  abbrev pub Holds : List (Result StoreEvent) → Type 0
  Holds recs =
      (r' : Restored) × (replay recs ≡ ok r')
      × (r'.items ≡ kept ids r.items)
      × (r'.tabs ≡ r.tabs)
      × (r'.deletes ≡ [])

  new-Holds : (s' : Store) → IsOpen p key s' built-Rebuilt.entries → Holds (read_all p key s')
  unfolding replay
  new-Holds s' h = (
    built-Rebuilt.restored,
    ap (replay_from nothing) (read_all-IsOpen p key laws s' built-Rebuilt.entries h)
        ∙ built-Rebuilt.replayed,
    built-Rebuilt.items_same,
    built-Rebuilt.tabs_same,
    built-Rebuilt.deletes_none,
  )

  collected-IsSwitched :
      (live_count before : ℕ) (q : Result ℕ × Dict Bytes)
      → IsSwitched (collected p key live_count before (installed p key built s) q).1
  collected-IsSwitched live_count before (ok removed, blobs) = (refl, refl, refl, refl)
  collected-IsSwitched live_count before (err c, blobs) = (refl, refl, refl, refl)

  compact-rewritten :
      (how : Rewrite) (fault : Option ℕ)
      → compact p key ticks how fault ids s
        ≡ rewritten p key how fault (asked_for p key ids live) built s
  unfolding compact
  compact-rewritten how fault = ap (compacted p key ticks how fault ids s) (
      ap (λ ls. live_from p key s.anchor_seq 0 (chain_genesis p) nothing_live ls)
        (ap read_lines o.written
          ∙ read_lines_whole (lines_from p key 0 (chain_genesis p) xs)
              (lines_from-OneLine p key laws 0 (chain_genesis p) xs))
      ∙ live_from-lines_from p laws key s.anchor_seq 0 (chain_genesis p) nothing_live xs
          (laws.hash_form _) o.numbered clean)

  -- A store is open, and its log can be read. A compaction that is not cut off before it has taken the
  -- new generation into use leaves an open store, whether or not a removal of a blob fails. Of what
  -- the history restores from its log, the items are those that were there and were asked_for for, each
  -- in its place; the created tabs are those that were there; and nothing waits for deletion.
  pub compact_lem :
      (fault : Option ℕ)
      → let after = (compact p key ticks Rewrite.done fault ids s).1 in
        ((ys : List Entry) × IsOpen p key after ys) × Holds (read_all p key after)
  compact_lem fault =
      subst (λ c. ((ys : List Entry) × IsOpen p key c.1 ys) × Holds (read_all p key c.1))
        (sym (compact-rewritten Rewrite.done fault))
        (let q : Result CompactSummary × Store =
            rewritten p key Rewrite.done fault (asked_for p key ids live) built s in
          let h : IsOpen p key q.1 built-Rebuilt.entries =
            IsSwitched-IsOpen q.1 (collected-IsSwitched _ _ _) in
          ((built-Rebuilt.entries, h), new-Holds q.1 h))

  module _ (tick : Tick) where
    abbrev pub Reopens : Store → Type 0
    Reopens s' =
        let opened = open_log p key tick s'.log s'.blobs in
        (opened.0 ≡ ok tt)
        × ((replay (read_all p key opened.1) ≡ ok r) ⊎ Holds (read_all p key opened.1))

    new-Reopens : (s' : Store) → s'.log ≡ some (join_lines built.out) → Reopens s'
    new-Reopens s' e =
        let h =
          open_log-lines p laws key tick (max_seq s + 1) built-Rebuilt.entries
            built-Rebuilt.numbered built-Rebuilt.headed (omega arith) s'.log [] s'.blobs refl
            (e ∙ ap some (written_new ∙ sym (append-nil _))) in
        (h.0, inr (new-Holds _ h.1))

    rewritten-Reopens :
        (how : Rewrite) (fault : Option ℕ)
        → Reopens (rewritten p key how fault (asked_for p key ids live) built s).1
    rewritten-Reopens Rewrite.before_rename fault =
        let h = reopened-IsOpen p laws key tick s xs o in
        (h.0, inl (ap replay (read_all-IsOpen p key laws _ xs h.1 ∙ sym read_same) ∙ readable))
    rewritten-Reopens Rewrite.after_rename fault =
        new-Reopens
          (rewritten p key Rewrite.after_rename fault (asked_for p key ids live) built s).1 refl
    rewritten-Reopens Rewrite.done fault =
        new-Reopens (rewritten p key Rewrite.done fault (asked_for p key ids live) built s).1
          (collected-IsSwitched _ _ _).0

    -- A compaction that is cut off at any point, be it before the new generation takes the place of
    -- the old, behind that, or while it removes blobs, leaves a log that can be opened; and what the
    -- history restores from it is what it would have restored without the compaction, or the items
    -- that were asked_for for with the created tabs.
    pub compact_crash_lem :
        (how : Rewrite) (fault : Option ℕ) → Reopens (compact p key ticks how fault ids s).1
    compact_crash_lem how fault =
        subst (λ c. Reopens c.1) (sym (compact-rewritten how fault)) (rewritten-Reopens how fault)
