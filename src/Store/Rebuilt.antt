-- ===== src/Store/Rebuilt.antt =====
-- packages/store/src/log-store.ts: the new generation that `compact` builds is a log, and its replay
-- restores what was put into it.
use copy_clipboard_app.Base.{
  ℕ, ◌+◌, ◌≡◌, refl, sym, ap, ◌∙◌, subst, Text, true, List, [], ◌∷◌, ◌++◌, length, arith, Dict, set,
  insert, map, All, add_all,
}
use copy_clipboard_app.Protocol.Types.{
  Bytes, Item, StoredItem, StoreEvent, item_added, tab_created, checkpoint,
}
use copy_clipboard_app.Protocol.Result.{Result, ok}
use copy_clipboard_app.History.Ports.{IsClean}
use copy_clipboard_app.History.Replay.{Restored, nothing, apply_event, with_defaults, replay_from}
use copy_clipboard_app.History.Keyed.{set_all}
use copy_clipboard_app.History.Synced.{replay_from-append}
use copy_clipboard_app.Store.Platform.{Platform}
use copy_clipboard_app.Store.Chain.{chain_genesis, chain_next}
use copy_clipboard_app.Store.Record.{StoreEventKind}
use copy_clipboard_app.Store.Log.{checkpoint_extra}
use copy_clipboard_app.Store.Events.{seq_of, time_of, kind_of, extra_of, is_readable, line_of}
use copy_clipboard_app.Store.Written.{
  Entry, IsNumbered, IsNumbered-append, IsHeaded, IsHeaded-append, events_of, events_of-append,
  lines_from, lines_from-append, length-lines_from, tip_after, tip_after-append,
}
use copy_clipboard_app.Store.Compact.{LineTicks, Built, push_line, push_items, push_tabs, build}
use copy_clipboard_app.Store.Replays.{IsNamed}

clean-append :
    (recs : List (Result StoreEvent)) (e : StoreEvent) → IsClean recs → IsClean (recs ++ ok e ∷ [])
clean-append [] e c = tt
clean-append (ok d ∷ recs) e c = clean-append recs e c
clean-append (Result.err d ∷ recs) e c = c

module _ (p : Platform) (key : Bytes) (ticks : LineTicks)
    (hn : (n : ℕ) → length (ticks.nonce n) ≡ 12) (base : ℕ) where
  -- The lines that are built are those of entries, whose replay has these items and tabs, and has
  -- nothing to delete.
  pub record Rebuilt (b : Built) (items : Dict Item) (tabs : List Text) : Type 0 where
    pub entries : List Entry
    pub restored : Restored
    pub out : b.out ≡ lines_from p key 0 (chain_genesis p) entries
    pub tip : b.tip ≡ tip_after p key 0 (chain_genesis p) entries
    pub numbered : IsNumbered base 0 entries
    pub headed : IsHeaded entries
    pub clean : IsClean (events_of entries)
    pub replayed : replay_from nothing (events_of entries) ≡ ok restored
    pub items_same : restored.items ≡ items
    pub tabs_same : restored.tabs ≡ tabs
    pub deletes_none : restored.deletes ≡ []

  module _ (b : Built) (e : StoreEvent) (seq_here : seq_of e ≡ base + length b.out)
      (time_here : time_of e ≡ ticks.now (length b.out)) where
    abbrev pushed : Built
    pushed = push_line p key ticks base (kind_of e) (extra_of e) b

    abbrev line : Text
    line = line_of p key (ticks.nonce (length b.out)) (length b.out) b.tip e

    push_line-line_of : pushed ≡ record { out = b.out ++ line ∷ []; tip = chain_next p b.tip line }
    unfolding push_line
    push_line-line_of = rw (← seq_here, ← time_here) refl

    -- A line with an event that can be read.
    push_line-Rebuilt :
        (items : Dict Item) (tabs : List Text) (h : Rebuilt b items tabs)
        → is_readable e ≡ true
        → (apply_event h.restored e).deletes ≡ []
        → Rebuilt pushed (apply_event h.restored e).items (apply_event h.restored e).tabs
    push_line-Rebuilt items tabs h hr hd =
        let x : Entry = record { nonce = ticks.nonce (length b.out); event = e } in
        let place : length b.out ≡ 0 + length h.entries =
          omega (arith, ap length h.out, length-lines_from p key 0 (chain_genesis p) h.entries) in
        let same : line
            ≡ line_of p key x.nonce (0 + length h.entries)
                (tip_after p key 0 (chain_genesis p) h.entries) e =
          λ i. line_of p key x.nonce (place i) (h.tip i) e in
        let longer = events_of-append h.entries x h.clean hr in
        record {
          entries = h.entries ++ x ∷ [];
          restored = apply_event h.restored e;
          out =
              ap (λ c. c.out) push_line-line_of
              ∙ (λ i. h.out i ++ same i ∷ [])
              ∙ sym (lines_from-append p key 0 (chain_genesis p) h.entries x);
          tip =
              ap (λ c. c.tip) push_line-line_of
              ∙ (λ i. chain_next p (h.tip i) (same i))
              ∙ sym (tip_after-append p key 0 (chain_genesis p) h.entries x);
          numbered =
              IsNumbered-append base 0 h.entries x h.numbered (hn (length b.out))
                (omega (arith, seq_here, place));
          headed = IsHeaded-append h.entries x h.headed;
          clean = subst IsClean (sym longer) (clean-append (events_of h.entries) e h.clean);
          replayed =
              ap (replay_from nothing) longer
              ∙ replay_from-append nothing h.restored (events_of h.entries) e h.replayed;
          items_same = refl;
          tabs_same = refl;
          deletes_none = hd;
        }

  push_item-Rebuilt :
      (it : StoredItem) (b : Built) (items : Dict Item) (tabs : List Text)
      → Rebuilt b items tabs
      → Rebuilt
          (push_items p key ticks base (it ∷ []) b)
          (set it.core.id (with_defaults it) items)
          tabs
  unfolding apply_event
  push_item-Rebuilt it b items tabs h =
      let e = item_added (base + length b.out) (ticks.now (length b.out)) it in
      let more = push_line-Rebuilt b e refl refl items tabs h refl h.deletes_none in
      subst
        (λ (m : Dict Item).
          Rebuilt (push_items p key ticks base (it ∷ []) b) (set it.core.id (with_defaults it) m)
            tabs)
        h.items_same
        (subst
          (Rebuilt (push_items p key ticks base (it ∷ []) b)
            (set it.core.id (with_defaults it) h.restored.items))
          h.tabs_same more)

  push_tab-Rebuilt :
      (tag : Text) (b : Built) (items : Dict Item) (tabs : List Text)
      → IsNamed tag
      → Rebuilt b items tabs
      → Rebuilt (push_tabs p key ticks base (tag ∷ []) b) items (insert tag tabs)
  unfolding apply_event
  push_tab-Rebuilt tag b items tabs named h =
      let e = tab_created (base + length b.out) (ticks.now (length b.out)) tag in
      let more = push_line-Rebuilt b e refl refl items tabs h named h.deletes_none in
      subst
        (λ (m : Dict Item). Rebuilt (push_tabs p key ticks base (tag ∷ []) b) m (insert tag tabs))
        h.items_same
        (subst
          (λ (ts : List Text).
            Rebuilt (push_tabs p key ticks base (tag ∷ []) b) h.restored.items (insert tag ts))
          h.tabs_same more)

  push_items-Rebuilt :
      (its : List StoredItem) (b : Built) (items : Dict Item) (tabs : List Text)
      → Rebuilt b items tabs
      → Rebuilt
          (push_items p key ticks base its b)
          (set_all (λ it. it) (map with_defaults its) items)
          tabs
  unfolding set_all
  push_items-Rebuilt [] b items tabs h = h
  push_items-Rebuilt (it ∷ its) b items tabs h =
      push_items-Rebuilt its (push_items p key ticks base (it ∷ []) b)
        (set it.core.id (with_defaults it) items) tabs (push_item-Rebuilt it b items tabs h)

  push_tabs-Rebuilt :
      (tags : List Text) (b : Built) (items : Dict Item) (tabs : List Text)
      → All IsNamed tags
      → Rebuilt b items tabs
      → Rebuilt (push_tabs p key ticks base tags b) items (add_all tabs tags)
  push_tabs-Rebuilt [] b items tabs named h = h
  push_tabs-Rebuilt (tag ∷ tags) b items tabs named h =
      push_tabs-Rebuilt tags (push_tabs p key ticks base (tag ∷ []) b) items (insert tag tabs)
        named.1 (push_tab-Rebuilt tag b items tabs named.0 h)

module _ (p : Platform) (key : Bytes) (ticks : LineTicks)
    (hn : (n : ℕ) → length (ticks.nonce n) ≡ 12) where
  abbrev empty : Built
  empty = record { out = []; tip = chain_genesis p }

  -- The generation begins with its checkpoint.
  anchor-Rebuilt :
      (before live : ℕ)
      → Rebuilt p key ticks hn
          (before + 1)
          (push_line p key ticks
            (before + 1)
            StoreEventKind.checkpoint
            (checkpoint_extra before live)
            empty)
          []
          []
  unfolding push_line replay_from apply_event
  anchor-Rebuilt before live =
      let e : StoreEvent = checkpoint (before + 1 + 0) (ticks.now 0) before live in
      record {
        entries = record { nonce = ticks.nonce 0; event = e } ∷ [];
        restored = nothing;
        out = refl;
        tip = refl;
        numbered = (hn 0, refl, tt);
        headed = refl;
        clean = tt;
        replayed = refl;
        items_same = refl;
        tabs_same = refl;
        deletes_none = refl;
      }

  -- The generation that is built restores the items, each under its id, and the tabs.
  pub build-Rebuilt :
      (before : ℕ) (keep : List StoredItem) (tabs : List Text)
      → All IsNamed tabs
      → Rebuilt p key ticks hn
          (before + 1)
          (build p key ticks before keep tabs)
          (set_all (λ it. it) (map with_defaults keep) [])
          (add_all [] tabs)
  unfolding build
  build-Rebuilt before keep tabs named =
      push_tabs-Rebuilt p key ticks hn (before + 1) tabs _ _ [] named (
        push_items-Rebuilt p key ticks hn (before + 1) keep _ [] []
          (anchor-Rebuilt before (length keep)))
