-- ===== src/History/Synced.antt =====
-- The state in memory agrees with the log: what a replay of the log would restore is what is there,
-- with the previews scrubbed if they are evicted.
pub mod Updates
pub mod Tabs
pub mod Ingest
pub mod Removal
pub mod Load
pub mod Restart
pub mod Runs
pub mod Previews
use copy_clipboard_app.Base.{
  ℕ, Text, ◌≡◌, refl, sym, ap, ◌∙◌, subst, Bool, true, false, inl, inr, Option, none, some, List,
  [], ◌∷◌, ◌++◌, arith, if◌then◌else◌, Bool-cases, Option-cases, Dict, get, set, delete, map_values,
  get-map_values, set-map_values, delete-map_values, insert, without,
}
use mathlib.Core.Option
use copy_clipboard_app.Protocol.Result.{Result, ErrorCode, ok, err}
use copy_clipboard_app.Protocol.Types.{Item, ItemPatch, StoreEvent}
use copy_clipboard_app.History.Ports.{
  Port, StoreEventInput, IsLog, IsRecordable, IsClean, stamp, item_updated, ChangeReason,
}
use copy_clipboard_app.History.State.{State, shown, scrub_preview, remember, reindex, emit, append}
use copy_clipboard_app.History.Replay.{
  Restored, nothing, apply_event, apply_patch, update_found, replay, replay_from,
}
use copy_clipboard_app.History.Replayed.{replay-IsWellFormed}
use copy_clipboard_app.History.Updates.{patch_item, when_appended, settle}
use copy_clipboard_app.History.Keyed.{IsKeyed, set-IsKeyed, id-get}

-- `r` is what the log restores, and what is in memory.
pub record Agrees (port : Port) (st : State port) (r : Restored) : Type 0 where
  pub log : replay (port.read_all st.store) ≡ ok r
  pub items : st.items ≡ map_values (shown st.previews_loaded) r.items
  pub tabs : st.explicit_tabs ≡ r.tabs
  pub ord : st.ord ≡ r.ord

abbrev pub Synced : {port : Port} → State port → Type 0
Synced {port} st = (r : Restored) × Agrees port st r

pub replay_from-append :
    (s r : Restored) (recs : List (Result StoreEvent)) (e : StoreEvent)
    → replay_from s recs ≡ ok r
    → replay_from s (recs ++ ok e ∷ []) ≡ ok (apply_event r e)
unfolding replay_from
replay_from-append s r [] e h = cc
replay_from-append s r (err c ∷ recs) e h = cc
replay_from-append s r (ok ev ∷ recs) e h = replay_from-append (apply_event s ev) r recs e h

pub replay_from-IsClean :
    (s r : Restored) (recs : List (Result StoreEvent)) → replay_from s recs ≡ ok r → IsClean recs
unfolding replay_from
replay_from-IsClean s r [] h = tt
replay_from-IsClean s r (err c ∷ recs) h = cc
replay_from-IsClean s r (ok ev ∷ recs) h = replay_from-IsClean (apply_event s ev) r recs h

module _ {port : Port} (contract : IsLog port) where
  -- The two ends of an append, by what the log then restores.
  pub append_cases :
      {X : Type 0} (input : StoreEventInput)
      → IsRecordable input
      → (st : State port) (r : Restored) → replay (port.read_all st.store) ≡ ok r
      → (k : Result StoreEvent × State port → X) (Q : X → Type 0)
      → ((c : ErrorCode) (s : port.Store)
          → replay (port.read_all s) ≡ ok r
          → Q (k (err c, record st { store = s })))
      → ((seq at : ℕ) (s : port.Store)
          → replay (port.read_all s) ≡ ok (apply_event r (stamp seq at input))
          → Q (k (ok (stamp seq at input), record st { store = s })))
      → Q (k (append input st))
  unfolding append replay
  append_cases {X} input recordable st r log k Q refused appended =
      go (port.append_event input st.store).0 refl
    where
      next : port.Store
      next = (port.append_event input st.store).1

      go :
          (q : Result StoreEvent)
          → (port.append_event input st.store).0 ≡ q
          → Q (k (append input st))
      go (err c) e =
          subst (λ q. Q (k (q, record st { store = next }))) (sym e)
            (refused c next (rw (contract.refused input st.store c e) log))
      go (ok ev) e =
          let (seq, at, stamped, longer) =
            contract.appended input st.store ev recordable
              (replay_from-IsClean nothing r (port.read_all st.store) log) e in
          subst (λ q. Q (k (q, record st { store = next }))) (sym (e ∙ ap ok stamped))
            (appended seq at next (
              rw longer (
                subst
                  (λ w.
                    replay_from nothing (port.read_all st.store ++ ok ev ∷ [])
                    ≡ ok (apply_event r w))
                  stamped (replay_from-append nothing r (port.read_all st.store) ev log))))

pub shown-id : (loaded : Bool) (it : Item) → (shown loaded it).id ≡ it.id
unfolding scrub_preview
shown-id true it = refl
shown-id false it = refl

shown-apply_patch :
    (loaded : Bool) (it : Item) (patch : ItemPatch)
    → shown loaded (apply_patch (shown loaded it) patch) ≡ shown loaded (apply_patch it patch)
unfolding scrub_preview
shown-apply_patch true it patch = refl
shown-apply_patch false it patch = refl

module _ {port : Port} {st : State port} {r : Restored} (a : Agrees port st r) where
  -- The restored form of an item that is in memory.
  pub restored_item :
      (id : Text) (it : Item)
      → get id st.items ≡ some it
      → (cur : Item) × (get id r.items ≡ some cur) × (it ≡ shown st.previews_loaded cur)
  restored_item id it e = go (get id r.items) refl
    where
      both : some it ≡ Option.map (shown st.previews_loaded) (get id r.items)
      both = sym e ∙ ap (get id) a.items ∙ get-map_values (shown st.previews_loaded) id r.items

      go :
          (o : Option Item)
          → get id r.items ≡ o
          → (cur : Item) × (get id r.items ≡ some cur) × (it ≡ shown st.previews_loaded cur)
      go none f = cc (both, ap (Option.map (shown st.previews_loaded)) f)
      go (some cur) f =
          let same : some it ≡ some (shown st.previews_loaded cur) =
            both ∙ ap (Option.map (shown st.previews_loaded)) f in
          (cur, f, cc)

  pub with_store :
      (s : port.Store) → replay (port.read_all s) ≡ ok r → Agrees port (record st { store = s }) r
  with_store s log = record { log = log; items = a.items; tabs = a.tabs; ord = a.ord }

-- An item put in, in memory and in what the log restores.
pub set-shown :
    (loaded : Bool) (k j : Text) (new restored : Item) (items kept : Dict Item)
    → k ≡ j
    → shown loaded new ≡ shown loaded restored
    → items ≡ map_values (shown loaded) kept
    → set k (shown loaded new) items ≡ map_values (shown loaded) (set j restored kept)
set-shown loaded k j new restored items kept e f g =
    cc (e, f, g, set-map_values (shown loaded) j restored kept)

apply_update :
    (r : Restored) (seq at : ℕ) (id : Text) (patch : ItemPatch) (cur : Item)
    → get id r.items ≡ some cur
    → apply_event r (StoreEvent.item_updated seq at id patch)
      ≡ record r { items = set id (apply_patch cur patch) r.items }
unfolding apply_event
apply_update r seq at id patch cur e = ap (λ o. update_found id patch o r) e

module _ {port : Port} where
  -- After the record of a patch, the patched item in memory.
  pub patched-Synced :
      (id : Text) (it : Item) (patch : ItemPatch) (st : State port) (r : Restored) (seq at : ℕ)
      (s : port.Store)
      → Agrees port st r
      → get id st.items ≡ some it
      → replay (port.read_all s) ≡ ok (apply_event r (StoreEvent.item_updated seq at id patch))
      → Synced (
          let next = apply_patch it patch in
          emit ChangeReason.update (reindex next (remember next (record st { store = s }))))
  unfolding remember reindex emit
  patched-Synced id it patch st r seq at s a e log =
      let (cur, there, same) = restored_item a id it e in
      let named : cur.id ≡ id =
        id-get id r.items cur (replay-IsWellFormed (port.read_all st.store) r a.log).keyed there in
      (
        record r { items = set id (apply_patch cur patch) r.items },
        record {
          log = log ∙ ap ok (apply_update r seq at id patch cur there);
          items =
              set-shown st.previews_loaded it.id id (apply_patch it patch) (apply_patch cur patch)
                st.items r.items
                (ap (λ (w : Item). w.id) same ∙ shown-id st.previews_loaded cur ∙ named)
                (ap (λ w. shown st.previews_loaded (apply_patch w patch)) same
                  ∙ shown-apply_patch st.previews_loaded cur patch)
                a.items;
          tabs = a.tabs;
          ord = a.ord;
        },
      )

module _ {port : Port} (contract : IsLog port) where
  -- A patch of an item that is there, in memory and in the log, or in neither.
  pub patch_item-Synced :
      {A : Type 0} (id : Text) (it : Item) (patch : ItemPatch) (answer : A) (st : State port)
      → Synced st
      → get id st.items ≡ some it
      → Synced (patch_item id it patch answer st).1
  unfolding patch_item
  patch_item-Synced id it patch answer st (r, a) e =
      append_cases contract (item_updated id patch) tt st r a.log
        (when_appended (settle (apply_patch it patch) answer)) (λ x. Synced x.1)
        (λ c s log. (r, with_store a s log))
        (λ seq at s log. patched-Synced id it patch st r seq at s a e log)

-- Agreement, the log aside.
pub record Shows (port : Port) (st : State port) (r : Restored) : Type 0 where
  pub items : st.items ≡ map_values (shown st.previews_loaded) r.items
  pub tabs : st.explicit_tabs ≡ r.tabs
  pub ord : st.ord ≡ r.ord

pub shows : {port : Port} {st : State port} {r : Restored} → Agrees port st r → Shows port st r
shows a = record { items = a.items; tabs = a.tabs; ord = a.ord }

pub agrees :
    {port : Port} {st : State port} {r : Restored}
    → replay (port.read_all st.store) ≡ ok r
    → Shows port st r
    → Agrees port st r
agrees log s = record { log = log; items = s.items; tabs = s.tabs; ord = s.ord }

pub emit-Agrees :
    {port : Port} (reason : ChangeReason) (st : State port) (r : Restored)
    → Agrees port st r
    → Agrees port (emit reason st) r
unfolding emit
emit-Agrees reason st r a = record { log = a.log; items = a.items; tabs = a.tabs; ord = a.ord }
