-- ===== src/History/Fates/Rebuilt.antt =====
-- history.ts: `replay` restores each item and each tab by the events that concern it.
use mathlib.Core.Option
use mathlib.Core.List.{append_assoc, append-nil}
use copy_clipboard_app.Base.{
  Text, text_eq, text_eq→eq, text_eq_refl, ◌≡◌, ◌≢◌, refl, sym, ap, subst, ◌∙◌, inl, inr, false,
  Option, none, some, List, [], ◌∷◌, ◌++◌, map, All-append, Bool-cases, get, get-set, get-delete,
  includes, includes-insert, includes-without,
}
use copy_clipboard_app.Protocol.Result.{Result, ErrorCode, ok, err}
use copy_clipboard_app.Protocol.Types.{
  Item, StoredItem, ItemPatch, StoreEvent, item_added, item_updated, item_deleted, tab_created,
  tab_deleted, checkpoint,
}
use copy_clipboard_app.History.Replay.{
  Restored, nothing, apply_event, update_found, with_defaults, replay, replay_from,
}
use copy_clipboard_app.History.Keyed.{IsKeyed}
use copy_clipboard_app.History.Replayed.{IsWellFormed, apply_event-IsWellFormed}
use copy_clipboard_app.History.Fates.{
  NeverAdds, LeavesAlive, initial, revise, revise_all, is_tab_from, IsAbsent, IsFate, IsReplay,
}
use copy_clipboard_app.History.Fates.Revised.{latest_lem, apply_event-revise}

LeavesAlive-NeverAdds : (id : Text) (e : StoreEvent) → LeavesAlive id e → NeverAdds id e
LeavesAlive-NeverAdds id (item_added seq at s) n = n
LeavesAlive-NeverAdds id (item_deleted seq at j reason) n = tt
LeavesAlive-NeverAdds id (item_updated seq at j patch) n = tt
LeavesAlive-NeverAdds id (tab_created seq at tag) n = tt
LeavesAlive-NeverAdds id (tab_deleted seq at tag) n = tt
LeavesAlive-NeverAdds id (checkpoint seq at max_seq live) n = tt

revise_all-snoc :
    (id : Text) (es : List StoreEvent) (e : StoreEvent) (it : Item)
    → revise_all id (es ++ e ∷ []) it ≡ revise id e (revise_all id es it)
revise_all-snoc id [] e it = refl
revise_all-snoc id (d ∷ es) e it = revise_all-snoc id es e (revise id d it)

later :
    (events before after : List StoreEvent) (d e : StoreEvent)
    → events ≡ before ++ d ∷ after
    → events ++ e ∷ [] ≡ before ++ d ∷ (after ++ e ∷ [])
later events before after d e h = ap (λ l. l ++ e ∷ []) h ∙ append_assoc before (d ∷ after) (e ∷ [])

-- A further event that neither adds nor deletes the item revises it.
further :
    (id : Text) (events : List StoreEvent) (r : Restored) (e : StoreEvent)
    → IsKeyed r.items
    → LeavesAlive id e
    → IsFate id events r
    → IsFate id (events ++ e ∷ []) (apply_event r e)
further id events r e w n fate =
    let (items, ord) = apply_event-revise id r e w n in
    let still : IsAbsent id r → IsAbsent id (apply_event r e) =
      λ a. (items ∙ ap (Option.map (revise id e)) a.0, ord ∙ a.1) in
    let never = LeavesAlive-NeverAdds id e n in
    elim fate [
      | inl a ↦ inl (All-append (NeverAdds id) events (e ∷ []) a.0 (never, tt), still a.1)
      | inr (inl d) ↦ inr (
          inl (
            record {
              before = d.0.before;
              after = d.0.after ++ e ∷ [];
              seq = d.0.seq;
              at = d.0.at;
              reason = d.0.reason;
              split = later events d.0.before d.0.after _ e d.0.split;
              final = All-append (NeverAdds id) d.0.after (e ∷ []) d.0.final (never, tt);
            },
            still d.1,
          ))
      | inr (inr l) ↦ inr (
          inr (record {
            before = l.before;
            after = l.after ++ e ∷ [];
            seq = l.seq;
            at = l.at;
            added = l.added;
            split = later events l.before l.after _ e l.split;
            named = l.named;
            alive = All-append (LeavesAlive id) l.after (e ∷ []) l.alive (n, tt);
            restored =
                items
                ∙ ap (Option.map (revise id e)) l.restored
                ∙ ap some (sym (revise_all-snoc id l.after e (initial l.added)));
            numbered = ord ∙ l.numbered;
          }))
    ]

defaults_lem : (s : StoredItem) → with_defaults s ≡ initial s
defaults_lem s = rw (latest_lem s.title none, latest_lem s.tags []) refl

differs : (j id : Text) → text_eq j id ≡ false → j ≢ id
differs j id f d = cc (f, sym (text_eq_refl id), ap (λ k. text_eq k id) d)

apply_event-IsFate :
    (id : Text) (events : List StoreEvent) (r : Restored) (e : StoreEvent)
    → IsKeyed r.items
    → IsFate id events r
    → IsFate id (events ++ e ∷ []) (apply_event r e)
unfolding apply_event
apply_event-IsFate id events r (item_added seq at s) w fate =
    elim (Bool-cases (text_eq s.core.id id)) [
      | inl f ↦ inr (
          inr (record {
            before = events;
            after = [];
            seq = seq;
            at = at;
            added = s;
            split = refl;
            named = text_eq→eq s.core.id id f;
            alive = tt;
            restored =
                get-set s.core.id id (with_defaults s) r.items ∙ rw f (ap some (defaults_lem s));
            numbered = get-set s.core.id id seq r.ord ∙ rw f refl;
          }))
      | inr f ↦ further id events r (item_added seq at s) w (differs s.core.id id f) fate
    ]
apply_event-IsFate id events r (item_deleted seq at j reason) w fate =
    elim (Bool-cases (text_eq j id)) [
      | inl f ↦ inr (
          inl (
            record {
              before = events;
              after = [];
              seq = seq;
              at = at;
              reason = reason;
              split = ap (λ k. events ++ item_deleted seq at k reason ∷ []) (text_eq→eq j id f);
              final = tt;
            },
            (get-delete j id r.items ∙ rw f refl, get-delete j id r.ord ∙ rw f refl),
          ))
      | inr f ↦ further id events r (item_deleted seq at j reason) w (differs j id f) fate
    ]
apply_event-IsFate id events r (item_updated seq at j patch) w fate =
    further id events r (item_updated seq at j patch) w tt fate
apply_event-IsFate id events r (tab_created seq at tag) w fate =
    further id events r (tab_created seq at tag) w tt fate
apply_event-IsFate id events r (tab_deleted seq at tag) w fate =
    further id events r (tab_deleted seq at tag) w tt fate
apply_event-IsFate id events r (checkpoint seq at max_seq live) w fate =
    further id events r (checkpoint seq at max_seq live) w tt fate

update_found-tabs :
    (j : Text) (patch : ItemPatch) (o : Option Item) (r : Restored)
    → (update_found j patch o r).tabs ≡ r.tabs
update_found-tabs j patch none r = refl
update_found-tabs j patch (some cur) r = refl

-- The tabs after an event are those from which the rest goes on.
apply_event-tabs :
    (tag : Text) (r : Restored) (e : StoreEvent) (es : List StoreEvent)
    → is_tab_from (includes tag (apply_event r e).tabs) tag es
      ≡ is_tab_from (includes tag r.tabs) tag (e ∷ es)
unfolding apply_event
apply_event-tabs tag r (item_added seq at s) es = refl
apply_event-tabs tag r (item_deleted seq at j reason) es = refl
apply_event-tabs tag r (item_updated seq at j patch) es =
    ap (λ tabs. is_tab_from (includes tag tabs) tag es)
      (update_found-tabs j patch (get j r.items) r)
apply_event-tabs tag r (tab_created seq at t) es =
    ap (λ b. is_tab_from b tag es) (includes-insert t tag r.tabs)
apply_event-tabs tag r (tab_deleted seq at t) es =
    ap (λ b. is_tab_from b tag es) (includes-without t tag r.tabs)
apply_event-tabs tag r (checkpoint seq at max_seq live) es = refl

-- What a replay restores that goes on from `r`, after the events `past`.
abbrev Restores : List StoreEvent → List StoreEvent → Restored → Result Restored → Type 0
Restores past events r (err c) = ⊥
Restores past events r (ok out) =
    ((id : Text) → IsFate id (past ++ events) out)
    × ((tag : Text) → includes tag out.tabs ≡ is_tab_from (includes tag r.tabs) tag events)

Restores-next :
    (past events : List StoreEvent) (e : StoreEvent) (r : Restored) (q : Result Restored)
    → Restores (past ++ e ∷ []) events (apply_event r e) q
    → Restores past (e ∷ events) r q
Restores-next past events e r (err c) h = h
Restores-next past events e r (ok out) h = (
  λ id. subst (λ l. IsFate id l out) (append_assoc past (e ∷ []) events) (h.0 id),
  λ tag. h.1 tag ∙ apply_event-tabs tag r e events,
)

replay_from-Restores :
    (past events : List StoreEvent) (r : Restored)
    → IsWellFormed r
    → ((id : Text) → IsFate id past r)
    → Restores past events r (replay_from r (map ok events))
unfolding replay_from
replay_from-Restores past [] r w fates =
    (λ id. subst (λ l. IsFate id l r) (sym (append-nil past)) (fates id), λ tag. refl)
replay_from-Restores past (e ∷ events) r w fates =
    Restores-next past events e r (replay_from (apply_event r e) (map ok events)) (
      replay_from-Restores (past ++ e ∷ []) events (apply_event r e)
        (apply_event-IsWellFormed r e w) (λ id. apply_event-IsFate id past r e w.keyed (fates id)))

replay_from-unreadable :
    (events : List StoreEvent) (c : ErrorCode) (rest : List (Result StoreEvent)) (r : Restored)
    → replay_from r (map ok events ++ err c ∷ rest) ≡ err c
unfolding replay_from
replay_from-unreadable [] c rest r = refl
replay_from-unreadable (e ∷ events) c rest r =
    replay_from-unreadable events c rest (apply_event r e)

Restores-IsReplay :
    (events : List StoreEvent) (q : Result Restored)
    → Restores [] events nothing q
    → IsReplay events q
unfolding includes
Restores-IsReplay events (err c) h = h
Restores-IsReplay events (ok r) h = h

-- The replay of a log whose records can all be read succeeds, and says of every id, by the events that
-- concern it alone: an id that no event adds, or that the last event to add or delete it deletes, has
-- neither an item nor a number; any other has the number of the event that last added it, and the item
-- that this event added, changed by the patches of this id and the deletions of tabs that came after,
-- in their order, and by no other event. A tab is explicit exactly if the last event on it creates it.
-- A replay that comes to a record that cannot be read answers the error of the first such record.
pub replay_lem :
    (events : List StoreEvent) (c : ErrorCode) (rest : List (Result StoreEvent))
    → IsReplay events (replay (map ok events)) × (replay (map ok events ++ err c ∷ rest) ≡ err c)
unfolding replay get
replay_lem events c rest = (
  Restores-IsReplay events (replay_from nothing (map ok events)) (
      replay_from-Restores [] events nothing (record { keyed = tt; numbered = tt; distinct = tt })
        (λ id. inl (tt, (refl, refl)))),
  replay_from-unreadable events c rest nothing,
)
