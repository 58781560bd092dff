-- ===== src/History/Replayed.antt =====
-- What a replay restores is well formed: items under their own ids, no id, order or tab twice.
use copy_clipboard_app.Base.{
  Text, ◌≡◌, refl, subst, inl, inr, List, [], ◌∷◌, Bool-cases, Option-cases, Dict, get, values,
  includes, IsMap, set-IsMap, delete-IsMap, NoRepeats, insert-NoRepeats, without-NoRepeats,
}
use copy_clipboard_app.Protocol.Result.{Result, ok, err}
use copy_clipboard_app.Protocol.Types.{
  Item, StoreEvent, item_added, item_updated, item_deleted, tab_created, tab_deleted, checkpoint,
}
use copy_clipboard_app.History.Replay.{
  Restored, nothing, apply_event, apply_patch, untag, untag_each, replay, replay_from,
}
use copy_clipboard_app.History.Keyed.{IsKeyed, set-IsKeyed, delete-IsKeyed, id-get}

pub record IsWellFormed (r : Restored) : Type 0 where
  pub keyed : IsKeyed r.items
  pub numbered : IsMap r.ord
  pub distinct : NoRepeats r.tabs

untag_each-IsKeyed :
    (tag : Text) (its : List Item) (m : Dict Item) → IsKeyed m → IsKeyed (untag_each tag its m)
unfolding untag_each
untag_each-IsKeyed tag [] m h = h
untag_each-IsKeyed tag (it ∷ its) m h = elim (Bool-cases (includes tag it.tags)) [
  | inl e ↦ rw e (untag_each-IsKeyed tag its _ (set-IsKeyed it.id (untag tag it) m refl h))
  | inr e ↦ rw e (untag_each-IsKeyed tag its m h)
]

pub apply_event-IsWellFormed :
    (r : Restored) (e : StoreEvent) → IsWellFormed r → IsWellFormed (apply_event r e)
unfolding apply_event
apply_event-IsWellFormed r (item_added seq at item) w = record {
  keyed = set-IsKeyed item.core.id _ r.items refl w.keyed;
  numbered = set-IsMap item.core.id seq r.ord w.numbered;
  distinct = w.distinct;
}
apply_event-IsWellFormed r (item_updated seq at id patch) w = elim (Option-cases (get id r.items)) [
  | inl e ↦ rw e w
  | inr (cur, e) ↦ rw e (record {
    keyed =
        set-IsKeyed id (apply_patch cur patch) r.items (id-get id r.items cur w.keyed e) w.keyed;
    numbered = w.numbered;
    distinct = w.distinct;
  })
]
apply_event-IsWellFormed r (item_deleted seq at id reason) w = record {
  keyed = delete-IsKeyed id r.items w.keyed;
  numbered = delete-IsMap id r.ord w.numbered;
  distinct = w.distinct;
}
apply_event-IsWellFormed r (tab_created seq at tag) w = record {
  keyed = w.keyed;
  numbered = w.numbered;
  distinct = insert-NoRepeats tag r.tabs w.distinct;
}
apply_event-IsWellFormed r (tab_deleted seq at tag) w = record {
  keyed = untag_each-IsKeyed tag (values r.items) r.items w.keyed;
  numbered = w.numbered;
  distinct = without-NoRepeats tag r.tabs w.distinct;
}
apply_event-IsWellFormed r (checkpoint seq at max_seq live) w = w

replay_from-IsWellFormed :
    (recs : List (Result StoreEvent)) (s r : Restored)
    → IsWellFormed s
    → replay_from s recs ≡ ok r
    → IsWellFormed r
unfolding replay_from
replay_from-IsWellFormed [] s r w h = let same : s ≡ r = cc in subst IsWellFormed same w
replay_from-IsWellFormed (err c ∷ recs) s r w h = cc
replay_from-IsWellFormed (ok e ∷ recs) s r w h =
    replay_from-IsWellFormed recs (apply_event s e) r (apply_event-IsWellFormed s e w) h

-- Whatever records a log holds, in whatever order, what their replay restores is well formed.
pub replay-IsWellFormed :
    (recs : List (Result StoreEvent)) (r : Restored) → replay recs ≡ ok r → IsWellFormed r
unfolding replay
replay-IsWellFormed recs r h =
    replay_from-IsWellFormed recs nothing r (record { keyed = tt; numbered = tt; distinct = tt }) h
