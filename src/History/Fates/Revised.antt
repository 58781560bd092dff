-- ===== src/History/Fates/Revised.antt =====
-- history.ts: what an event does to an item of a replay.
use mathlib.Core.Option
use copy_clipboard_app.Base.{
  ℕ, Text, text_eq, text_eq→eq, ◌≡◌, ◌≢◌, refl, sym, ap, subst, ◌∙◌, inl, inr, true, false, not,
  Option, none, some, List, [], ◌∷◌, arith, keep_if, if◌then◌else◌, Bool-cases, Dict, get, values,
  get-set, get-delete, set, includes, without,
}
use copy_clipboard_app.Protocol.Types.{
  Item, ItemPatch, StoreEvent, item_added, item_updated, item_deleted, tab_created, tab_deleted,
  checkpoint,
}
use copy_clipboard_app.History.State.{get_or}
use copy_clipboard_app.History.Replay.{
  Restored, apply_event, apply_patch, update_found, with_defaults, untag, untag_each,
}
use copy_clipboard_app.History.Keyed.{IsKeyed}
use copy_clipboard_app.History.Fates.{LeavesAlive, latest, revise}

pub latest_lem {ℓ} : {A : Type ℓ} (o : Option A) (old : A) → get_or o old ≡ latest o old
latest_lem none old = refl
latest_lem (some new) old = refl

without-keep_if :
    (tag : Text) (s : List Text) → without tag s ≡ keep_if (λ t. not (text_eq t tag)) s
unfolding without
without-keep_if tag [] = refl
without-keep_if tag (j ∷ s) = ground (arith, without-keep_if tag s)

without-none : (tag : Text) (s : List Text) → includes tag s ≡ false → without tag s ≡ s
unfolding without includes
without-none tag [] h = refl
without-none tag (j ∷ s) h = elim (Bool-cases (text_eq j tag)) [
  | inl e ↦ ground arith
  | inr e ↦ rw e (ap (λ s. j ∷ s) (without-none tag s (ground arith)))
]

-- An item that is in the list, by what it was, loses the tag; what another is stays.
abbrev untagged : Text → Option Item → Option Item → Option Item
untagged tag none now = now
untagged tag (some it) now = if includes tag it.tags then some (untag tag it) else now

untag_step :
    (tag id k : Text) (it : Item) (m acc : Dict Item)
    → IsKeyed ((k, it) ∷ m)
    → ((now : Dict Item)
        → get id (untag_each tag (values m) now) ≡ untagged tag (get id m) (get id now))
    → get id (
        untag_each tag
          (values m)
          (if includes tag it.tags then set it.id (untag tag it) acc else acc))
      ≡ untagged tag (if text_eq k id then some it else get id m) (get id acc)
untag_step tag id k it m acc h rest =
    let now = if includes tag it.tags then set it.id (untag tag it) acc else acc in
    rest now ∙ elim (Bool-cases (text_eq k id)) [
      | inl f ↦
          let gone : get id m ≡ none = subst (λ x. get x m ≡ none) (text_eq→eq k id f) h.1 in
          let hit : text_eq it.id id ≡ true = rw h.0 f in
          elim (Bool-cases (includes tag it.tags)) [
            | inl e ↦ rw (f, gone, e, get-set it.id id (untag tag it) acc, hit) refl
            | inr e ↦ rw (f, gone, e) refl
          ]
      | inr f ↦
          let passed : text_eq it.id id ≡ false = rw h.0 f in
          elim (Bool-cases (includes tag it.tags)) [
            | inl e ↦ rw (f, e, get-set it.id id (untag tag it) acc, passed) refl
            | inr e ↦ rw (f, e) refl
          ]
    ]

get-untag_each :
    (tag id : Text) (m acc : Dict Item)
    → IsKeyed m
    → get id (untag_each tag (values m) acc) ≡ untagged tag (get id m) (get id acc)
unfolding untag_each get
get-untag_each tag id [] acc h = refl
get-untag_each tag id ((k, it) ∷ m) acc h =
    untag_step tag id k it m acc h (λ now. get-untag_each tag id m now h.2)

-- An item that has no such tag is as it was.
untag-none : (tag : Text) (it : Item) → includes tag it.tags ≡ false → it ≡ untag tag it
untag-none tag it h =
    ap (λ (tags : List Text). record it { tags = tags }) (sym (without-none tag it.tags h))

untagged_lem :
    (tag : Text) (o : Option Item)
    → untagged tag o o
      ≡ Option.map
          (λ (it : Item). record it { tags = keep_if (λ t. not (text_eq t tag)) it.tags })
          o
untagged_lem tag none = refl
untagged_lem tag (some it) =
    let spec =
      ap (λ (tags : List Text). some (record it { tags = tags })) (without-keep_if tag it.tags) in
    elim (Bool-cases (includes tag it.tags)) [
      | inl e ↦ rw e spec
      | inr e ↦ rw e (ap (λ (it : Item). some it) (untag-none tag it e) ∙ spec)
    ]

patch_lem :
    (id : Text) (seq at : ℕ) (j : Text) (patch : ItemPatch) (it : Item)
    → text_eq j id ≡ true
    → apply_patch it patch ≡ revise id (item_updated seq at j patch) it
patch_lem id seq at j patch it h =
    rw
      (
        h,
        latest_lem patch.pinned it.pinned,
        latest_lem patch.expires_at it.expires_at,
        latest_lem patch.title it.title,
        latest_lem patch.tags it.tags,
      )
      refl

unequal : (j id : Text) → j ≢ id → text_eq j id ≡ false
unequal j id n = elim (Bool-cases (text_eq j id)) [
  | inl e ↦ absurd (n (text_eq→eq j id e))
  | inr e ↦ e
]

kept : (f : Item → Item) → ((it : Item) → it ≡ f it) → (o : Option Item) → o ≡ Option.map f o
kept f h none = refl
kept f h (some it) = ap some (h it)

update_found-ord :
    (j : Text) (patch : ItemPatch) (o : Option Item) (r : Restored)
    → (update_found j patch o r).ord ≡ r.ord
update_found-ord j patch none r = refl
update_found-ord j patch (some cur) r = refl

update_found-revise :
    (id : Text) (seq at : ℕ) (j : Text) (patch : ItemPatch) (r : Restored) (o : Option Item)
    → get j r.items ≡ o
    → get id (update_found j patch o r).items
      ≡ Option.map (revise id (item_updated seq at j patch)) (get id r.items)
update_found-revise id seq at j patch r none e = elim (Bool-cases (text_eq j id)) [
  | inl f ↦
      let gone : get id r.items ≡ none = subst (λ x. get x r.items ≡ none) (text_eq→eq j id f) e in
      rw gone refl
  | inr f ↦ kept (revise id (item_updated seq at j patch)) (λ it. rw f refl) (get id r.items)
]
update_found-revise id seq at j patch r (some cur) e = elim (Bool-cases (text_eq j id)) [
  | inl f ↦
      let here : get id r.items ≡ some cur =
        subst (λ x. get x r.items ≡ some cur) (text_eq→eq j id f) e in
      get-set j id (apply_patch cur patch) r.items
      ∙ rw (here, f) (ap (λ (it : Item). some it) (rw (patch_lem id seq at j patch cur f, f) refl))
  | inr f ↦
      get-set j id (apply_patch cur patch) r.items
      ∙ rw f (kept (revise id (item_updated seq at j patch)) (λ it. rw f refl) (get id r.items))
]

-- An event that neither adds nor deletes the item revises it, and leaves its number.
pub apply_event-revise :
    (id : Text) (r : Restored) (e : StoreEvent)
    → IsKeyed r.items
    → LeavesAlive id e
    → (get id (apply_event r e).items ≡ Option.map (revise id e) (get id r.items))
      × (get id (apply_event r e).ord ≡ get id r.ord)
unfolding apply_event
apply_event-revise id r (item_added seq at s) w n =
    let apart = unequal s.core.id id n in
    (
      rw (get-set s.core.id id (with_defaults s) r.items, apart)
          (kept _ (λ it. refl) (get id r.items)),
      rw (get-set s.core.id id seq r.ord, apart) refl,
    )
apply_event-revise id r (item_deleted seq at j reason) w n =
    let apart = unequal j id n in
    (
      rw (get-delete j id r.items, apart) (kept _ (λ it. refl) (get id r.items)),
      rw (get-delete j id r.ord, apart) refl,
    )
apply_event-revise id r (item_updated seq at j patch) w n = (
  update_found-revise id seq at j patch r (get j r.items) refl,
  ap (get id) (update_found-ord j patch (get j r.items) r),
)
apply_event-revise id r (tab_created seq at tag) w n = (kept _ (λ it. refl) (get id r.items), refl)
apply_event-revise id r (tab_deleted seq at tag) w n =
    (get-untag_each tag id r.items r.items w ∙ untagged_lem tag (get id r.items), refl)
apply_event-revise id r (checkpoint seq at max_seq live) w n =
    (kept _ (λ it. refl) (get id r.items), refl)
