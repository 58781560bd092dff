-- ===== src/Store/Replays.antt =====
-- packages/store/src/log-store.ts: the replay in `compact` restores what the replay of the history does.
use copy_clipboard_app.Base.{
  ℕ, suc, ◌+◌, ◌≡◌, refl, sym, ap, ◌∙◌, Text, text_eq, text_eq_refl, Bool, true, Option, none, some,
  List, [], ◌∷◌, length, arith, inl, inr, if◌then◌else◌, Bool-cases, Option-cases, Dict, get, set,
  delete, values, includes, insert, without, ltb, All, All-append, map_values, get-map_values,
  set-map_values, delete-map_values, map,
}
use copy_clipboard_app.Protocol.Types.{
  Bytes, StoredItem, ItemPatch, StoreEvent, item_added, item_updated, item_deleted, tab_created,
  tab_deleted, checkpoint,
}
use copy_clipboard_app.Protocol.Result.{ok}
use copy_clipboard_app.History.Ports.{IsClean}
use copy_clipboard_app.History.State.{get_or}
use copy_clipboard_app.History.Replay.{
  Restored, apply_event, apply_patch, update_found, with_defaults, untag, untag_each, replay_from,
}
use copy_clipboard_app.Store.Platform.{Platform, IsPlatform, is_hash}
use copy_clipboard_app.Store.Chain.{chain_next, check_link}
use copy_clipboard_app.Store.Payload.{payload_with}
use copy_clipboard_app.Store.Log.{aad_seq}
use copy_clipboard_app.Store.Kinds.{open_any-sealed}
use copy_clipboard_app.Store.Events.{
  seq_of, time_of, kind_of, extra_of, is_readable, to_store_event-payload, line_of,
  decode_payload-stringify,
}
use copy_clipboard_app.Store.Written.{Entry, IsNumbered, events_of, lines_from}
use copy_clipboard_app.Store.Compact.{
  Live, apply_live, patch_stored, patch_found, carries, untag_stored, untag_all, live_line,
  live_from,
}

-- The replay over entries that can be read.
abbrev pub live_all : Live → List Entry → Live
live_all r [] = r
live_all r (x ∷ xs) = live_all (apply_live r x.event) xs

abbrev pub restored_all : Restored → List Entry → Restored
restored_all r [] = r
restored_all r (x ∷ xs) = restored_all (apply_event r x.event) xs

pub replay_from-events_of :
    (r : Restored) (xs : List Entry)
    → IsClean (events_of xs)
    → replay_from r (events_of xs) ≡ ok (restored_all r xs)
unfolding replay_from
replay_from-events_of r [] c = refl
replay_from-events_of r (x ∷ xs) c = elim (Bool-cases (is_readable x.event)) [
  | inl e ↦ rw e (replay_from-events_of (apply_event r x.event) xs (rw e at c))
  | inr e ↦ absurd (rw e at c)
]

-- What the history keeps is what the compaction keeps, with defaults for old records.
pub record Mirrors (l : Live) (r : Restored) : Type 0 where
  pub items : r.items ≡ map_values with_defaults l.items
  pub tabs : r.tabs ≡ l.tabs

with_defaults-patch :
    (it : StoredItem) (patch : ItemPatch)
    → with_defaults (patch_stored it patch) ≡ apply_patch (with_defaults it) patch
with_defaults-patch it patch = ground arith

carries-includes :
    (tag : Text) (tags : Option (List Text)) → carries tag tags ≡ includes tag (get_or tags [])
unfolding includes
carries-includes tag none = refl
carries-includes tag (some tags) = refl

values-map_values :
    (m : Dict StoredItem) → values (map_values with_defaults m) ≡ map with_defaults (values m)
values-map_values [] = refl
values-map_values ((k, it) ∷ m) = ap (λ its. with_defaults it ∷ its) (values-map_values m)

untag_all-Mirrors :
    (tag : Text) (its : List StoredItem) (m : Dict StoredItem)
    → untag_each tag (map with_defaults its) (map_values with_defaults m)
      ≡ map_values with_defaults (untag_all tag its m)
unfolding untag_each untag_all
untag_all-Mirrors tag [] m = refl
untag_all-Mirrors tag (it ∷ its) m =
    let left = λ (b : Bool). untag_each tag (map with_defaults its) (
      if b
      then set it.core.id (untag tag (with_defaults it)) (map_values with_defaults m)
      else map_values with_defaults m) in
    let right = λ (b : Bool).
      map_values with_defaults
        (untag_all tag its (if b then set it.core.id (untag_stored tag it) m else m)) in
    elim (Bool-cases (includes tag (get_or it.tags []))) [
      | inl e ↦
          ap left e
          ∙ ap (untag_each tag (map with_defaults its))
              (set-map_values with_defaults it.core.id (untag_stored tag it) m)
          ∙ untag_all-Mirrors tag its (set it.core.id (untag_stored tag it) m)
          ∙ ap right (sym (carries-includes tag it.tags ∙ e))
      | inr e ↦
          ap left e
          ∙ untag_all-Mirrors tag its m
          ∙ ap right (sym (carries-includes tag it.tags ∙ e))
    ]

patch_found-Mirrors :
    (id : Text) (patch : ItemPatch) (l : Live) (r : Restored)
    → Mirrors l r
    → Mirrors
        (record l { items = patch_found id patch (get id l.items) l.items })
        (update_found id patch (get id r.items) r)
patch_found-Mirrors id patch l r h =
    let found = ap (get id) h.items ∙ get-map_values with_defaults id l.items in
    elim (Option-cases (get id l.items)) [
      | inl e ↦ rw (found, e) h
      | inr (it, e) ↦
          rw (found, e)
            (record {
              items =
                  ap (set id (apply_patch (with_defaults it) patch)) h.items
                  ∙ ap (λ v. set id v (map_values with_defaults l.items))
                      (sym (with_defaults-patch it patch))
                  ∙ set-map_values with_defaults id (patch_stored it patch) l.items;
              tabs = h.tabs;
            })
    ]

pub apply-Mirrors :
    (e : StoreEvent) (l : Live) (r : Restored)
    → Mirrors l r
    → Mirrors (apply_live l e) (apply_event r e)
unfolding apply_live apply_event
apply-Mirrors (item_added seq at item) l r h = record {
  items =
      ap (set item.core.id (with_defaults item)) h.items
      ∙ set-map_values with_defaults item.core.id item l.items;
  tabs = h.tabs;
}
apply-Mirrors (item_updated seq at id patch) l r h = patch_found-Mirrors id patch l r h
apply-Mirrors (item_deleted seq at id reason) l r h = record {
  items = ap (delete id) h.items ∙ delete-map_values with_defaults id l.items;
  tabs = h.tabs;
}
apply-Mirrors (tab_created seq at tag) l r h = record {
  items = h.items;
  tabs = ap (insert tag) h.tabs;
}
apply-Mirrors (tab_deleted seq at tag) l r h = record {
  items =
      (λ i. untag_each tag (values (h.items i)) (h.items i))
      ∙ ap (λ its. untag_each tag its (map_values with_defaults l.items))
          (values-map_values l.items)
      ∙ untag_all-Mirrors tag (values l.items) l.items;
  tabs = ap (without tag) h.tabs;
}
apply-Mirrors (checkpoint seq at max_seq live) l r h = h

pub all-Mirrors :
    (xs : List Entry) (l : Live) (r : Restored)
    → Mirrors l r
    → Mirrors (live_all l xs) (restored_all r xs)
all-Mirrors [] l r h = h
all-Mirrors (x ∷ xs) l r h = all-Mirrors xs _ _ (apply-Mirrors x.event l r h)

-- A tab that can be read has a name.
abbrev pub IsNamed : Text → Type 0
IsNamed tag = ltb 0 (length tag) ≡ true

without-IsNamed : (k : Text) (s : List Text) → All IsNamed s → All IsNamed (without k s)
unfolding without
without-IsNamed k [] h = tt
without-IsNamed k (j ∷ s) h = elim (Bool-cases (text_eq j k)) [
  | inl e ↦ rw e (without-IsNamed k s h.1)
  | inr e ↦ rw e (h.0, without-IsNamed k s h.1)
]

insert-IsNamed : (k : Text) (s : List Text) → IsNamed k → All IsNamed s → All IsNamed (insert k s)
unfolding insert
insert-IsNamed k s hk h = elim (Bool-cases (includes k s)) [
  | inl e ↦ rw e h
  | inr e ↦ rw e (All-append IsNamed s (k ∷ []) h (hk, tt))
]

apply_live-IsNamed :
    (e : StoreEvent) (l : Live)
    → is_readable e ≡ true
    → All IsNamed l.tabs
    → All IsNamed (apply_live l e).tabs
unfolding apply_live
apply_live-IsNamed (item_added seq at item) l y h = h
apply_live-IsNamed (item_updated seq at id patch) l y h = h
apply_live-IsNamed (item_deleted seq at id reason) l y h = h
apply_live-IsNamed (tab_created seq at tag) l y h = insert-IsNamed tag l.tabs y h
apply_live-IsNamed (tab_deleted seq at tag) l y h = without-IsNamed tag l.tabs h
apply_live-IsNamed (checkpoint seq at max_seq live) l y h = h

pub live_all-IsNamed :
    (xs : List Entry) (l : Live)
    → IsClean (events_of xs)
    → All IsNamed l.tabs
    → All IsNamed (live_all l xs).tabs
live_all-IsNamed [] l c h = h
live_all-IsNamed (x ∷ xs) l c h = elim (Bool-cases (is_readable x.event)) [
  | inl e ↦
      live_all-IsNamed xs (apply_live l x.event) (rw e at c) (apply_live-IsNamed x.event l e h)
  | inr e ↦ absurd (rw e at c)
]

module _ (p : Platform) (laws : IsPlatform p) (key : Bytes) where
  live_line-line_of :
      (anchor i : ℕ) (tip : Text) (nonce : Bytes) (e : StoreEvent)
      → length nonce ≡ 12
      → is_hash tip ≡ true
      → seq_of e ≡ anchor + i
      → is_readable e ≡ true
      → live_line p key anchor i tip (line_of p key nonce i tip e)
        ≡ ok (e, chain_next p tip (line_of p key nonce i tip e))
  unfolding live_line check_link
  live_line-line_of anchor i tip nonce e hn ht hs hr = rw (← hs) (
      rw
        (
          open_any-sealed p laws key nonce i (aad_seq i (seq_of e)) (kind_of e)
              (p.stringify (payload_with (seq_of e) (time_of e) (kind_of e) tip (extra_of e))) hn,
          decode_payload-stringify p laws key (seq_of e) (time_of e) (kind_of e) tip (extra_of e)
              ht,
        )
        (rw (text_eq_refl tip, to_store_event-payload e tip, hr) refl))

  -- The replay of a log that can be read.
  pub live_from-lines_from :
      (anchor i : ℕ) (tip : Text) (l : Live) (xs : List Entry)
      → is_hash tip ≡ true
      → IsNumbered anchor i xs
      → IsClean (events_of xs)
      → live_from p key anchor i tip l (lines_from p key i tip xs) ≡ ok (live_all l xs)
  unfolding live_from
  live_from-lines_from anchor i tip l [] ht h c = refl
  live_from-lines_from anchor i tip l (x ∷ xs) ht h c = elim (Bool-cases (is_readable x.event)) [
    | inl e ↦ rw (live_line-line_of anchor i tip x.nonce x.event h.0 ht h.1 e) (
        live_from-lines_from anchor (suc i) (chain_next p tip (line_of p key x.nonce i tip x.event))
          (apply_live l x.event) xs (laws.hash_form _) h.2 (rw e at c))
    | inr e ↦ absurd (rw e at c)
  ]
