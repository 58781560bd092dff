-- ===== src/History/Synced/Tabs.antt =====
-- `createTab` and `removeTab` keep memory and log in agreement.
use copy_clipboard_app.Base.{
  ℕ, ◌<◌, arith, Text, ◌≡◌, refl, ap, ◌∙◌, sym, subst, Bool, true, false, inl, inr, List, [], ◌∷◌,
  map, keep_if, leb, length, if◌then◌else◌, Bool-cases, Dict, get, values, map_values, set,
  includes, insert, without,
}
use copy_clipboard_app.Protocol.Result.{ok}
use copy_clipboard_app.Protocol.Constants.{tabs_max}
use copy_clipboard_app.Protocol.Types.{Item, StoreEvent}
use copy_clipboard_app.Protocol.Tags.{normalize_tag, is_empty}
use copy_clipboard_app.History.Ports.{Port, IsLog, tab_created, tab_deleted, ChangeReason}
use copy_clipboard_app.History.State.{State, shown, scrub_preview, remember, reindex}
use copy_clipboard_app.History.Replay.{Restored, apply_event, untag, untag_each, replay}
use copy_clipboard_app.History.Updates.{when_appended}
use copy_clipboard_app.History.Tabs.{
  create_tab_body, remove_tab_body, tab_counts, has, created_tab, removed_tab, untag_remembered,
  is_nil, create_normal_tab, remove_normal_tab,
}
use copy_clipboard_app.History.Synced.{
  Shows, Synced, append_cases, with_store, set-shown, shown-id, shows, agrees, emit-Agrees,
}

values-map_values : (f : Item → Item) (m : Dict Item) → values (map_values f m) ≡ map f (values m)
values-map_values f [] = refl
values-map_values f ((k, it) ∷ m) = ap (λ its. f it ∷ its) (values-map_values f m)

named-length : (tag : Text) → is_empty tag ≡ false → 0 < length tag
named-length [] e = cc
named-length (c ∷ tag) e = omega arith

-- The items that carry the tag, as they are shown.
carriers : Text → Bool → List Item → List Item
carriers tag loaded its = keep_if (λ (it : Item). includes tag it.tags) (map (shown loaded) its)

shown-untag :
    (loaded : Bool) (tag : Text) (it : Item)
    → shown loaded (untag tag (shown loaded it)) ≡ shown loaded (untag tag it)
unfolding scrub_preview
shown-untag true tag it = refl
shown-untag false tag it = refl

shown-tags : (loaded : Bool) (it : Item) → (shown loaded it).tags ≡ it.tags
unfolding scrub_preview
shown-tags true it = refl
shown-tags false it = refl

module _ {port : Port} where
  untag_one :
      (tag : Text) (it : Item) (st : State port) (r : Restored)
      → Shows port st r
      → Shows port
          (let next = untag tag (shown st.previews_loaded it) in reindex next (remember next st))
          (record r { items = set it.id (untag tag it) r.items })
  unfolding remember reindex
  untag_one tag it st r s = record {
    items =
        set-shown st.previews_loaded (shown st.previews_loaded it).id it.id
          (untag tag (shown st.previews_loaded it)) (untag tag it) st.items r.items
          (shown-id st.previews_loaded it) (shown-untag st.previews_loaded tag it) s.items;
    tabs = s.tabs;
    ord = s.ord;
  }

  -- The loop of `removeTab` in memory does what the replay of its record does.
  untag_remembered-Shows :
      (tag : Text) (its : List Item) (st : State port) (r : Restored)
      → Shows port st r
      → Shows port
          (untag_remembered tag (carriers tag st.previews_loaded its) st)
          (record r { items = untag_each tag its r.items })
  unfolding untag_remembered untag_each carriers
  untag_remembered-Shows tag [] st r s = s
  untag_remembered-Shows tag (it ∷ its) st r s = elim (Bool-cases (includes tag it.tags)) [
    | inl e ↦
        rw (shown-tags st.previews_loaded it, e)
          (untag_remembered-Shows tag its _ _ (untag_one tag it st r s))
    | inr e ↦ rw (shown-tags st.previews_loaded it, e) (untag_remembered-Shows tag its st r s)
  ]

  store-untag_remembered :
      (tag : Text) (its : List Item) (st : State port)
      → (untag_remembered tag its st).store ≡ st.store
  unfolding untag_remembered
  store-untag_remembered tag [] st = refl
  store-untag_remembered tag (it ∷ its) st = store-untag_remembered tag its _

  affected-carriers :
      (tag : Text) (st : State port) (r : Restored)
      → Shows port st r
      → keep_if (λ (it : Item). includes tag it.tags) (values st.items)
        ≡ carriers tag st.previews_loaded (values r.items)
  unfolding carriers
  affected-carriers tag st r s =
      ap (keep_if (λ (it : Item). includes tag it.tags))
        (ap values s.items ∙ values-map_values (shown st.previews_loaded) r.items)

module _ {port : Port} (contract : IsLog port) where
  create_normal_tab-Synced :
      (now : ℕ) (tag : Text) (st : State port) → Synced st → Synced (create_normal_tab now tag st).1
  unfolding create_normal_tab apply_event
  create_normal_tab-Synced now tag st (r, a) = elim (Bool-cases (is_empty tag)) [
    | inl e ↦ rw e (r, a)
    | inr named ↦ elim (Bool-cases (includes tag st.explicit_tabs)) [
      | inl e ↦ rw (named, e) (r, a)
      | inr new ↦
          let existed = has (get tag (tab_counts now st)) in
          elim (Bool-cases (if existed then false else leb tabs_max (length (tab_counts now st)))) [
            | inl full ↦ rw (named, new, full) (r, a)
            | inr room ↦
                rw (named, new, room)
                  (append_cases contract (tab_created tag) (named-length tag named) st r a.log
                    (when_appended (created_tab tag existed)) (λ x. Synced x.1)
                    (λ c s log. (r, with_store a s log))
                    (λ seq at s log. (
                      record r { tabs = insert tag r.tabs },
                      record {
                        log = log;
                        items = a.items;
                        tabs = ap (insert tag) a.tabs;
                        ord = a.ord;
                      },
                    )))
          ]
    ]
  ]

  pub create_tab_body-Synced :
      (now : ℕ) (raw : Text) (st : State port) → Synced st → Synced (create_tab_body now raw st).1
  unfolding create_tab_body
  create_tab_body-Synced now raw st h =
      create_normal_tab-Synced now (normalize_tag port.to_lower_case raw) st h

  -- What follows the record of a deleted tab.
  removed_tab-Synced :
      (tag : Text) (st : State port) (r : Restored) (seq at : ℕ) (s : port.Store)
      → replay (port.read_all s) ≡ ok (apply_event r (StoreEvent.tab_deleted seq at tag))
      → Shows port st r
      → Synced
          (removed_tab tag
            (carriers tag st.previews_loaded (values r.items))
            (record st { store = s })).1
  unfolding apply_event
  removed_tab-Synced tag st r seq at s log h =
      let start : State port = record st {
        store = s;
        explicit_tabs = without tag st.explicit_tabs;
      } in
      let its : List Item = carriers tag st.previews_loaded (values r.items) in
      (
        record r { tabs = without tag r.tabs; items = untag_each tag (values r.items) r.items },
        emit-Agrees ChangeReason.update _ _ (
            agrees (rw (store-untag_remembered tag its start) log) (
              untag_remembered-Shows tag (values r.items) start
                (record r { tabs = without tag r.tabs })
                (record { items = h.items; tabs = ap (without tag) h.tabs; ord = h.ord }))),
      )

  remove_normal_tab-Synced :
      (tag : Text) (st : State port) → Synced st → Synced (remove_normal_tab tag st).1
  unfolding remove_normal_tab
  remove_normal_tab-Synced tag st (r, a) =
      let affected : List Item = keep_if (λ (it : Item). includes tag it.tags) (values st.items) in
      elim (Bool-cases (is_empty tag)) [
        | inl e ↦ rw e (r, a)
        | inr named ↦
            elim (Bool-cases (if includes tag st.explicit_tabs then false else is_nil affected)) [
              | inl e ↦ rw (named, e) (r, a)
              | inr there ↦
                  rw (named, there)
                    (append_cases contract (tab_deleted tag) (named-length tag named) st r a.log
                      (when_appended (removed_tab tag affected)) (λ x. Synced x.1)
                      (λ c s log. (r, with_store a s log))
                      (λ seq at s log.
                        subst (λ its. Synced (removed_tab tag its (record st { store = s })).1)
                          (sym (affected-carriers tag st r (shows a)))
                          (removed_tab-Synced tag st r seq at s log (shows a))))
            ]
      ]

  pub remove_tab_body-Synced :
      (raw : Text) (st : State port) → Synced st → Synced (remove_tab_body raw st).1
  unfolding remove_tab_body
  remove_tab_body-Synced raw st h =
      remove_normal_tab-Synced (normalize_tag port.to_lower_case raw) st h
