-- ===== src/History/Refused.antt =====
-- history.ts: an operation, past its wait for a load, that answers an error has changed nothing in memory.
use copy_clipboard_app.Base.{
  ℕ, Text, ◌≡◌, refl, Bool, false, inl, inr, Option, none, some, List, leb, length, if◌then◌else◌,
  ◌&&◌, not, Bool-cases, get, includes, keep_if, values, get,
}
use copy_clipboard_app.Protocol.Result.{Result, ok, err}
use copy_clipboard_app.Protocol.Types.{Item, ItemPatch, StoreEvent}
use copy_clipboard_app.Protocol.Constants.{tabs_max}
use copy_clipboard_app.Protocol.Tags.{normalize_tag, normalize_title, is_empty}
use copy_clipboard_app.History.Ports.{Port, StoreEventInput, item_updated, tab_created, tab_deleted}
use copy_clipboard_app.History.Tags.{
  ApplyTagOutcome, changed, unchanged, invalid, at_limit, apply_tag,
}
use copy_clipboard_app.History.State.{State, append}
use copy_clipboard_app.History.Replay.{apply_patch}
use copy_clipboard_app.History.Updates.{
  tag, is_pinnable, too_long, same_title, found, when_appended, settle, patch_item, pin_found,
  pin_body, tag_applied, tag_body, title_found, set_title_body,
}
use copy_clipboard_app.History.Tabs.{
  tab_counts, has, is_nil, create_normal_tab, create_tab_body, created_tab, remove_normal_tab,
  remove_tab_body, removed_tab,
}
use copy_clipboard_app.History.Untouched.{ErrsUntouched, IsUntouched-store}

module _ {port : Port} where
  -- What follows an append that succeeded does not fail.
  when_appended-IsUntouched :
      {A : Type 0} (f : State port → Result A × State port) (input : StoreEventInput)
      (st : State port)
      → ((w : State port) → (a : A) × ((f w).0 ≡ ok a))
      → ErrsUntouched st (when_appended f (append input st))
  unfolding append
  when_appended-IsUntouched {A} f input st good = go (port.append_event input st.store).0
    where
      go :
          (q : Result StoreEvent)
          → ErrsUntouched st
              (when_appended f (q, record st { store = (port.append_event input st.store).1 }))
      go (err d) c h = IsUntouched-store st (port.append_event input st.store).1
      go (ok e) c h = cc (h, (good (record st { store = (port.append_event input st.store).1 })).1)

  patch_item-IsUntouched :
      {A : Type 0} (id : Text) (it : Item) (patch : ItemPatch) (answer : A) (st : State port)
      → ErrsUntouched st (patch_item id it patch answer st)
  unfolding patch_item
  patch_item-IsUntouched id it patch answer st =
      when_appended-IsUntouched (settle (apply_patch it patch) answer) (item_updated id patch) st
        (λ w. (answer, refl))

  found-IsUntouched :
      {A : Type 0} (o : Option Item) (f : Item → State port → Result A × State port)
      (st : State port)
      → ((it : Item) → ErrsUntouched st (f it st))
      → ErrsUntouched st (found o f st)
  found-IsUntouched none f st g c h = IsUntouched-store st st.store
  found-IsUntouched (some it) f st g c h = g it c h

  pin_found-IsUntouched :
      (id : Text) (pinned : Bool) (it : Item) (st : State port)
      → ErrsUntouched st (pin_found id pinned it st)
  unfolding pin_found
  pin_found-IsUntouched id pinned it st = elim (Bool-cases (pinned && not (is_pinnable it.flags))) [
    | inl e ↦ rw e (λ c h. IsUntouched-store st st.store)
    | inr e ↦ rw e (patch_item-IsUntouched id it _ pinned st)
  ]

  tag_applied-IsUntouched :
      (id : Text) (it : Item) (o : ApplyTagOutcome) (st : State port)
      → ErrsUntouched st (tag_applied id it o st)
  tag_applied-IsUntouched id it invalid st c h = IsUntouched-store st st.store
  tag_applied-IsUntouched id it at_limit st c h = IsUntouched-store st st.store
  tag_applied-IsUntouched id it unchanged st c h = cc
  tag_applied-IsUntouched id it (changed tags) st c h = patch_item-IsUntouched id it _ tags st c h

  title_found-IsUntouched :
      (id : Text) (raw : Option Text) (it : Item) (st : State port)
      → ErrsUntouched st (title_found id raw it st)
  unfolding title_found
  title_found-IsUntouched id raw it st = elim (Bool-cases (too_long raw)) [
    | inl e ↦ rw e (λ c h. IsUntouched-store st st.store)
    | inr e ↦ elim (Bool-cases (st.previews_loaded && same_title (normalize_title raw) it.title)) [
      | inl f ↦ rw (e, f) (λ c h. cc)
      | inr f ↦ rw (e, f) (patch_item-IsUntouched id it _ (normalize_title raw) st)
    ]
  ]

  create_normal_tab-IsUntouched :
      (now : ℕ) (tag : Text) (st : State port) → ErrsUntouched st (create_normal_tab now tag st)
  unfolding create_normal_tab
  create_normal_tab-IsUntouched now tag st =
      let existed = has (get tag (tab_counts now st)) in
      elim (Bool-cases (is_empty tag)) [
        | inl e ↦ rw e (λ c h. IsUntouched-store st st.store)
        | inr e ↦ elim (Bool-cases (includes tag st.explicit_tabs)) [
          | inl f ↦ rw (e, f) (λ c h. cc)
          | inr f ↦
              elim (Bool-cases
                (if existed then false else leb tabs_max (length (tab_counts now st)))) [
                  | inl g ↦ rw (e, f, g) (λ c h. IsUntouched-store st st.store)
                  | inr g ↦
                      rw (e, f, g)
                        (when_appended-IsUntouched (created_tab tag existed) (tab_created tag) st
                          (λ w. (_, refl)))
                ]
        ]
      ]

  remove_normal_tab-IsUntouched :
      (tag : Text) (st : State port) → ErrsUntouched st (remove_normal_tab tag st)
  unfolding remove_normal_tab
  remove_normal_tab-IsUntouched tag st =
      let affected : List Item = keep_if (λ (it : Item). includes tag it.tags) (values st.items) in
      elim (Bool-cases (is_empty tag)) [
        | inl e ↦ rw e (λ c h. IsUntouched-store st st.store)
        | inr e ↦
            elim (Bool-cases (if includes tag st.explicit_tabs then false else is_nil affected)) [
              | inl f ↦ rw (e, f) (λ c h. cc)
              | inr f ↦
                  rw (e, f)
                    (when_appended-IsUntouched (removed_tab tag affected) (tab_deleted tag) st
                      (λ w. (_, refl)))
            ]
      ]

  abbrev pub ErrsUntouchedAll : {A : Type 0} → (State port → Result A × State port) → Type 0
  ErrsUntouchedAll op = (w : State port) → ErrsUntouched w (op w)

  pub pin_body-IsUntouched : (id : Text) (pinned : Bool) → ErrsUntouchedAll (pin_body id pinned)
  unfolding pin_body
  pin_body-IsUntouched id pinned w =
      found-IsUntouched (get id w.items) _ w (λ it. pin_found-IsUntouched id pinned it w)

  pub tag_body-IsUntouched :
      (id raw : Text) (tagged : Bool) → ErrsUntouchedAll (tag_body id raw tagged)
  unfolding tag_body
  tag_body-IsUntouched id raw tagged w =
      found-IsUntouched (get id w.items) _ w
        (λ it. tag_applied-IsUntouched id it (apply_tag port.to_lower_case it.tags raw tagged) w)

  pub set_title_body-IsUntouched :
      (id : Text) (raw : Option Text) → ErrsUntouchedAll (set_title_body id raw)
  unfolding set_title_body
  set_title_body-IsUntouched id raw w =
      found-IsUntouched (get id w.items) _ w (λ it. title_found-IsUntouched id raw it w)

  pub create_tab_body-IsUntouched :
      (now : ℕ) (raw : Text) → ErrsUntouchedAll (create_tab_body now raw)
  unfolding create_tab_body
  create_tab_body-IsUntouched now raw w =
      create_normal_tab-IsUntouched now (normalize_tag port.to_lower_case raw) w

  pub remove_tab_body-IsUntouched : (raw : Text) → ErrsUntouchedAll (remove_tab_body raw)
  unfolding remove_tab_body
  remove_tab_body-IsUntouched raw w =
      remove_normal_tab-IsUntouched (normalize_tag port.to_lower_case raw) w
