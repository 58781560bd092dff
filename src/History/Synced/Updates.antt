-- ===== src/History/Synced/Updates.antt =====
-- `pin`, `tag` and `setTitle` keep memory and log in agreement.
use copy_clipboard_app.Base.{
  Text, ◌≡◌, refl, Bool, inl, inr, Option, none, some, Bool-cases, get, not, ◌&&◌,
}
use copy_clipboard_app.Protocol.Result.{Result}
use copy_clipboard_app.Protocol.Types.{Item}
use copy_clipboard_app.Protocol.Tags.{normalize_title}
use copy_clipboard_app.History.Ports.{Port, IsLog}
use copy_clipboard_app.History.Tags.{
  ApplyTagOutcome, changed, unchanged, invalid, at_limit, apply_tag,
}
use copy_clipboard_app.History.State.{State}
use copy_clipboard_app.History.Updates.{
  found, pin_body, tag_body, set_title_body, is_pinnable, too_long, same_title, tag_applied,
}
use copy_clipboard_app.History.Synced.{Synced, patch_item-Synced}

module _ {port : Port} (contract : IsLog port) where
  found-Synced :
      {A : Type 0} (o : Option Item) (f : Item → State port → Result A × State port)
      (st : State port)
      → Synced st
      → ((it : Item) → o ≡ some it → Synced (f it st).1)
      → Synced (found o f st).1
  found-Synced none f st h k = h
  found-Synced (some it) f st h k = k it refl

  pub pin_body-Synced :
      (id : Text) (pinned : Bool) (st : State port) → Synced st → Synced (pin_body id pinned st).1
  unfolding pin_body
  pin_body-Synced id pinned st h = found-Synced (get id st.items) _ st h λ it e.
      elim (Bool-cases (pinned && not (is_pinnable it.flags))) [
        | inl refused ↦ rw refused h
        | inr fine ↦ rw fine (patch_item-Synced contract id it _ pinned st h e)
      ]

  pub set_title_body-Synced :
      (id : Text) (raw : Option Text) (st : State port)
      → Synced st
      → Synced (set_title_body id raw st).1
  unfolding set_title_body
  set_title_body-Synced id raw st h = found-Synced (get id st.items) _ st h λ it e.
      elim (Bool-cases (too_long raw)) [
        | inl long ↦ rw long h
        | inr short ↦
            elim (Bool-cases (st.previews_loaded && same_title (normalize_title raw) it.title)) [
              | inl same ↦ rw (short, same) h
              | inr other ↦
                  rw (short, other)
                    (patch_item-Synced contract id it _ (normalize_title raw) st h e)
            ]
      ]

  tag_applied-Synced :
      (id : Text) (it : Item) (outcome : ApplyTagOutcome) (st : State port)
      → Synced st
      → get id st.items ≡ some it
      → Synced (tag_applied id it outcome st).1
  tag_applied-Synced id it invalid st h e = h
  tag_applied-Synced id it at_limit st h e = h
  tag_applied-Synced id it unchanged st h e = h
  tag_applied-Synced id it (changed tags) st h e = patch_item-Synced contract id it _ tags st h e

  pub tag_body-Synced :
      (id raw : Text) (tagged : Bool) (st : State port)
      → Synced st
      → Synced (tag_body id raw tagged st).1
  unfolding tag_body
  tag_body-Synced id raw tagged st h =
      found-Synced (get id st.items) _ st h
        λ it e. tag_applied-Synced id it (apply_tag port.to_lower_case it.tags raw tagged) st h e
