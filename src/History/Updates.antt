-- ===== src/History/Updates.antt =====
-- history.ts: the operations that change one item in place: `pin`, `tag` and `setTitle`.
-- Each waits for a load; the body is what follows the wait.
use copy_clipboard_app.Base.{
  ℕ, Text, text_eq, Bool, true, false, not, ◌&&◌, Option, none, some, List, length, ltb,
  if◌then◌else◌, get,
}
use copy_clipboard_app.Protocol.Result.{
  Result, ok, err, item_not_found, pin_refused_secret, tag_invalid, tag_limit, bad_params,
}
use copy_clipboard_app.Protocol.Types.{Item, ItemPatch, StoreEvent, Flag, has_secret}
use copy_clipboard_app.Protocol.Constants.{title_max_chars}
use copy_clipboard_app.Protocol.Tags.{normalize_title}
use copy_clipboard_app.History.Ports.{Port, item_updated, ChangeReason}
use copy_clipboard_app.History.Tags.{
  ApplyTagOutcome, changed, unchanged, invalid, at_limit, apply_tag,
}
use copy_clipboard_app.History.State.{State, remember, reindex, emit, append}
use copy_clipboard_app.History.Replay.{apply_patch}
use copy_clipboard_app.History.Load.{after_load}

-- packages/privacy/src/retention-policy.ts
abbrev pub is_pinnable : List Flag → Bool
is_pinnable flags = not (has_secret flags)

abbrev pub just_updated : ℕ → ItemPatch
just_updated at = record {
  updated_at = at;
  title = none;
  pinned = none;
  tags = none;
  expires_at = none;
}

abbrev pub too_long : Option Text → Bool
too_long none = false
too_long (some raw) = ltb title_max_chars (length raw)

abbrev pub same_title : Option Text → Option Text → Bool
same_title none none = true
same_title none (some t) = false
same_title (some s) none = false
same_title (some s) (some t) = text_eq s t

module _ {port : Port} where
  abbrev pub found {ℓ} :
      {A : Type ℓ}
      → Option Item
      → (Item → State port → Result A × State port)
      → State port
      → Result A × State port
  found none f st = (err item_not_found, st)
  found (some it) f st = f it st

  -- What follows `store.appendEvent` when it succeeds; a failure is passed on.
  abbrev pub when_appended {ℓ} :
      {A : Type ℓ}
      → (State port → Result A × State port)
      → Result StoreEvent × State port
      → Result A × State port
  when_appended f (ok e, st) = f st
  when_appended f (err c, st) = (err c, st)

  -- `remember(next); reindex(next); emit('update'); return ok(answer)`
  abbrev pub settle {ℓ} : {A : Type ℓ} → Item → A → State port → Result A × State port
  settle next answer st = (ok answer, emit ChangeReason.update (reindex next (remember next st)))

  -- Append the patch of an item; in memory it is `{ ...it, ...patch }`.
  unfoldable pub patch_item {ℓ} :
      {A : Type ℓ} → Text → Item → ItemPatch → A → State port → Result A × State port
  unfolding append remember reindex emit
  patch_item id it patch answer st =
      when_appended (settle (apply_patch it patch) answer) (append (item_updated id patch) st)

  unfoldable pub pin_found : Text → Bool → Item → State port → Result Bool × State port
  pin_found id pinned it st =
      if pinned && not (is_pinnable it.flags)
      then (err pin_refused_secret, st)
      else patch_item id it (record (just_updated it.updated_at) { pinned = some pinned }) pinned st

  unfoldable pub pin_body : Text → Bool → State port → Result Bool × State port
  unfolding pin_found
  pin_body id pinned st = found (get id st.items) (pin_found id pinned) st

  unfoldable pub pin : Text → Bool → State port → Result Bool × State port
  unfolding pin_body
  pin id pinned = after_load (pin_body id pinned)

  abbrev pub tag_applied :
      Text → Item → ApplyTagOutcome → State port → Result (List Text) × State port
  tag_applied id it invalid st = (err tag_invalid, st)
  tag_applied id it at_limit st = (err tag_limit, st)
  tag_applied id it unchanged st = (ok it.tags, st)
  tag_applied id it (changed tags) st =
      patch_item id it (record (just_updated it.updated_at) { tags = some tags }) tags st

  unfoldable pub tag_body : Text → Text → Bool → State port → Result (List Text) × State port
  tag_body id raw tagged st =
      found (get id st.items)
        (λ it. tag_applied id it (apply_tag port.to_lower_case it.tags raw tagged)) st

  unfoldable pub tag : Text → Text → Bool → State port → Result (List Text) × State port
  unfolding tag_body
  tag id raw tagged = after_load (tag_body id raw tagged)

  unfoldable pub title_found :
      Text → Option Text → Item → State port → Result (Option Text) × State port
  title_found id raw it st =
      let title = normalize_title raw in
      if too_long raw
      then (err bad_params, st)
      else if st.previews_loaded && same_title title it.title
      then (ok title, st)
      else patch_item id it (record (just_updated it.updated_at) { title = some title }) title st

  unfoldable pub set_title_body :
      Text → Option Text → State port → Result (Option Text) × State port
  unfolding title_found
  set_title_body id raw st = found (get id st.items) (title_found id raw) st

  unfoldable pub set_title : Text → Option Text → State port → Result (Option Text) × State port
  unfolding set_title_body
  set_title id raw = after_load (set_title_body id raw)
