-- ===== src/History/Tabs.antt =====
-- history.ts: tabs. A tab is there because it was created, or because a live item carries its tag.
use copy_clipboard_app.Base.{
  ℕ, suc, Text, text_lt, Bool, true, false, Option, none, some, List, [], ◌∷◌, map, length, take,
  leb, keep_if, if◌then◌else◌, Dict, get, set, values, insert, includes, without, sort,
}
use copy_clipboard_app.Protocol.Result.{Result, ok, err, tag_invalid, tag_limit}
use copy_clipboard_app.Protocol.Types.{Item, Tab}
use copy_clipboard_app.Protocol.Constants.{tabs_max}
use copy_clipboard_app.Protocol.Tags.{normalize_tag, is_empty}
use copy_clipboard_app.History.Ports.{Port, tab_created, tab_deleted, ChangeReason}
use copy_clipboard_app.History.State.{State, is_live, get_or, remember, reindex, emit, append}
use copy_clipboard_app.History.Replay.{untag}
use copy_clipboard_app.History.Load.{after_load}
use copy_clipboard_app.History.Updates.{when_appended}

abbrev empty_counts : List Text → Dict ℕ → Dict ℕ
empty_counts [] counts = counts
empty_counts (tag ∷ tags) counts = empty_counts tags (set tag 0 counts)

unfoldable pub count_tags : List Text → Dict ℕ → Dict ℕ
count_tags [] counts = counts
count_tags (tag ∷ tags) counts = count_tags tags (set tag (suc (get_or (get tag counts) 0)) counts)

unfoldable pub count_items : ℕ → List Item → Dict ℕ → Dict ℕ
unfolding count_tags
count_items now [] counts = counts
count_items now (it ∷ its) counts =
    count_items now its (if is_live it now then count_tags it.tags counts else counts)

abbrev pub has : Option ℕ → Bool
has none = false
has (some n) = true

abbrev as_tab : Text × ℕ → Tab
as_tab (tag, count) = record { tag = tag; count = count }

abbrev pub is_nil : List Item → Bool
is_nil [] = true
is_nil (it ∷ its) = false

pub record Created : Type 0 where
  pub tag : Text
  pub created : Bool

pub record Removed : Type 0 where
  pub removed : Bool
  pub untagged : ℕ

module _ {port : Port} where
  unfoldable pub tab_counts : ℕ → State port → Dict ℕ
  unfolding count_items
  tab_counts now st = count_items now (values st.items) (empty_counts st.explicit_tabs [])

  -- `tabs()`: sorted by name, the first 32
  unfoldable pub tabs : ℕ → State port → List Tab
  unfolding tab_counts
  tabs now st =
      take tabs_max (sort (λ (a b : Tab). text_lt a.tag b.tag) (map as_tab (tab_counts now st)))

  abbrev pub created_tab : Text → Bool → State port → Result Created × State port
  created_tab tag existed st = (
    ok (record { tag = tag; created = if existed then false else true }),
    emit ChangeReason.update (record st { explicit_tabs = insert tag st.explicit_tabs }),
  )

  unfoldable pub create_normal_tab : ℕ → Text → State port → Result Created × State port
  unfolding append emit tab_counts
  create_normal_tab now tag st =
      let counts = tab_counts now st in
      let existed = has (get tag counts) in
      if is_empty tag
      then (err tag_invalid, st)
      else if includes tag st.explicit_tabs
      then (ok (record { tag = tag; created = false }), st)
      else if (if existed then false else leb tabs_max (length counts))
      then (err tag_limit, st)
      else when_appended (created_tab tag existed) (append (tab_created tag) st)

  unfoldable pub create_tab_body : ℕ → Text → State port → Result Created × State port
  unfolding create_normal_tab
  create_tab_body now raw st = create_normal_tab now (normalize_tag port.to_lower_case raw) st

  unfoldable pub create_tab : ℕ → Text → State port → Result Created × State port
  unfolding create_tab_body
  create_tab now raw = after_load (create_tab_body now raw)

  -- The loop over the items that carry the tag.
  unfoldable pub untag_remembered : Text → List Item → State port → State port
  unfolding remember reindex
  untag_remembered tag [] st = st
  untag_remembered tag (it ∷ its) st =
      let next = untag tag it in untag_remembered tag its (reindex next (remember next st))

  abbrev pub removed_tab : Text → List Item → State port → Result Removed × State port
  removed_tab tag affected st = (
    ok (record { removed = true; untagged = length affected }),
    emit ChangeReason.update (
        untag_remembered tag affected (record st { explicit_tabs = without tag st.explicit_tabs })),
  )

  unfoldable pub remove_normal_tab : Text → State port → Result Removed × State port
  unfolding append emit untag_remembered
  remove_normal_tab tag st =
      let affected = keep_if (λ (it : Item). includes tag it.tags) (values st.items) in
      if is_empty tag
      then (err tag_invalid, st)
      else if (if includes tag st.explicit_tabs then false else is_nil affected)
      then (ok (record { removed = false; untagged = 0 }), st)
      else when_appended (removed_tab tag affected) (append (tab_deleted tag) st)

  unfoldable pub remove_tab_body : Text → State port → Result Removed × State port
  unfolding remove_normal_tab
  remove_tab_body raw st = remove_normal_tab (normalize_tag port.to_lower_case raw) st

  unfoldable pub remove_tab : Text → State port → Result Removed × State port
  unfolding remove_tab_body
  remove_tab raw = after_load (remove_tab_body raw)
