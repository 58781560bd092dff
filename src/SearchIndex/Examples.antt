-- ===== src/SearchIndex/Examples.antt =====
-- An index with room for one row, whose only row is pinned.
use copy_clipboard_app.Base.{
  ℕ, Text, text_eq, codes, ◌≡◌, refl, Bool, true, false, some, [], ◌∷◌, get, set, delete, sort,
  insert_sorted,
}
use copy_clipboard_app.History.Ports.{SearchEntry}
use copy_clipboard_app.SearchIndex.{SearchIndex, add, evict_overflow, evict_over, debug_haystack}
use copy_clipboard_app.SearchIndex.Kept.{IsIndexed, add_keeps}

abbrev row : Text → Bool → ℕ → SearchEntry
row id pinned at = record {
  id = id;
  preview = id;
  pinned = pinned;
  tagged = false;
  updated_at = at;
  ord = at;
}

abbrev index : SearchIndex
index = record { capacity = 1; entries = (codes "A", row (codes "A") true 1) ∷ [] }

abbrev new : SearchEntry
new = row (codes "B") false 2

index-IsIndexed : IsIndexed index.entries
unfolding get
index-IsIndexed = record { own = (refl, tt); once = (refl, tt) }

still_there : get (codes "A") (set new.id new index.entries) ≡ some (row (codes "A") true 1)
unfolding get set text_eq
still_there = refl

add_keeps_example : get (codes "A") (add new index).entries ≡ some (row (codes "A") true 1)
add_keeps_example =
    add_keeps index new (codes "A") (row (codes "A") true 1) index-IsIndexed still_there refl

left : debug_haystack (add new index) ≡ codes "A" ∷ []
unfolding add evict_overflow evict_over debug_haystack set delete text_eq sort insert_sorted
left = refl
