-- ===== src/SearchIndex.antt =====
-- packages/search/src/index.ts: the rows of the index and the eviction of those that are too many.
-- The ordered rows, which the source keeps until a row changes, are computed anew.
pub mod Kept
pub mod Examples
use copy_clipboard_app.Base.{
  ℕ, zero, suc, ◌-◌, min, Text, Bool, true, false, not, ◌&&◌, Option, none, some, List, [], ◌∷◌,
  map, length, leb, ltb, ◌==◌, keep_if, if◌then◌else◌, Dict, get, set, delete, values, sort,
}
use copy_clipboard_app.Protocol.Constants.{search_index_default, search_index_hard_cap}
use copy_clipboard_app.History.Ports.{SearchEntry}

pub record SearchIndex : Type 0 where
  pub capacity : ℕ
  pub entries : Dict SearchEntry

abbrev capacity_of : Option ℕ → ℕ
capacity_of none = min search_index_default search_index_hard_cap
capacity_of (some limit) = min limit search_index_hard_cap

-- `none` is the exception of a limit below 1.
unfoldable pub create_search_index : Option ℕ → Option SearchIndex
create_search_index limit =
    if ltb (capacity_of limit) 1
    then none
    else some (record { capacity = capacity_of limit; entries = [] })

-- `byRecency`, as "stands strictly before": newest first
abbrev pub by_recency : SearchEntry → SearchEntry → Bool
by_recency a b =
    if a.updated_at == b.updated_at then ltb b.ord a.ord else ltb b.updated_at a.updated_at

abbrev pub is_evictable : SearchEntry → Bool
is_evictable en = not en.pinned && not en.tagged

-- Negated, the order is oldest first.
abbrev pub oldest_first : List SearchEntry → List SearchEntry
oldest_first = sort λ a b. by_recency b a

-- The loop: `over` is how many are to go.
unfoldable pub evict_over : ℕ → List SearchEntry → Dict SearchEntry → Dict SearchEntry
evict_over zero ens entries = entries
evict_over (suc over) [] entries = entries
evict_over (suc over) (en ∷ ens) entries = evict_over over ens (delete en.id entries)

unfoldable pub evict_overflow : SearchIndex → SearchIndex
unfolding evict_over
evict_overflow x = if leb (length x.entries) x.capacity then x else record x {
  entries =
      evict_over (length x.entries - x.capacity)
        (oldest_first (keep_if is_evictable (values x.entries))) x.entries;
}

unfoldable pub add : SearchEntry → SearchIndex → SearchIndex
unfolding evict_overflow
add en x = evict_overflow (record x { entries = set en.id en x.entries })

abbrev pub is_there : Option SearchEntry → Bool
is_there none = false
is_there (some en) = true

unfoldable pub remove_row : Text → SearchIndex → Bool × SearchIndex
remove_row id x = (is_there (get id x.entries), record x { entries = delete id x.entries })

unfoldable pub clear : SearchIndex → SearchIndex
clear x = record x { entries = [] }

abbrev pub size : SearchIndex → ℕ
size x = length x.entries

-- `rebuild`
abbrev pub rows : SearchIndex → List SearchEntry
rows x = sort by_recency (values x.entries)

unfoldable pub debug_haystack : SearchIndex → List Text
debug_haystack x = map (λ (en : SearchEntry). en.preview) (rows x)
