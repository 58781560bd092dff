-- ===== src/SearchIndex/Kept.antt =====
-- packages/search/src/index.ts: a row that is pinned or in a tab is not evicted.
use copy_clipboard_app.Base.{
  ℕ, zero, suc, ◌-◌, ◌≡◌, refl, sym, ap, ◌∙◌, Text, text_eq, text_eq_iff, true, false, inl, inr,
  some, List, [], ◌∷◌, arith, length, leb, keep_if, Bool-cases, All, All-map_impl, All-keep_if,
  sort-All, Dict, get, set, delete, values, get-delete, IsMap, set-IsMap,
}
use copy_clipboard_app.History.Ports.{SearchEntry}
use copy_clipboard_app.SearchIndex.{
  SearchIndex, by_recency, is_evictable, oldest_first, evict_over, evict_overflow, add,
}

-- Every row stands under its own id.
abbrev pub OwnIds : Dict SearchEntry → Type 0
OwnIds [] = Unit
OwnIds ((k, en) ∷ m) = (en.id ≡ k) × OwnIds m

-- Every row stands under its own id, and no id stands twice.
pub record IsIndexed (m : Dict SearchEntry) : Type 0 where
  pub own : OwnIds m
  pub once : IsMap m

set-OwnIds : (en : SearchEntry) (m : Dict SearchEntry) → OwnIds m → OwnIds (set en.id en m)
unfolding set
set-OwnIds en [] h = (refl, tt)
set-OwnIds en ((j, w) ∷ m) h = elim (Bool-cases (text_eq j en.id)) [
  | inl e ↦ rw e (sym ((text_eq_iff j en.id).0 e), h.1)
  | inr e ↦ rw e (h.0, set-OwnIds en m h.1)
]

-- The row of an index is what its id finds.
abbrev IsFound : Dict SearchEntry → SearchEntry → Type 0
IsFound m en = get en.id m ≡ some en

values-IsFound : (m : Dict SearchEntry) → OwnIds m → IsMap m → All (IsFound m) (values m)
unfolding get
values-IsFound [] own once = tt
values-IsFound ((k, en) ∷ m) own once = (
  ground (arith, text_eq_iff k en.id, own.0),
  All-map_impl (IsFound m) (λ r f. later r f) (values m) (values-IsFound m own.1 once.1),
)
  where
    later : (r : SearchEntry) → get r.id m ≡ some r → get r.id ((k, en) ∷ m) ≡ some r
    later r f = elim (Bool-cases (text_eq k r.id)) [
      | inl e ↦
          let same : k ≡ r.id = (text_eq_iff k r.id).0 e in cc (f, once.0, ap (λ j. get j m) same)
      | inr e ↦ rw e f
    ]

get-evict_over :
    (k : Text) (over : ℕ) (ens : List SearchEntry) (m : Dict SearchEntry)
    → All (λ (r : SearchEntry). text_eq r.id k ≡ false) ens
    → get k (evict_over over ens m) ≡ get k m
unfolding evict_over
get-evict_over k zero ens m h = refl
get-evict_over k (suc over) [] m h = refl
get-evict_over k (suc over) (r ∷ ens) m h =
    get-evict_over k over ens (delete r.id m) h.1 ∙ get-delete r.id k m ∙ rw h.0 refl

evict_overflow_keeps :
    (x : SearchIndex) (k : Text) (en : SearchEntry)
    → IsIndexed x.entries
    → get k x.entries ≡ some en
    → is_evictable en ≡ false
    → get k (evict_overflow x).entries ≡ some en
unfolding evict_overflow
evict_overflow_keeps x k en w e p = elim (Bool-cases (leb (length x.entries) x.capacity)) [
  | inl f ↦ rw f e
  | inr f ↦ rw f (
      get-evict_over k (length x.entries - x.capacity)
        (oldest_first (keep_if is_evictable (values x.entries))) x.entries
        (sort-All (λ (r : SearchEntry). text_eq r.id k ≡ false) (λ a b. by_recency b a)
          (keep_if is_evictable (values x.entries))
          (All-keep_if (λ (r : SearchEntry). text_eq r.id k ≡ false) is_evictable (values x.entries)
            (All-map_impl (IsFound x.entries) other (values x.entries)
              (values-IsFound x.entries w.own w.once))))
      ∙ e)
]
  where
    other : (r : SearchEntry) → IsFound x.entries r → is_evictable r ≡ true → text_eq r.id k ≡ false
    other r f q = elim (Bool-cases (text_eq r.id k)) [
      | inr g ↦ g
      | inl g ↦
          let same : some r ≡ some en =
            sym f ∙ ap (λ j. get j x.entries) ((text_eq_iff r.id k).0 g) ∙ e in
          let one : r ≡ en = cc in cc (q, p, ap is_evictable one)
    ]

-- In an index whose rows stand under their own ids, once each, an added row that makes them too many
-- does not evict a row that is pinned or in a tab, be it the added one or another: it is found as it
-- was put in.
pub add_keeps :
    (x : SearchIndex) (new : SearchEntry) (k : Text) (en : SearchEntry)
    → IsIndexed x.entries
    → get k (set new.id new x.entries) ≡ some en
    → is_evictable en ≡ false
    → get k (add new x).entries ≡ some en
unfolding add
add_keeps x new k en w e p =
    evict_overflow_keeps (record x { entries = set new.id new x.entries }) k en
      (record {
        own = set-OwnIds new x.entries w.own;
        once = set-IsMap new.id new x.entries w.once;
      })
      e p
