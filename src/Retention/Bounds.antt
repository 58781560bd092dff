-- ===== src/Retention/Bounds.antt =====
-- What is left after a sweep: no expired secret, nothing too old, and no more than the limits allow
-- of what is not kept.
use copy_clipboard_app.Base.{
  keep_if, not, All-zip, All-keep_if, sum_by-keep_if, sum_by-le, ℕ, suc, ◌+◌, ◌≤◌, max, ◌≡◌, true,
  false, inl, inr, List, [], ◌∷◌, arith, ltb, if◌then◌else◌, Bool-cases, All, All-map_impl,
  All-of-All-sort, sum_by, sum_by-sort, includes, includes-insert, text_eq_refl, sort,
}
use copy_clipboard_app.Protocol.Types.{
  Item, DeleteReason, retention_count, retention_age, retention_bytes, secret_ttl,
}
use copy_clipboard_app.Retention.{
  RetentionLimits, Plan, empty_plan, is_kept, is_expired, is_aged, is_passed, condemn, ttl_loop,
  age_loop, count_loop, bytes_loop, run_loops, plan, plan_eviction, newer,
}
use copy_clipboard_app.Retention.Reasons.{
  ttl_loop-keeps, age_loop-keeps, count_loop-keeps, bytes_loop-keeps, everywhere, ids, plan-IsTidy,
}

abbrev pub IsDoomed : Plan → Item → Type 0
IsDoomed p it = includes it.id p.doomed ≡ true

-- What is doomed stays doomed.
abbrev pub Grows : Plan → Plan → Type 0
Grows p q = (it : Item) → IsDoomed p it → IsDoomed q it

condemn-Grows : (it : Item) (r : DeleteReason) (p : Plan) → Grows p (condemn it r p)
unfolding condemn
condemn-Grows it r p j h = ground (arith, includes-insert it.id j.id p.doomed)

condemn-IsDoomed : (it : Item) (r : DeleteReason) (p : Plan) → IsDoomed (condemn it r p) it
unfolding condemn
condemn-IsDoomed it r p = ground (arith, includes-insert it.id it.id p.doomed, text_eq_refl it.id)

module _ (now : ℕ) (limits : RetentionLimits) where
  ttl_loop-Grows : (its : List Item) (p : Plan) → Grows p (ttl_loop now its p)
  ttl_loop-Grows its p j =
      ttl_loop-keeps now limits (λ q. IsDoomed q j) its p
        (everywhere _ its (λ it r q _. condemn-Grows it r q j))

  age_loop-Grows : (its : List Item) (p : Plan) → Grows p (age_loop now limits its p)
  age_loop-Grows its p j =
      age_loop-keeps now limits (λ q. IsDoomed q j) its p
        (everywhere _ its (λ it r q _. condemn-Grows it r q j))

  count_loop-Grows : (n k : ℕ) (its : List Item) (p : Plan) → Grows p (count_loop n k its p)
  count_loop-Grows n k its p j =
      count_loop-keeps now limits (λ q. IsDoomed q j) n k its p
        (everywhere _ its (λ it r q _. condemn-Grows it r q j))

  bytes_loop-Grows : (n k : ℕ) (its : List Item) (p : Plan) → Grows p (bytes_loop n k its p)
  bytes_loop-Grows n k its p j =
      bytes_loop-keeps now limits (λ q. IsDoomed q j) n k its p
        (everywhere _ its (λ it r q _. condemn-Grows it r q j))

  ttl_loop_complete :
      (its : List Item) (p : Plan)
      → All (λ it. is_expired now it ≡ true → IsDoomed (ttl_loop now its p) it) its
  unfolding ttl_loop
  ttl_loop_complete [] p = tt
  ttl_loop_complete (it ∷ its) p = (
    λ e.
        ttl_loop-Grows its (if is_expired now it then condemn it secret_ttl p else p) it
          (rw e (condemn-IsDoomed it secret_ttl p)),
    ttl_loop_complete its _,
  )

  age_loop_complete :
      (its : List Item) (p : Plan)
      → All
          (λ it.
            is_kept it ≡ false
            → is_aged now limits it ≡ true
            → IsDoomed (age_loop now limits its p) it)
          its
  unfolding age_loop
  age_loop_complete [] p = tt
  age_loop_complete (it ∷ its) p = (head, age_loop_complete its _)
    where
      head :
          is_kept it ≡ false
          → is_aged now limits it ≡ true
          → IsDoomed (age_loop now limits (it ∷ its) p) it
      head unkept aged = elim (Bool-cases (includes it.id p.doomed)) [
        | inl e ↦ age_loop-Grows its _ it (ground arith)
        | inr e ↦ age_loop-Grows its _ it (ground (arith, condemn-IsDoomed it retention_age p))
      ]

-- What an item weighs once the plan is carried out: nothing if it is kept or gone.
abbrev pub rest : (Item → ℕ) → Plan → Item → ℕ
rest w p it = if is_passed it p then 0 else w it

rest_mono : (w : Item → ℕ) (p q : Plan) → Grows p q → (it : Item) → rest w q it ≤ rest w p it
rest_mono w p q g it = ground (arith, g it)

sum_rest_mono :
    (w : Item → ℕ) (p q : Plan)
    → Grows p q
    → (its : List Item) → sum_by (rest w q) its ≤ sum_by (rest w p) its
sum_rest_mono w p q g [] = omega arith
sum_rest_mono w p q g (it ∷ its) = omega (arith, rest_mono w p q g it, sum_rest_mono w p q g its)

-- One round of the third loop, against the plan `q` that comes out in the end: `more` is what the
-- items further on leave.
count_round :
    (limit kept more : ℕ) (it : Item) (p q : Plan)
    → Grows
        (if is_passed it p
          then p
          else if ltb limit (suc kept)
          then condemn it retention_count p
          else p)
        q
    → (if is_passed it p then kept else suc kept) + more
      ≤ max (if is_passed it p then kept else suc kept) limit
    → kept + (rest (λ _. 1) q it + more) ≤ max kept limit
count_round limit kept more it p q g h = ground (arith, g it, condemn-IsDoomed it retention_count p)

bytes_round :
    (limit bytes more : ℕ) (it : Item) (p q : Plan)
    → Grows
        (if is_passed it p
          then p
          else if ltb limit (bytes + it.byte_length)
          then condemn it retention_bytes p
          else p)
        q
    → (if is_passed it p then bytes else bytes + it.byte_length) + more
      ≤ max (if is_passed it p then bytes else bytes + it.byte_length) limit
    → bytes + (rest (λ j. j.byte_length) q it + more) ≤ max bytes limit
bytes_round limit bytes more it p q g h =
    ground (arith, g it, condemn-IsDoomed it retention_bytes p)

module _ (now : ℕ) (limits : RetentionLimits) where
  count_loop_bound :
      (limit kept : ℕ) (its : List Item) (p : Plan)
      → kept + sum_by (rest (λ _. 1) (count_loop limit kept its p)) its ≤ max kept limit
  unfolding count_loop
  count_loop_bound limit kept [] p = omega arith
  count_loop_bound limit kept (it ∷ its) p =
      let next : Plan =
        if is_passed it p
        then p
        else if ltb limit (suc kept)
        then condemn it retention_count p
        else p in
      let kept' : ℕ = if is_passed it p then kept else suc kept in
      count_round limit kept _ it p (count_loop limit kept' its next)
        (count_loop-Grows now limits limit kept' its next) (count_loop_bound limit kept' its next)

  bytes_loop_bound :
      (limit bytes : ℕ) (its : List Item) (p : Plan)
      → bytes + sum_by (rest (λ j. j.byte_length) (bytes_loop limit bytes its p)) its
        ≤ max bytes limit
  unfolding bytes_loop
  bytes_loop_bound limit bytes [] p = omega arith
  bytes_loop_bound limit bytes (it ∷ its) p =
      let next : Plan =
        if is_passed it p
        then p
        else if ltb limit (bytes + it.byte_length)
        then condemn it retention_bytes p
        else p in
      let bytes' : ℕ = if is_passed it p then bytes else bytes + it.byte_length in
      bytes_round limit bytes _ it p (bytes_loop limit bytes' its next)
        (bytes_loop-Grows now limits limit bytes' its next) (bytes_loop_bound limit bytes' its next)

  -- What the sweep leaves of the items.
  abbrev pub survivors : List Item → List Item
  survivors items =
      keep_if (λ it. not (includes it.id (ids (plan_eviction items now limits)))) items

  -- What must have happened to an item for it to be left.
  abbrev pub MayStay : Item → Type 0
  MayStay it = (is_expired now it ≡ false) × (is_kept it ≡ false → is_aged now limits it ≡ false)

  abbrev after_ttl : List Item → Plan
  after_ttl its = ttl_loop now its empty_plan

  abbrev after_age : List Item → Plan
  after_age its = age_loop now limits its (after_ttl its)

  abbrev after_count : List Item → Plan
  after_count its = count_loop limits.max_items 0 its (after_age its)

  age-run_loops : (its : List Item) → Grows (after_age its) (run_loops now limits its)
  unfolding run_loops
  age-run_loops its it h =
      bytes_loop-Grows now limits limits.max_bytes 0 its (after_count its) it
        (count_loop-Grows now limits limits.max_items 0 its (after_age its) it h)

  ttl-run_loops : (its : List Item) → Grows (after_ttl its) (run_loops now limits its)
  ttl-run_loops its it h = age-run_loops its it (age_loop-Grows now limits its (after_ttl its) it h)

  run_loops_complete :
      (its : List Item)
      → All (λ it. includes it.id (run_loops now limits its).doomed ≡ false → MayStay it) its
  run_loops_complete its =
      All-zip (λ it. is_expired now it ≡ true → IsDoomed (after_ttl its) it)
        (λ it. is_kept it ≡ false → is_aged now limits it ≡ true → IsDoomed (after_age its) it)
        (λ it. includes it.id (run_loops now limits its).doomed ≡ false → MayStay it)
        (λ it f g h. (
          elim (Bool-cases (is_expired now it)) [
            | inl e ↦ cc (h, ttl-run_loops its it (f e))
            | inr e ↦ e
          ],
          λ unkept. elim (Bool-cases (is_aged now limits it)) [
            | inl e ↦ cc (h, age-run_loops its it (g unkept e))
            | inr e ↦ e
          ],
        ))
        its (ttl_loop_complete now limits its empty_plan)
        (age_loop_complete now limits its (after_ttl its))

  -- After a sweep no expired item is left, and nothing that is not kept and is too old.
  pub survivors_complete : (items : List Item) → All MayStay (survivors items)
  unfolding plan_eviction plan
  survivors_complete items = rw (plan-IsTidy items now limits).agree (
      All-keep_if MayStay _ items (
        All-map_impl (λ it. includes it.id (plan items now limits).doomed ≡ false → MayStay it)
          (λ it f h. f (ground arith)) items
          (All-of-All-sort _ newer items (run_loops_complete (sort newer items)))))

  rest_bound :
      (w : Item → ℕ) (limit : ℕ) (items : List Item) (p : Plan)
      → Grows p (run_loops now limits (sort newer items))
      → sum_by (rest w p) (sort newer items) ≤ limit
      → sum_by (λ it. if is_kept it then 0 else w it) (survivors items) ≤ limit
  unfolding plan_eviction plan
  rest_bound w limit items p g h =
      let q : Plan = run_loops now limits (sort newer items) in
      rw (plan-IsTidy items now limits).agree (
        omega (
          arith,
          sum_by-keep_if (λ it. if is_kept it then 0 else w it)
              (λ it. not (includes it.id q.doomed)) items,
          sum_by-le
              (λ it. if not (includes it.id q.doomed) then if is_kept it then 0 else w it else 0)
              (rest w q) (λ it. ground arith) items,
          sum_by-sort (rest w q) newer items,
          sum_rest_mono w p q g (sort newer items),
        ))

  -- After a sweep there are at most `maxItems` items that are neither pinned nor in a tab, and
  -- their bytes together are at most `maxBytes`.
  pub survivors_within_limits :
      (items : List Item)
      → (sum_by (λ it. if is_kept it then 0 else 1) (survivors items) ≤ limits.max_items)
        × (sum_by (λ it. if is_kept it then 0 else it.byte_length) (survivors items)
            ≤ limits.max_bytes)
  unfolding run_loops
  survivors_within_limits items =
      let its : List Item = sort newer items in
      (
        rest_bound (λ _. 1) limits.max_items items (after_count its)
            (bytes_loop-Grows now limits limits.max_bytes 0 its (after_count its))
            (omega (arith, count_loop_bound limits.max_items 0 its (after_age its))),
        rest_bound (λ it. it.byte_length) limits.max_bytes items (run_loops now limits its)
            (λ it h. h) (omega (arith, bytes_loop_bound limits.max_bytes 0 its (after_count its))),
      )
