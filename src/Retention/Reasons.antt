-- ===== src/Retention/Reasons.antt =====
-- Why an item is evicted: what every eviction of a plan has to show for itself.
use mathlib.Core.List.{map-append}
use copy_clipboard_app.Base.{
  NoRepeats, NoRepeats-append, suc, ◌+◌, ltb, All-append, ℕ, Text, ◌≡◌, refl, true, false, inl, inr,
  List, [], ◌∷◌, map, arith, Bool-cases, All, Some, All-Some, All-map_impl, Some-of-Some-sort,
  includes, insert, sort,
}
use copy_clipboard_app.Protocol.Types.{
  Item, DeleteReason, user, retention_count, retention_age, retention_bytes, secret_ttl, rekey,
}
use copy_clipboard_app.Retention.{
  RetentionLimits, Eviction, Plan, empty_plan, is_kept, is_expired, is_aged, is_passed, condemn,
  ttl_loop, age_loop, count_loop, bytes_loop, run_loops, plan, plan_eviction, newer,
}

module _ (now : ℕ) (limits : RetentionLimits) where
  -- What the reason says of the item.
  abbrev pub Reasoned : Item → DeleteReason → Type 0
  Reasoned it secret_ttl = is_expired now it ≡ true
  Reasoned it retention_age = (is_kept it ≡ false) × (is_aged now limits it ≡ true)
  Reasoned it retention_count = is_kept it ≡ false
  Reasoned it retention_bytes = is_kept it ≡ false
  Reasoned it user = ⊥
  Reasoned it rekey = ⊥

  unpassed : (it : Item) (p : Plan) → is_passed it p ≡ false → is_kept it ≡ false
  unpassed it p h = ground arith

  module _ (P : Plan → Type 0) where
    -- `P` outlives each eviction of an item that its reason allows.
    abbrev pub Closed : List Item → Type 0
    Closed =
        All λ (it : Item). (r : DeleteReason) (p : Plan) → Reasoned it r → P p → P (condemn it r p)

    pub ttl_loop-keeps : (its : List Item) (p : Plan) → Closed its → P p → P (ttl_loop now its p)
    unfolding ttl_loop
    ttl_loop-keeps [] p c h = h
    ttl_loop-keeps (it ∷ its) p c h = elim (Bool-cases (is_expired now it)) [
      | inl e ↦ rw e (ttl_loop-keeps its _ c.1 (c.0 secret_ttl p e h))
      | inr e ↦ rw e (ttl_loop-keeps its p c.1 h)
    ]

    pub age_loop-keeps :
        (its : List Item) (p : Plan) → Closed its → P p → P (age_loop now limits its p)
    unfolding age_loop
    age_loop-keeps [] p c h = h
    age_loop-keeps (it ∷ its) p c h = elim (Bool-cases (is_passed it p)) [
      | inl e ↦ rw e (age_loop-keeps its p c.1 h)
      | inr e ↦ elim (Bool-cases (is_aged now limits it)) [
        | inl aged ↦
            rw (e, aged) (age_loop-keeps its _ c.1 (c.0 retention_age p (unpassed it p e, aged) h))
        | inr fresh ↦ rw (e, fresh) (age_loop-keeps its p c.1 h)
      ]
    ]

    pub count_loop-keeps :
        (limit kept : ℕ) (its : List Item) (p : Plan)
        → Closed its
        → P p
        → P (count_loop limit kept its p)
    unfolding count_loop
    count_loop-keeps limit kept [] p c h = h
    count_loop-keeps limit kept (it ∷ its) p c h = elim (Bool-cases (is_passed it p)) [
      | inl e ↦ rw e (count_loop-keeps limit kept its p c.1 h)
      | inr e ↦ elim (Bool-cases (ltb limit (suc kept))) [
        | inl over ↦
            rw (e, over)
              (count_loop-keeps limit (suc kept) its _ c.1
                (c.0 retention_count p (unpassed it p e) h))
        | inr under ↦ rw (e, under) (count_loop-keeps limit (suc kept) its p c.1 h)
      ]
    ]

    pub bytes_loop-keeps :
        (limit bytes : ℕ) (its : List Item) (p : Plan)
        → Closed its
        → P p
        → P (bytes_loop limit bytes its p)
    unfolding bytes_loop
    bytes_loop-keeps limit bytes [] p c h = h
    bytes_loop-keeps limit bytes (it ∷ its) p c h = elim (Bool-cases (is_passed it p)) [
      | inl e ↦ rw e (bytes_loop-keeps limit bytes its p c.1 h)
      | inr e ↦ elim (Bool-cases (ltb limit (bytes + it.byte_length))) [
        | inl over ↦
            rw (e, over)
              (bytes_loop-keeps limit (bytes + it.byte_length) its _ c.1
                (c.0 retention_bytes p (unpassed it p e) h))
        | inr under ↦ rw (e, under) (bytes_loop-keeps limit (bytes + it.byte_length) its p c.1 h)
      ]
    ]

    pub run_loops-keeps :
        (its : List Item) → Closed its → P empty_plan → P (run_loops now limits its)
    unfolding run_loops
    run_loops-keeps its c h =
        bytes_loop-keeps _ _ its _ c (
          count_loop-keeps _ _ its _ c (age_loop-keeps its _ c (ttl_loop-keeps its empty_plan c h)))

  -- The eviction names an item and has a reason that holds of it.
  abbrev pub Justified : Eviction → Item → Type 0
  Justified e it = (it.id ≡ e.id) × Reasoned it e.reason

  condemn-justified :
      (Q : Eviction → Type 0) (it : Item) (r : DeleteReason) (p : Plan)
      → Q (record { id = it.id; reason = r })
      → All Q p.evictions
      → All Q (condemn it r p).evictions
  unfolding condemn
  condemn-justified Q it r p q h = elim (Bool-cases (includes it.id p.doomed)) [
    | inl e ↦ rw e h
    | inr e ↦ rw e (All-append Q p.evictions _ h (q, tt))
  ]

  -- Every eviction of a plan is of an item that was given, and its reason holds of that item: one
  -- evicted for the TTL has expired, one evicted for its age is not kept and is too old, and one
  -- evicted for the count or the bytes is not kept. There is no other reason, so that only the TTL
  -- evicts a kept item.
  pub plan_eviction-Justified :
      (items : List Item) → All (λ e. Some (Justified e) items) (plan_eviction items now limits)
  unfolding plan_eviction
  plan_eviction-Justified items =
      All-map_impl (λ e. Some (Justified e) (sort newer items))
        (λ e. Some-of-Some-sort _ newer items) (plan_eviction items now limits)
        (run_loops-keeps (λ p. All (λ e. Some (Justified e) (sort newer items)) p.evictions) _
          closed tt)
    where
      closed :
          Closed
            (λ p. All (λ e. Some (Justified e) (sort newer items)) p.evictions)
            (sort newer items)
      closed =
          All-map_impl
            (λ it. (e : Eviction) → Justified e it → Some (Justified e) (sort newer items))
            (λ it f r p j h.
              condemn-justified (λ e. Some (Justified e) (sort newer items)) it r p
                (f (record { id = it.id; reason = r }) (refl, j)) h)
            (sort newer items) (All-Some Justified (sort newer items))

-- The ids of a list of evictions.
abbrev pub ids : List Eviction → List Text
ids = map λ e. e.id

-- The ids that are doomed are those of the evictions, each once.
pub record IsTidy (p : Plan) : Type 0 where
  pub agree : ids p.evictions ≡ p.doomed
  pub once : NoRepeats p.doomed

condemn-IsTidy : (it : Item) (r : DeleteReason) (p : Plan) → IsTidy p → IsTidy (condemn it r p)
unfolding condemn insert
condemn-IsTidy it r p h = elim (Bool-cases (includes it.id p.doomed)) [
  | inl e ↦ rw e h
  | inr e ↦
      rw e (record {
        agree = rw (map-append, h.agree);
        once = NoRepeats-append p.doomed it.id h.once e;
      })
]

pub everywhere : (P : Item → Type 0) (its : List Item) → ((it : Item) → P it) → All P its
everywhere P [] f = tt
everywhere P (it ∷ its) f = (f it, everywhere P its f)

pub plan-IsTidy :
    (items : List Item) (now : ℕ) (limits : RetentionLimits) → IsTidy (plan items now limits)
unfolding plan
plan-IsTidy items now limits =
    run_loops-keeps now limits IsTidy (sort newer items)
      (everywhere _ (sort newer items) (λ it r p _ h. condemn-IsTidy it r p h))
      (record { agree = refl; once = tt })

-- No plan evicts an id twice.
pub plan_eviction-NoRepeats :
    (items : List Item) (now : ℕ) (limits : RetentionLimits)
    → NoRepeats (ids (plan_eviction items now limits))
unfolding plan_eviction
plan_eviction-NoRepeats items now limits =
    let tidy = plan-IsTidy items now limits in rw tidy.agree tidy.once
