-- ===== src/Retention.antt =====
-- packages/history/src/retention.ts: which items a sweep deletes, and why.
pub mod Reasons
pub mod Bounds
pub mod Order
pub mod Examples
use copy_clipboard_app.Base.{
  ℕ, suc, ◌+◌, Text, text_eq, text_lt, Bool, true, false, ◌&&◌, ◌||◌, not, Option, none, some, List,
  [], ◌∷◌, ◌++◌, length, ltb, leb, ◌==◌, if◌then◌else◌, includes, insert, sort,
}
use copy_clipboard_app.Protocol.Types.{
  Item, DeleteReason, user, retention_count, retention_age, retention_bytes, secret_ttl,
}
use copy_clipboard_app.Protocol.Constants.{retention_max_items, retention_max_bytes, secret_ttl_ms}

pub record RetentionLimits : Type 0 where
  pub max_items : ℕ
  pub max_age_ms : Option ℕ
  pub max_bytes : ℕ
  pub secret_ttl_ms : ℕ

abbrev pub default_retention : RetentionLimits
default_retention = record {
  max_items = retention_max_items;
  max_age_ms = none;
  max_bytes = retention_max_bytes;
  secret_ttl_ms = secret_ttl_ms;
}

pub record Eviction : Type 0 where
  pub id : Text
  pub reason : DeleteReason

abbrev pub is_syncable_delete : DeleteReason → Bool
is_syncable_delete user = true
is_syncable_delete _ = false

abbrev pub is_kept : Item → Bool
is_kept it = it.pinned || ltb 0 (length it.tags)

-- `it.expiresAt !== null && nowMs >= it.expiresAt`
abbrev pub is_expired : ℕ → Item → Bool
is_expired now it = elim it.expires_at [ none ↦ false | some t ↦ leb t now ]

-- `limits.maxAgeMs !== null && nowMs - it.createdAt >= limits.maxAgeMs`, with the difference moved
-- to the other side, so that no subtraction goes below 0.
abbrev pub is_aged : ℕ → RetentionLimits → Item → Bool
is_aged now limits it = elim limits.max_age_ms [
  | none ↦ false
  | some age ↦ leb (it.created_at + age) now
]

-- Newest first, and of two items with one time the greater id first.
abbrev pub newer : Item → Item → Bool
newer a b =
    if a.updated_at == b.updated_at then text_lt b.id a.id else ltb b.updated_at a.updated_at

pub record Plan : Type 0 where
  pub doomed : List Text
  pub evictions : List Eviction

abbrev pub empty_plan : Plan
empty_plan = record { doomed = []; evictions = [] }

unfoldable pub condemn : Item → DeleteReason → Plan → Plan
condemn it reason p = if includes it.id p.doomed then p else record {
  doomed = insert it.id p.doomed;
  evictions = p.evictions ++ record { id = it.id; reason = reason } ∷ [];
}

-- `isKept(it) || doomed.has(it.id)`
abbrev pub is_passed : Item → Plan → Bool
is_passed it p = is_kept it || includes it.id p.doomed

unfoldable pub ttl_loop : ℕ → List Item → Plan → Plan
ttl_loop now [] p = p
ttl_loop now (it ∷ its) p =
    ttl_loop now its (if is_expired now it then condemn it secret_ttl p else p)

unfoldable pub age_loop : ℕ → RetentionLimits → List Item → Plan → Plan
age_loop now limits [] p = p
age_loop now limits (it ∷ its) p =
    age_loop now limits its (
      if is_passed it p then p else if is_aged now limits it then condemn it retention_age p else p)

unfoldable pub count_loop : ℕ → ℕ → List Item → Plan → Plan
count_loop limit kept [] p = p
count_loop limit kept (it ∷ its) p =
    count_loop limit (if is_passed it p then kept else suc kept) its (
      if is_passed it p
      then p
      else if ltb limit (suc kept)
      then condemn it retention_count p
      else p)

unfoldable pub bytes_loop : ℕ → ℕ → List Item → Plan → Plan
bytes_loop limit bytes [] p = p
bytes_loop limit bytes (it ∷ its) p =
    bytes_loop limit (if is_passed it p then bytes else bytes + it.byte_length) its (
      if is_passed it p
      then p
      else if ltb limit (bytes + it.byte_length)
      then condemn it retention_bytes p
      else p)

-- The four loops, over items that are in order.
unfoldable pub run_loops : ℕ → RetentionLimits → List Item → Plan
run_loops now limits its =
    let expired = ttl_loop now its empty_plan in
    let aged = age_loop now limits its expired in
    let counted = count_loop limits.max_items 0 its aged in
    bytes_loop limits.max_bytes 0 its counted

unfoldable pub plan : List Item → ℕ → RetentionLimits → Plan
plan items now limits = run_loops now limits (sort newer items)

unfoldable pub plan_eviction : List Item → ℕ → RetentionLimits → List Eviction
unfolding plan
plan_eviction items now limits = (plan items now limits).evictions
