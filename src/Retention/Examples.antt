-- ===== src/Retention/Examples.antt =====
-- A sweep over four items: a secret that has expired, a pinned one, and two that compete for room.
use mathlib.Core.List.{Permᴰ}
use copy_clipboard_app.Base.{
  ℕ, Text, codes, Bool, sort, includes, insert, ◌≡◌, ◌≢◌, ◌≤◌, refl, true, false, Option, none,
  some, List, [], ◌∷◌, All, Some, sum_by, NoRepeats, if◌then◌else◌, arith, text_eq, text_eq_iff,
}
use copy_clipboard_app.Protocol.Types.{Item, ItemKind, secret_ttl, retention_count}
use copy_clipboard_app.Retention.{
  RetentionLimits, run_loops, condemn, ttl_loop, age_loop, count_loop, bytes_loop, is_kept,
  plan_eviction,
}
use copy_clipboard_app.Retention.Reasons.{
  Justified, ids, plan_eviction-Justified, plan_eviction-NoRepeats,
}
use copy_clipboard_app.Retention.Bounds.{
  MayStay, survivors, survivors_complete, survivors_within_limits,
}
use copy_clipboard_app.Retention.Order.{HasDistinctIds, plan_eviction-Permᴰ}

abbrev row : Text → ℕ → Bool → Option ℕ → Item
row id at pinned expires = record {
  core = record {
    id = id;
    kind = ItemKind.text;
    content_hash = id;
    preview = id;
    preview_truncated = false;
    mask_spans = [];
    flags = [];
    rep_refs = [];
    thumbnail_blob_id = none;
    source_app = none;
    byte_length = 40;
    created_at = at;
    updated_at = at;
    pinned = pinned;
    expires_at = expires;
  };
  title = none;
  tags = [];
}

abbrev a_row : Item
a_row = row (codes "A") 100 false none

abbrev b_row : Item
b_row = row (codes "B") 200 true none

abbrev c_row : Item
c_row = row (codes "C") 300 false (some 350)

abbrev d_row : Item
d_row = row (codes "D") 400 false none

abbrev summaries : List Item
summaries = a_row ∷ b_row ∷ c_row ∷ d_row ∷ []

abbrev tight : RetentionLimits
tight = record { max_items = 1; max_age_ms = some 1_000; max_bytes = 100; secret_ttl_ms = 50 }

-- The secret goes because it has expired, the oldest copy because there is room for one.
plan_of_rows :
    plan_eviction summaries 500 tight
    ≡ record { id = codes "C"; reason = secret_ttl }
      ∷ record { id = codes "A"; reason = retention_count }
      ∷ []
unfolding plan_eviction run_loops condemn sort text_eq includes insert bytes_loop count_loop
    age_loop ttl_loop
plan_of_rows = refl

plan_eviction-Justified_example :
    All (λ e. Some (Justified 500 tight e) summaries) (plan_eviction summaries 500 tight)
plan_eviction-Justified_example = plan_eviction-Justified 500 tight summaries

plan_eviction-NoRepeats_example : NoRepeats (ids (plan_eviction summaries 500 tight))
plan_eviction-NoRepeats_example = plan_eviction-NoRepeats summaries 500 tight

survivors_complete_example : All (MayStay 500 tight) (survivors 500 tight summaries)
survivors_complete_example = survivors_complete 500 tight summaries

survivors_within_limits_example :
    (sum_by (λ it. if is_kept it then 0 else 1) (survivors 500 tight summaries) ≤ 1)
    × (sum_by (λ it. if is_kept it then 0 else it.byte_length) (survivors 500 tight summaries)
        ≤ 100)
survivors_within_limits_example = survivors_within_limits 500 tight summaries

apart : (x y : Text) → text_eq x y ≡ false → x ≢ y
apart x y h = ground (arith, text_eq_iff x y)

rows_are_distinct : HasDistinctIds summaries
unfolding text_eq
rows_are_distinct =
    let last : HasDistinctIds (c_row ∷ d_row ∷ []) =
      ((apart (codes "C") (codes "D") refl, tt), (tt, tt)) in
    let later : HasDistinctIds (b_row ∷ c_row ∷ d_row ∷ []) =
      ((apart (codes "B") (codes "C") refl, (apart (codes "B") (codes "D") refl, tt)), last) in
    (
      (
        apart (codes "A") (codes "B") refl,
        (apart (codes "A") (codes "C") refl, (apart (codes "A") (codes "D") refl, tt)),
      ),
      later,
    )

plan_eviction-Permᴰ_example :
    plan_eviction summaries 500 tight ≡ plan_eviction (b_row ∷ a_row ∷ c_row ∷ d_row ∷ []) 500 tight
plan_eviction-Permᴰ_example =
    plan_eviction-Permᴰ summaries (b_row ∷ a_row ∷ c_row ∷ d_row ∷ []) 500 tight rows_are_distinct
      (Permᴰ.swap refl refl)
