-- ===== src/AgentHost/Correlator/Settled.antt =====
-- correlator.ts: every request is settled once.
use copy_clipboard_app.Base.{
  ℕ, ◌+◌, ◌≤◌, ◌≡◌, refl, sym, ap, ◌∙◌, Text, text_eq, text_eq_iff, true, false, inl, inr, Option,
  none, some, List, [], ◌∷◌, ◌++◌, arith, sum_by, if◌then◌else◌, Bool-cases, Dict, get, keys,
  get-set, get-delete, includes,
}
use copy_clipboard_app.Protocol.Result.{Result, ErrorCode, err, timeout}
use copy_clipboard_app.AgentHost.Correlator.{
  Pending, success, failure, Correlator, new_correlator, register, take_then, settle, fail,
  fail_each, fail_all, expire, Step, registers, settles, fails, fails_all, expires, step, run,
}

abbrev one_if : Option Pending → ℕ
one_if none = 0
one_if (some p) = 1

abbrev one_at : {R : Type 0} → Text → Text × Result R → ℕ
one_at k (id, r) = if text_eq id k then 1 else 0

sum_by-append :
    {A : Type 0} (f : A → ℕ) (xs ys : List A) → sum_by f (xs ++ ys) ≡ sum_by f xs + sum_by f ys
sum_by-append f [] ys = omega arith
sum_by-append f (x ∷ xs) ys = omega (arith, sum_by-append f xs ys)

absent : {V : Type 0} (k : Text) (m : Dict V) → includes k (keys m) ≡ false → get k m ≡ none
unfolding includes get
absent k [] h = refl
absent k ((j, v) ∷ m) h = ground (arith, absent k m)

module _ {R : Type 0} where
  -- How many requests of the id wait, and how many have been settled.
  abbrev pub waiting : Text → Correlator R → ℕ
  waiting k c = one_if (get k c.pending)

  abbrev pub answered : Text → Correlator R → ℕ
  answered k c = sum_by (one_at k) c.settled

  take_then_tally :
      (k id : Text) (o : Option Pending) (reply : Pending → Result R) (c : Correlator R)
      → get id c.pending ≡ o
      → answered k (take_then o reply id c) + waiting k (take_then o reply id c)
        ≡ answered k c + waiting k c
  take_then_tally k id none reply c e = refl
  take_then_tally k id (some p) reply c e = elim (Bool-cases (text_eq id k)) [
    | inl same ↦
        let there : get k c.pending ≡ some p =
          ap (λ j. get j c.pending) (sym ((text_eq_iff id k).0 same)) ∙ e in
        rw
          (
            get-delete id k c.pending,
            sum_by-append (one_at k) c.settled ((id, reply p) ∷ []),
            same,
            there,
          )
          (omega arith)
    | inr other ↦
        rw
          (
            get-delete id k c.pending,
            sum_by-append (one_at k) c.settled ((id, reply p) ∷ []),
            other,
          )
          (omega arith)
  ]

  -- What a step asks of the id.
  abbrev pub asked : Text → Step R → ℕ
  asked k (registers now id method timeout_ms) = if text_eq id k then 1 else 0
  asked k _ = 0

  fail_each_tally :
      (k : Text) (ids : List Text) (code : ErrorCode) (c : Correlator R)
      → answered k (fail_each ids code c) + waiting k (fail_each ids code c)
        ≡ answered k c + waiting k c
  unfolding fail_each fail
  fail_each_tally k [] code c = refl
  fail_each_tally k (id ∷ ids) code c =
      fail_each_tally k ids code (fail id code c)
      ∙ take_then_tally k id (get id c.pending) (λ p. err code) c refl

  -- After the ids of a list have failed, none of them waits.
  fail_each_done :
      (k : Text) (ids : List Text) (code : ErrorCode) (c : Correlator R)
      → get k (fail_each ids code c).pending ≡ (if includes k ids then none else get k c.pending)
  unfolding fail_each fail includes
  fail_each_done k [] code c = refl
  fail_each_done k (id ∷ ids) code c =
      fail_each_done k ids code (fail id code c) ∙ gone (get id c.pending) refl
    where
      gone :
          (o : Option Pending)
          → get id c.pending ≡ o
          → (if includes k ids then none else get k (take_then o (λ p. err code) id c).pending)
            ≡ (if (if text_eq id k then true else includes k ids) then none else get k c.pending)
      gone none e = ground (arith, text_eq_iff id k)
      gone (some p) e = ground (arith, get-delete id k c.pending)

  fail_all_done : (k : Text) (code : ErrorCode) (c : Correlator R) → waiting k (fail_all code c) ≡ 0
  unfolding fail_all get
  fail_all_done k code c =
      ap one_if (fail_each_done k (keys c.pending) code c)
      ∙ elim (Bool-cases (includes k (keys c.pending))) [
        | inl e ↦ rw e refl
        | inr e ↦ rw (e, absent k c.pending e) refl
      ]

  register_tally :
      (k : Text) (now : ℕ) (id method : Text) (timeout_ms : ℕ) (c : Correlator R)
      → (if text_eq id k then 1 else 0) + waiting k c ≤ 1
      → answered k (register now id method timeout_ms c)
          + waiting k (register now id method timeout_ms c)
        ≡ (if text_eq id k then 1 else 0) + (answered k c + waiting k c)
  unfolding register
  register_tally k now id method timeout_ms c h = elim (Bool-cases (text_eq id k)) [
    | inl same ↦
        let none_waits : waiting k c ≡ 0 = ground arith in
        rw (get-set id k _ c.pending, same, none_waits) (omega arith)
    | inr other ↦ rw (get-set id k _ c.pending, other) (omega arith)
  ]

module _ {R : Type 0} (schema : Text → R → Option R) where
  step_tally :
      (k : Text) (x : Step R) (c : Correlator R)
      → asked k x + waiting k c ≤ 1
      → answered k (step schema x c) + waiting k (step schema x c)
        ≡ asked k x + (answered k c + waiting k c)
  unfolding step settle fail fail_all expire
  step_tally k (registers now id method timeout_ms) c h =
      register_tally k now id method timeout_ms c h
  step_tally k (settles (success id r)) c h =
      omega (arith, take_then_tally k id (get id c.pending) _ c refl)
  step_tally k (settles (failure id code)) c h =
      omega (arith, take_then_tally k id (get id c.pending) _ c refl)
  step_tally k (fails id code) c h =
      omega (arith, take_then_tally k id (get id c.pending) (λ p. err code) c refl)
  step_tally k (fails_all code) c h = omega (arith, fail_each_tally k (keys c.pending) code c)
  step_tally k (expires id) c h =
      omega (arith, take_then_tally k id (get id c.pending) (λ p. err timeout) c refl)

  run_tally :
      (k : Text) (xs : List (Step R)) (c : Correlator R)
      → sum_by (asked k) xs + (answered k c + waiting k c) ≤ 1
      → answered k (run schema xs c) + waiting k (run schema xs c)
        ≡ sum_by (asked k) xs + (answered k c + waiting k c)
  unfolding run
  run_tally k [] c h = omega arith
  run_tally k (x ∷ xs) c h =
      let one = step_tally k x c (omega (arith, h)) in
      omega (arith, one, run_tally k xs (step schema x c) (omega (arith, one, h)))

  -- A request whose id is registered no more than once is settled exactly as often as it is
  -- registered, or waits, and not both: through any sequence of responses, failures, timeouts and
  -- other requests. And when everything is failed in the end, it has been settled exactly as often as
  -- it was registered, and does not wait: no caller is left hanging, and none is answered twice.
  pub settled_once :
      (k : Text) (xs : List (Step R)) (code : ErrorCode)
      → sum_by (asked k) xs ≤ 1
      → let c : Correlator R = run schema xs new_correlator in
        (answered k c + waiting k c ≡ sum_by (asked k) xs)
        × (answered k (fail_all code c) ≡ sum_by (asked k) xs)
        × (waiting k (fail_all code c) ≡ 0)
  unfolding fail_all get
  settled_once k xs code h =
      let c : Correlator R = run schema xs new_correlator in
      let tally = run_tally k xs new_correlator (omega (arith, h)) in
      let none_waits = fail_all_done k code c in
      (
        omega (arith, tally),
        omega (arith, tally, none_waits, fail_each_tally k (keys c.pending) code c),
        none_waits,
      )
