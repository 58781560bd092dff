-- ===== src/AgentHost/Changes/Settled.antt =====
-- packages/agent-host/src/reassembler.ts: a pending change counts the representations that are still to
-- come, and is emitted when there are none.
use copy_clipboard_app.Base.{
  ℕ, suc, ◌+◌, ◌-◌, ◌==◌, ◌<◌, ◌≡◌, refl, ◌∙◌, Text, false, inl, inr, Option, none, some, List, [],
  ◌∷◌, ◌++◌, length, length-append, ltb, arith, if◌then◌else◌, Bool-cases, get, IsMap, set-IsMap,
  delete-IsMap,
}
use copy_clipboard_app.AgentHost.Reassembler.{Told, completed, aborted, Reassembler, Codec, declare}
use copy_clipboard_app.AgentHost.Changes.{
  Slot, Place, Rep, ChangedWire, Assembler, at, update_at, outstanding_of, filled, finish, settle,
  settle_owned, release, call_back, call_back_each, reassemble, chunked_id, count_chunked,
  declared_of, is_owned, change_of, own, declare_chunked, declare_each, handle_changed, payload_of,
}
use copy_clipboard_app.AgentHost.Changes.Counts.{
  one, occurs, times_emitted, owned, left, occurs-append, times_emitted-append, occurs-without,
  owned-set, owned-delete, left-update, length-update_at, left-append, left-beyond, at-within,
}

-- A change has as many representations to come as it owns streams and, `d` of it, as it is about to
-- own; it is pending if there are any, and was emitted once if not.
pub record IsKept (d : ℕ → ℕ) (a : Assembler) : Type 0 where
  pub map : IsMap a.owner
  pub balanced : (p : ℕ) → left p a.changes ≡ owned p a.owner + d p
  pub pending : (p : ℕ) → occurs p a.pending ≡ one (ltb 0 (left p a.changes))
  pub told :
      (p : ℕ)
      → times_emitted p a.emitted + one (ltb 0 (left p a.changes)) ≡ one (ltb p (length a.changes))

pub IsKept-same : {d e : ℕ → ℕ} {a : Assembler} → ((p : ℕ) → d p ≡ e p) → IsKept d a → IsKept e a
IsKept-same h k = record {
  map = k.map;
  balanced = λ p. omega (arith, k.balanced p, h p);
  pending = k.pending;
  told = k.told;
}

-- What a change with nothing to come needs to be finished.
finish-IsKept :
    (d : ℕ → ℕ) (q : ℕ) (a : Assembler)
    → q < length a.changes
    → left q a.changes ≡ 0
    → IsMap a.owner
    → ((p : ℕ) → left p a.changes ≡ owned p a.owner + d p)
    → ((p : ℕ) → (if q == p then 0 else occurs p a.pending) ≡ one (ltb 0 (left p a.changes)))
    → ((p : ℕ)
        → times_emitted p a.emitted + one (q == p) + one (ltb 0 (left p a.changes))
          ≡ one (ltb p (length a.changes)))
    → IsKept d (finish q a)
unfolding finish
finish-IsKept d q a within none_left m b o t =
    let (c, e) = at-within q a.changes within in
    rw e (record {
      map = m;
      balanced = b;
      pending = λ p. occurs-without p q a.pending ∙ o p;
      told = λ p. omega (arith, times_emitted-append p a.emitted ((q, payload_of c) ∷ []), t p);
    })

settle-IsKept :
    (d : ℕ → ℕ) (place : Place) (f : Slot → Slot) (a : Assembler)
    → IsKept (λ p. d p + one (place.change == p)) a
    → IsKept d (settle place f a)
unfolding settle
settle-IsKept d place f a k =
    let q = place.change in
    let cs = update_at q (filled place.slot f) a.changes in
    let a' = record a { changes = cs } in
    let fewer : (p : ℕ) → left p cs ≡ left p a.changes - one (q == p) =
      λ p. left-update p q place.slot f a.changes in
    let long : length cs ≡ length a.changes = length-update_at q (filled place.slot f) a.changes in
    let owes : 0 < left q a.changes = ground (arith, k.balanced q) in
    let within : q < length cs = ground (arith, k.told q, owes, long) in
    let b : (p : ℕ) → left p cs ≡ owned p a.owner + d p =
      λ p. omega (arith, fewer p, k.balanced p) in
    elim (Bool-cases (outstanding_of (at q cs) == 0)) [
      | inl e ↦ rw e (
          finish-IsKept d q a' within (ground (arith, e)) k.map b
            (λ p. ground (arith, e, fewer p, k.pending p))
            (λ p. ground (arith, e, fewer p, long, owes, k.told p)))
      | inr e ↦ rw e (record {
        map = k.map;
        balanced = b;
        pending = λ p. ground (arith, e, fewer p, k.pending p);
        told = λ p. ground (arith, e, fewer p, long, owes, k.told p);
      })
    ]

settle_owned-IsKept :
    (d : ℕ → ℕ) (id : Text) (f : Slot → Slot) (a : Assembler)
    → IsKept d a
    → IsKept d (settle_owned id f (get id a.owner) a)
settle_owned-IsKept d id f a k = go (get id a.owner) refl
  where
    go : (o : Option Place) → get id a.owner ≡ o → IsKept d (settle_owned id f o a)
    go none e = k
    go (some place) e = settle-IsKept d place f (release id a) (record {
      map = delete-IsMap id a.owner k.map;
      balanced = λ p. omega (arith, k.balanced p, owned-delete p id place a.owner k.map e);
      pending = k.pending;
      told = k.told;
    })

call_back-IsKept : (d : ℕ → ℕ) (t : Told) (a : Assembler) → IsKept d a → IsKept d (call_back t a)
unfolding call_back
call_back-IsKept d (completed id rep) a k = settle_owned-IsKept d id _ a k
call_back-IsKept d (aborted id mime code) a k = settle_owned-IsKept d id _ a k

call_back_each-IsKept :
    (d : ℕ → ℕ) (ts : List Told) (a : Assembler) → IsKept d a → IsKept d (call_back_each ts a)
unfolding call_back_each
call_back_each-IsKept d [] a k = k
call_back_each-IsKept d (t ∷ ts) a k =
    call_back_each-IsKept d ts (call_back t a) (call_back-IsKept d t a k)

-- Whatever a call of the reassembler does, its callbacks keep the count.
pub reassemble-IsKept :
    (d : ℕ → ℕ) (f : Reassembler → Reassembler) (a : Assembler)
    → IsKept d a
    → IsKept d (reassemble f a)
unfolding reassemble
reassemble-IsKept d f a k =
    call_back_each-IsKept d (f a.reassembler).told _
      (record { map = k.map; balanced = k.balanced; pending = k.pending; told = k.told })

-- The change `q` is about to own `n` streams.
abbrev pub owing : ℕ → ℕ → ℕ → ℕ
owing q n p = if q == p then n else 0

abbrev pub nothing_owed : ℕ → ℕ
nothing_owed p = 0

owing-suc : (q n p : ℕ) → owing q (suc n) p ≡ owing q n p + one (q == p)
owing-suc q n p = ground arith

own-IsKept :
    (q n i : ℕ) (id : Text) (a : Assembler)
    → get id a.owner ≡ none
    → IsKept (owing q (suc n)) a
    → IsKept (owing q n) (own id (record { change = q; slot = i }) a)
own-IsKept q n i id a free k = record {
  map = set-IsMap id _ a.owner k.map;
  balanced = λ p. omega (
    arith,
    k.balanced p,
    owing-suc q n p,
    owned-set p id (record { change = q; slot = i }) a.owner free,
  );
  pending = k.pending;
  told = k.told;
}

free_owner : (o : Option Place) → is_owned o ≡ false → o ≡ none
free_owner none h = refl
free_owner (some place) h = cc

declare_chunked-IsKept :
    (now q n i : ℕ) (r : Rep) (id : Text) (a : Assembler)
    → IsKept (owing q (suc n)) a
    → IsKept (owing q n) (declare_chunked now (record { change = q; slot = i }) r (some id) a)
declare_chunked-IsKept now q n i r id a k =
    let place : Place = record { change = q; slot = i } in
    elim (Bool-cases (is_owned (get id a.owner))) [
      | inl e ↦ rw e (settle-IsKept (owing q n) place _ a (IsKept-same (owing-suc q n) k))
      | inr e ↦ rw e (
          reassemble-IsKept (owing q n) (declare now (declared_of r id)) (own id place a)
            (own-IsKept q n i id a (free_owner (get id a.owner) e) k))
    ]

declare_next-IsKept :
    (now q n i : ℕ) (r : Rep) (o : Option Text) (a : Assembler)
    → IsKept (owing q (elim o [ none ↦ n | some id ↦ suc n ])) a
    → IsKept (owing q n) (declare_chunked now (record { change = q; slot = i }) r o a)
declare_next-IsKept now q n i r none a k = k
declare_next-IsKept now q n i r (some id) a k = declare_chunked-IsKept now q n i r id a k

declare_each-IsKept :
    (now q i : ℕ) (rs : List Rep) (a : Assembler)
    → IsKept (owing q (count_chunked rs)) a
    → IsKept (owing q 0) (declare_each now q i rs a)
unfolding declare_each
declare_each-IsKept now q i [] a k = k
declare_each-IsKept now q i (r ∷ rs) a k =
    declare_each-IsKept now q (suc i) rs _
      (declare_next-IsKept now q (count_chunked rs) i r (chunked_id r) a k)

pub handle_changed-IsKept :
    (codec : Codec) (now : ℕ) (w : ChangedWire) (a : Assembler)
    → IsKept nothing_owed a
    → IsKept nothing_owed (handle_changed codec now w a)
unfolding handle_changed
handle_changed-IsKept codec now w a k =
    let q = length a.changes in
    let n = count_chunked w.reps in
    let cs = a.changes ++ change_of codec w ∷ [] in
    let next : (p : ℕ) → left p cs ≡ (if p == q then n else left p a.changes) =
      λ p. left-append p a.changes (change_of codec w) in
    let long : length cs ≡ suc q =
      omega (arith, length-append a.changes (change_of codec w ∷ [])) in
    let new : left q a.changes ≡ 0 = left-beyond q a.changes (ground arith) in
    elim (Bool-cases (n == 0)) [
      | inl e ↦ rw e (
          finish-IsKept nothing_owed q (record a { changes = cs }) (omega (arith, long))
            (ground (arith, e, next q)) k.map (λ p. ground (arith, e, next p, new, k.balanced p))
            (λ p. ground (arith, e, next p, new, k.pending p))
            (λ p. ground (arith, e, next p, new, long, k.told p)))
      | inr e ↦ rw e (
          IsKept-same (λ p. ground arith)
            (declare_each-IsKept now q 0 w.reps _ (record {
              map = k.map;
              balanced = λ p. ground (arith, e, next p, new, k.balanced p, k.balanced q);
              pending = λ p.
                  ground (arith, e, next p, new, k.pending p, occurs-append p a.pending (q ∷ []));
              told = λ p. ground (arith, e, next p, new, long, k.told p);
            })))
    ]
