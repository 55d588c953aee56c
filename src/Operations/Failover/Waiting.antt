-- ===== src/Operations/Failover/Waiting.antt =====
-- When the wait for the new master ends, and what it returns.
use native.Mathlib.Decide.{ℕ_discrete}
use redis_admin.Base.{
  ℕ, zero, suc, ◌+◌, ◌*◌, ◌≤◌, ◌<◌, ◌≡◌, refl, ap, ◌≢◌, inl, inr, false, Option, none, some, arith,
  Str, is_empty, eq_str_iff, ltb, Bool-cases, ltb→lt,
}
use redis_admin.Errors.{Err, Result, ok, err}
use redis_admin.Sentinel.Topology.{NodeAddresses}
use redis_admin.Operations.Failover.{
  Wait, new_master_of, wait_round, wait_from, wait_for_new_master, failover_wait_timeout,
}

-- Each round sleeps for a second, so that the clock is at least so far on.
abbrev pub Ticking : Wait → Type 0
Ticking w = (i : ℕ) → w.start + 1000 * i ≤ w.now i

abbrev Ends : Option (Result Str) → Type 0
Ends o = (q : Result Str) × (o ≡ some q)

wait_round-Ends :
    (w : Wait) (old : Str) (i : ℕ) (rest : Option (Result Str))
    → (w.now i < w.start + failover_wait_timeout → Ends rest)
    → Ends (wait_round w old i rest)
unfolding wait_round
wait_round-Ends w old i rest h =
    elim (Bool-cases (ltb (w.now i) (w.start + failover_wait_timeout))) [
      | inl e ↦ rw e (go (w.cancelled i) (new_master_of old (w.poll i)) (h (ltb→lt _ _ e)))
      | inr e ↦ rw e ((_, refl))
    ]
  where
    go :
        (c : Option Err) (m : Option Str)
        → Ends rest
        → Ends (elim c [
          | some e ↦ some (err e)
          | none ↦ elim m [ some m ↦ some (ok m) | none ↦ rest ]
        ])
    go (some e) m r = (_, refl)
    go none (some x) r = (_, refl)
    go none none r = r

wait_from-Ends :
    (w : Wait) (old : Str) (fuel i : ℕ)
    → Ticking w
    → i ≤ 45
    → 46 ≤ fuel + i
    → Ends (wait_from w old fuel i)
unfolding wait_from
wait_from-Ends w old zero i t l h = absurd (omega arith)
wait_from-Ends w old (suc fuel) i t l h =
    wait_round-Ends w old i (wait_from w old fuel (suc i)) λ early.
      wait_from-Ends w old fuel (suc i) t (omega (arith, t i, early)) (omega (arith, t i, early))

-- On a clock that moves by the second of each round's sleep, the wait ends: the fuel of 46 rounds
-- is enough for the time-out of 45 seconds.
pub wait_for_new_master-Ends : (w : Wait) (old : Str) → Ticking w → Ends (wait_for_new_master w old)
unfolding wait_for_new_master
wait_for_new_master-Ends w old t = wait_from-Ends w old 46 0 t (omega arith) (omega arith)

-- what a round saw when it returned the new master
pub record Appeared (w : Wait) (old : Str) (from : ℕ) (m : Str) : Type 0 where
  pub round : ℕ
  pub reached : from ≤ round
  pub in_time : w.now round < w.start + failover_wait_timeout
  pub running : w.cancelled round ≡ none
  pub reported : new_master_of old (w.poll round) ≡ some m
  pub first : (k : ℕ) → from ≤ k → k < round → new_master_of old (w.poll k) ≡ none

-- a poll counts only if it reports a master, and another one
pub new_master_of_lem :
    (old : Str) (p : Result NodeAddresses) (m : Str)
    → new_master_of old p ≡ some m
    → (is_empty m ≡ false) × (m ≢ old)
unfolding new_master_of
new_master_of_lem old (err e) m h = absurd (cc)
new_master_of_lem old (ok a) m h = (ground arith, λ e. ground (arith, eq_str_iff a.master old))

Appeared-suc :
    (w : Wait) (old : Str) (i : ℕ) (m : Str)
    → new_master_of old (w.poll i) ≡ none
    → Appeared w old (suc i) m
    → Appeared w old i m
Appeared-suc w old i m e a = record {
  round = a.round;
  reached = omega (arith, a.reached);
  in_time = a.in_time;
  running = a.running;
  reported = a.reported;
  first = λ k l h. elim (ℕ_discrete i k) [
    | yes q ↦ cc (ap (λ j. new_master_of old (w.poll j)) q)
    | no q ↦ a.first k (omega arith) h
  ];
}

wait_round-Appeared :
    (w : Wait) (old : Str) (i : ℕ) (m : Str) (rest : Option (Result Str))
    → (rest ≡ some (ok m) → Appeared w old (suc i) m)
    → wait_round w old i rest ≡ some (ok m)
    → Appeared w old i m
unfolding wait_round
wait_round-Appeared w old i m rest ih h =
    elim (Bool-cases (ltb (w.now i) (w.start + failover_wait_timeout))) [
      | inl e ↦
          go (w.cancelled i) (new_master_of old (w.poll i)) (ltb→lt _ _ e) refl refl (rw e at h)
      | inr e ↦ absurd (late (rw e at h))
    ]
  where
    late : {x : Err} → ◌≡◌ {A = Option (Result Str)} (some (err x)) (some (ok m)) → ⊥
    late h = cc

    go :
        (c : Option Err) (p : Option Str)
        → w.now i < w.start + failover_wait_timeout
        → w.cancelled i ≡ c
        → new_master_of old (w.poll i) ≡ p
        → ◌≡◌ {A = Option (Result Str)}
            (elim c [
              | some e ↦ some (err e)
              | none ↦ elim p [ some m ↦ some (ok m) | none ↦ rest ]
            ])
            (some (ok m))
        → Appeared w old i m
    go (some e) p l c q h = absurd (cc)
    go none none l c q h = Appeared-suc w old i m q (ih h)
    go none (some x) l c q h = record {
      round = i;
      reached = omega arith;
      in_time = l;
      running = c;
      reported = cc;
      first = λ k l h. absurd (omega arith);
    }

wait_from-Appeared :
    (w : Wait) (old : Str) (fuel i : ℕ) (m : Str)
    → wait_from w old fuel i ≡ some (ok m)
    → Appeared w old i m
unfolding wait_from
wait_from-Appeared w old zero i m h = absurd (cc)
wait_from-Appeared w old (suc fuel) i m h =
    wait_round-Appeared w old i m (wait_from w old fuel (suc i))
      (wait_from-Appeared w old fuel (suc i) m) h

-- A master that the wait returns is the first that a round before the time-out reported as not
-- empty and other than the old one, while the context was not cancelled.
pub wait_for_new_master-Appeared :
    (w : Wait) (old m : Str)
    → wait_for_new_master w old ≡ some (ok m)
    → Appeared w old 0 m × (is_empty m ≡ false) × (m ≢ old)
unfolding wait_for_new_master
wait_for_new_master-Appeared w old m h =
    let a = wait_from-Appeared w old 46 0 m h in
    let l = new_master_of_lem old (w.poll a.round) m a.reported in (a, l.0, l.1)
