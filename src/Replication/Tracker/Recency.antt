-- ===== src/Replication/Tracker/Recency.antt =====
-- What GetReplicationLag returns for a replica.
use mathlib.Core.Path.{subst}
use redis_admin.Base.{
  ap, ◌∙◌, true, false, ℕ, suc, pos_part, sub64, ltb, ◌*◌, ◌≤◌, ◌<◌, sym, negsuc, if◌then◌else◌,
  Bool-cases, inl, inr, ◌-◌, ◌≡◌, refl, ◌∙◌, Option, some, List, [], ◌∷◌, ◌++◌, arith, Str, str,
  eq_str_refl, ℤ, pos, lt_int, length, drop, All,
}
use redis_admin.Errors.{Err, wrap, Result, ok, err}
use redis_admin.Config.{Config}
use redis_admin.Redis.{Redis}
use redis_admin.Float.{Float64}
use redis_admin.Ring.{push_bounded_ends}
use redis_admin.Sentinel.Topology.{get_node_addresses}
use redis_admin.Replication.Tracker.{
  LagSample, ReplicaLag, Samples, Lag, lag_at, lag_ring_size, max_lag, get_trend, record_sample,
  replica_lag, fetch_master_offset, fetch_replica_lag, lag_loop, from_offset, lag_result, offset_of,
  promotion_score, get_replication_lag,
}
use redis_admin.Replication.Tracker.Trend.{get_trend-record_sample}

-- the score of a lag of so many bytes: 100 where there is none, 0 from 100 MiB on, and in between what
-- is left of 100 in proportion
pub data IsScore {F : Type 0} (fl : Float64 F) (bytes : ℕ) (score : F) : Type 0 where
  none_behind : bytes ≡ 0 → score ≡ fl.of_int (pos 100) → IsScore fl bytes score
  too_far : 100 * 1048576 ≤ bytes → score ≡ fl.of_int (pos 0) → IsScore fl bytes score
  between :
      1 ≤ bytes
      → bytes < 100 * 1048576
      → score
        ≡ fl.mul (fl.of_int (pos 100)) (
            fl.sub (fl.of_int (pos 1)) (fl.div (fl.of_int (pos bytes)) (fl.of_int (pos 104857600))))
      → IsScore fl bytes score

-- The lag is the difference of the offsets, the trend ends with it, and the score is the one of the lag.
pub record Recent {F : Type 0} (fl : Float64 F) (l : ReplicaLag F) : Type 0 where
  pub front : List LagSample
  pub time : ℕ
  pub last_sample : l.lag_trend ≡ front ++ record { lag_bytes = l.lag_bytes; at_time = time } ∷ []
  pub lag : l.lag_bytes ≡ pos (pos_part (sub64 l.master_offset l.replica_offset))
  pub scored : IsScore fl (pos_part l.lag_bytes) l.promotion_score
  pub caught_up : l.is_caught_up ≡ ltb (pos_part l.lag_bytes) 1048576

record_sample_ends :
    (samples : Samples) (addr : Str) (s : LagSample)
    → get_trend (record_sample samples addr s) addr
      ≡ drop (length (get_trend samples addr ++ s ∷ []) - lag_ring_size) (get_trend samples addr)
        ++ s ∷ []
record_sample_ends samples addr s =
    get_trend-record_sample samples addr addr s
    ∙ rw eq_str_refl (push_bounded_ends lag_ring_size (get_trend samples addr) s (omega arith))

-- the two fields that fetchReplicaLag derives
abbrev Derived : ℤ → Lag → Type 0
Derived mo lag =
    (lag.lag_bytes ≡ pos (pos_part (sub64 mo lag.replica_offset)))
    × (lag.is_caught_up ≡ ltb (pos_part lag.lag_bytes) 1048576)

clamped : (d : ℤ) → (if lt_int d (pos 0) then pos 0 else d) ≡ pos (pos_part d)
clamped (pos n) = ground arith
clamped (negsuc n) = ground arith

below_mebibyte :
    (d : ℤ)
    → lt_int (if lt_int d (pos 0) then pos 0 else d) (pos 1048576)
      ≡ ltb (pos_part (if lt_int d (pos 0) then pos 0 else d)) 1048576
below_mebibyte (pos n) = ground arith
below_mebibyte (negsuc n) = ground arith

Derived-inv :
    (mo o : ℤ) {lag : Lag} → ◌≡◌ {A = Result Lag} (ok (lag_at mo o)) (ok lag) → Derived mo lag
unfolding lag_at
Derived-inv mo o {lag} h =
    let d : Derived mo (lag_at mo o) = (clamped (sub64 mo o), below_mebibyte (sub64 mo o)) in
    let e : lag_at mo o ≡ lag = cc in subst (Derived mo) e d

fetch_replica_lag-Derived :
    (r : Redis) (addr : Str) (mo : ℤ) (lag : Lag)
    → fetch_replica_lag r addr mo ≡ ok lag
    → Derived mo lag
unfolding fetch_replica_lag lag_at
fetch_replica_lag-Derived r addr mo lag h = go (r.info addr (str "replication" ∷ [])) h
  where
    go :
        (x : Result Str)
        → lag_result mo (offset_of (str "INFO replication on replica") (str "slave_repl_offset") x)
          ≡ ok lag
        → Derived mo lag
    go (err e) h = absurd (cc)
    go (ok raw) h = Derived-inv mo _ h

promotion_score-IsScore :
    {F : Type 0} (fl : Float64 F) (n : ℕ) → IsScore fl n (promotion_score fl (pos n))
unfolding promotion_score
promotion_score-IsScore fl n = elim (Bool-cases (lt_int (pos 0) (pos n))) [
  | inr z ↦ none_behind (ground arith) (rw z refl)
  | inl some_bytes ↦ elim (Bool-cases (lt_int (pos n) (pos max_lag))) [
    | inr far ↦ too_far (ground arith) (rw (some_bytes, far) refl)
    | inl near ↦ between (ground arith) (ground arith) (rw (some_bytes, near) refl)
  ]
]

-- there is one score
IsScore-unique :
    {F : Type 0} (fl : Float64 F) (n : ℕ) (score : F)
    → IsScore fl n score
    → score ≡ promotion_score fl (pos n)
unfolding promotion_score
IsScore-unique fl n score (none_behind e q) =
    let z : lt_int (pos 0) (pos n) ≡ false = ground (arith, e) in rw (q, z) refl
IsScore-unique fl n score (too_far far q) =
    let p : lt_int (pos 0) (pos n) ≡ true = ground (arith, far) in
    let f : lt_int (pos n) (pos max_lag) ≡ false = ground (arith, far) in rw (q, p, f) refl
IsScore-unique fl n score (between lo hi q) =
    let p : lt_int (pos 0) (pos n) ≡ true = ground (arith, lo) in
    let f : lt_int (pos n) (pos max_lag) ≡ true = ground (arith, hi) in rw (q, p, f) refl

pub Recent-scored :
    {F : Type 0} (fl : Float64 F) (l : ReplicaLag F)
    → Recent fl l
    → l.promotion_score ≡ promotion_score fl l.lag_bytes
Recent-scored fl l s =
    IsScore-unique fl (pos_part l.lag_bytes) l.promotion_score s.scored
    ∙ ap (promotion_score fl) (rw s.lag refl)

module _ {F : Type 0} (fl : Float64 F) (r : Redis) (clock : ℕ → ℕ) (mo : ℤ) where
  replica_lag-Recent :
      (addr : Str) (samples : Samples) (lag : Lag) (t : ℕ)
      → Derived mo lag
      → Recent fl (
          replica_lag fl addr mo
            (record_sample samples addr (record { lag_bytes = lag.lag_bytes; at_time = t }))
            lag)
  unfolding replica_lag
  replica_lag-Recent addr samples lag t d = record {
    front =
        drop
          (length (get_trend samples addr ++ record { lag_bytes = lag.lag_bytes; at_time = t } ∷ [])
            - lag_ring_size)
          (get_trend samples addr);
    time = t;
    last_sample =
        record_sample_ends samples addr (record { lag_bytes = lag.lag_bytes; at_time = t });
    lag = d.0;
    scored =
        subst (λ x. IsScore fl (pos_part x) (promotion_score fl x)) (sym d.0)
          (promotion_score-IsScore fl (pos_part (sub64 mo lag.replica_offset)));
    caught_up = d.1;
  }

  lag_loop-Recent :
      (i : ℕ) (addrs : List Str) (samples : Samples)
      → All (Recent fl) (lag_loop fl r clock i mo addrs samples).0
  unfolding lag_loop
  lag_loop-Recent i [] samples = tt
  lag_loop-Recent i (addr ∷ addrs) samples =
      go (fetch_replica_lag r addr mo) refl (lag_loop-Recent (suc i) addrs)
    where
      go :
          (q : Result Lag)
          → fetch_replica_lag r addr mo ≡ q
          → ((s : Samples) → All (Recent fl) (lag_loop fl r clock (suc i) mo addrs s).0)
          → All
              (Recent fl)
              (elim q as (λ x. List (ReplicaLag F) × List Err × Samples) [
                | err e ↦
                    let rest = lag_loop fl r clock (suc i) mo addrs samples in
                    (rest.0, wrap (str "replica " ++ addr) e ∷ rest.1, rest.2)
                | ok lag ↦
                    let samples' =
                      record_sample samples addr
                        (record { lag_bytes = lag.lag_bytes; at_time = clock i }) in
                    let rest = lag_loop fl r clock (suc i) mo addrs samples' in
                    (replica_lag fl addr mo samples' lag ∷ rest.0, rest.1, rest.2)
              ]).0
      go (err e) h ih = ih samples
      go (ok lag) h ih = (
        replica_lag-Recent addr samples lag (clock i) (fetch_replica_lag-Derived r addr mo lag h),
        ih _,
      )

-- Each lag that GetReplicationLag returns, at any state of the samples, is the difference of its
-- two offsets, 0 where the replica is ahead, is caught up when it is below 1 MiB, is the last
-- sample of the trend that comes with it, and has the promotion score of its bytes.
pub get_replication_lag-Recent :
    {F : Type 0} (fl : Float64 F) (r : Redis) (cfg : Config) (clock : ℕ → ℕ) (samples : Samples)
    → All (Recent fl) (get_replication_lag fl r cfg clock samples).0
unfolding get_replication_lag
get_replication_lag-Recent {F} fl r cfg clock samples =
    elim (get_node_addresses r cfg)
      as (λ q.
        All (Recent fl)
          (elim q as (λ x. List (ReplicaLag F) × Option Err × Samples) [
            | err e ↦ ([], some (wrap (str "get replication lag") e), samples)
            | ok addrs ↦
                from_offset fl r clock samples addrs.replicas (fetch_master_offset r addrs.master)
          ]).0) [ err e ↦ tt | ok addrs ↦ go (fetch_master_offset r addrs.master) addrs.replicas ]
  where
    go :
        (o : Result ℤ) (replicas : List Str)
        → All (Recent fl) (from_offset fl r clock samples replicas o).0
    go (err e) replicas = tt
    go (ok offset) replicas = lag_loop-Recent fl r clock offset 0 replicas samples
