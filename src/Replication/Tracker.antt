-- ===== src/Replication/Tracker.antt =====
-- internal/replication/tracker.go: the lag of every replica, and the last samples of each.
pub mod Trend
pub mod Recency
pub mod Agreement
use redis_admin.Base.{
  ℕ, suc, ◌*◌, ◌^◌, Bool, true, false, not, Option, none, some, List, [], ◌∷◌, ◌++◌, Str, str, Dict,
  lookup, insert, lookup_str, ℤ, pos, lt_int, sub64, parse_int, if◌then◌else◌,
}
use redis_admin.Errors.{Err, typed, wrap, join_errors, node_unreachable, Result, ok, err}
use redis_admin.Config.{Config}
use redis_admin.Redis.{Redis}
use redis_admin.Ring.{push_bounded}
use redis_admin.Float.{Float64}
use redis_admin.Info.{parse_info}
use redis_admin.Sentinel.Topology.{NodeAddresses, get_node_addresses}

pub record LagSample : Type 0 where
  pub lag_bytes : ℤ
  pub at_time : ℕ

pub record ReplicaLag (F : Type 0) : Type 0 where
  pub node_addr : Str
  pub master_offset : ℤ
  pub replica_offset : ℤ
  pub lag_bytes : ℤ
  pub is_caught_up : Bool
  pub lag_trend : List LagSample
  pub promotion_score : F

abbrev pub Samples : Type 0
Samples = Dict (List LagSample)

-- lagRingSize, caughtUpThresh
abbrev pub lag_ring_size : ℕ
lag_ring_size = 10

abbrev pub caught_up_thresh : ℕ
caught_up_thresh = 1048576

abbrev pub max_lag : ℕ
max_lag = 104857600

abbrev offset_of : Str → Str → Result Str → Result ℤ
offset_of label field (err e) = err (wrap label (typed node_unreachable))
offset_of label field (ok raw) = ok (parse_int (lookup_str field (parse_info raw))).0

unfoldable pub fetch_master_offset : Redis → Str → Result ℤ
unfolding parse_info lookup_str parse_int
fetch_master_offset r addr =
    offset_of (str "INFO replication on master") (str "master_repl_offset")
      (r.info addr (str "replication" ∷ []))

-- what fetchReplicaLag returns: the replica's offset, the lag, and whether it has caught up
pub record Lag : Type 0 where
  pub replica_offset : ℤ
  pub lag_bytes : ℤ
  pub is_caught_up : Bool

unfoldable pub lag_at : ℤ → ℤ → Lag
unfolding sub64
lag_at master_offset replica_offset =
    let diff = sub64 master_offset replica_offset in
    let lag = if lt_int diff (pos 0) then pos 0 else diff in
    record {
      replica_offset = replica_offset;
      lag_bytes = lag;
      is_caught_up = lt_int lag (pos caught_up_thresh);
    }

abbrev lag_result : ℤ → Result ℤ → Result Lag
lag_result master_offset (err e) = err e
lag_result master_offset (ok offset) = ok (lag_at master_offset offset)

unfoldable pub fetch_replica_lag : Redis → Str → ℤ → Result Lag
unfolding lag_at parse_info lookup_str parse_int
fetch_replica_lag r addr master_offset = lag_result master_offset (
    offset_of (str "INFO replication on replica") (str "slave_repl_offset")
      (r.info addr (str "replication" ∷ [])))

-- s.samples[addr], which is empty for a replica without samples
abbrev samples_or_none : Option (List LagSample) → List LagSample
samples_or_none none = []
samples_or_none (some ring) = ring

unfoldable pub get_trend : Samples → Str → List LagSample
unfolding lookup
get_trend samples addr = samples_or_none (lookup addr samples)

unfoldable pub record_sample : Samples → Str → LagSample → Samples
unfolding get_trend push_bounded insert
record_sample samples addr s =
    insert addr (push_bounded lag_ring_size (get_trend samples addr) s) samples

module _ {F : Type 0} (fl : Float64 F) where
  unfoldable pub promotion_score : ℤ → F
  promotion_score lag_bytes =
      if not (lt_int (pos 0) lag_bytes)
      then fl.of_int (pos 100)
      else if not (lt_int lag_bytes (pos max_lag))
      then fl.of_int (pos 0)
      else fl.mul (fl.of_int (pos 100))
          (fl.sub (fl.of_int (pos 1)) (fl.div (fl.of_int lag_bytes) (fl.of_int (pos max_lag))))

  -- one round of the loop: the sample is recorded before the trend is read
  unfoldable pub replica_lag : Str → ℤ → Samples → Lag → ReplicaLag F
  unfolding get_trend promotion_score
  replica_lag addr master_offset samples lag = record {
    node_addr = addr;
    master_offset = master_offset;
    replica_offset = lag.replica_offset;
    lag_bytes = lag.lag_bytes;
    is_caught_up = lag.is_caught_up;
    lag_trend = get_trend samples addr;
    promotion_score = promotion_score lag.lag_bytes;
  }

  -- the loop over the replicas, with the clock by the round: what it appends to the lags and to the
  -- errors, and the samples after it
  unfoldable pub lag_loop :
      Redis → (ℕ → ℕ) → ℕ → ℤ → List Str → Samples → List (ReplicaLag F) × List Err × Samples
  unfolding fetch_replica_lag record_sample replica_lag
  lag_loop r clock i master_offset [] samples = ([], [], samples)
  lag_loop r clock i master_offset (addr ∷ addrs) samples =
      elim (fetch_replica_lag r addr master_offset) [
        | err e ↦
            let rest = lag_loop r clock (suc i) master_offset addrs samples in
            (rest.0, wrap (str "replica " ++ addr) e ∷ rest.1, rest.2)
        | ok lag ↦
            let samples' =
              record_sample samples addr
                (record { lag_bytes = lag.lag_bytes; at_time = clock i }) in
            let rest = lag_loop r clock (suc i) master_offset addrs samples' in
            (replica_lag addr master_offset samples' lag ∷ rest.0, rest.1, rest.2)
      ]

  abbrev from_offset :
      Redis → (ℕ → ℕ) → Samples → List Str → Result ℤ → List (ReplicaLag F) × Option Err × Samples
  from_offset r clock samples replicas (err e) = ([], some (wrap (str "master offset") e), samples)
  from_offset r clock samples replicas (ok offset) =
      let all = lag_loop r clock 0 offset replicas samples in (all.0, join_errors all.1, all.2)

  -- GetReplicationLag: the lags, the error, and the samples after it
  unfoldable pub get_replication_lag :
      Redis → Config → (ℕ → ℕ) → Samples → List (ReplicaLag F) × Option Err × Samples
  unfolding get_node_addresses fetch_master_offset lag_loop
  get_replication_lag r cfg clock samples = elim (get_node_addresses r cfg) [
    | err e ↦ ([], some (wrap (str "get replication lag") e), samples)
    | ok addrs ↦ from_offset r clock samples addrs.replicas (fetch_master_offset r addrs.master)
  ]
