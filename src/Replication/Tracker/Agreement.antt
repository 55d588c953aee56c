-- ===== src/Replication/Tracker/Agreement.antt =====
-- The lag of the tracker and the lag that the failover checks.
use redis_admin.Base.{◌≡◌, refl, ap, [], ◌∷◌, Str, str, ℤ, lookup_str, parse_int}
use redis_admin.Errors.{Cause, Err, is, wrap, typed, node_unreachable, Result, ok, err}
use redis_admin.Redis.{Redis}
use redis_admin.Info.{parse_info, parse_info_kv}
use redis_admin.Info.Equivalence.{parse_info-parse_info_kv}
use redis_admin.Operations.Failover.{lag_of, lag_between}
use redis_admin.Operations.Failover
use redis_admin.Replication.Tracker.{
  Lag, fetch_master_offset, lag_at, offset_of, lag_result, fetch_replica_lag,
}

abbrev lag_bytes_of : Result Lag → Result ℤ
lag_bytes_of (err e) = err e
lag_bytes_of (ok lag) = ok lag.lag_bytes

-- the lag as the tracker computes it from the two nodes
unfoldable pub tracked_lag : Redis → Str → Str → Result ℤ
unfolding fetch_master_offset fetch_replica_lag
tracked_lag r master_addr replica_addr = elim (fetch_master_offset r master_addr) [
  | err e ↦ err e
  | ok offset ↦ lag_bytes_of (fetch_replica_lag r replica_addr offset)
]

-- the same value, or errors of the same causes
pub data Same : Result ℤ → Result ℤ → Type 0 where
  both_ok : {a b : ℤ} → a ≡ b → Same (ok a) (ok b)
  both_err : (e f : Err) → ((c : Cause) → is c e ≡ is c f) → Same (err e) (err f)

same_field :
    (field raw : Str)
    → (parse_int (lookup_str field (parse_info raw))).0
      ≡ (parse_int (lookup_str field (parse_info_kv raw))).0
same_field field raw = ap (λ kv. (parse_int (lookup_str field kv)).0) (parse_info-parse_info_kv raw)

-- Against the same replies the tracker and the failover compute the same lag of a replica, or both
-- fail with the same causes, although each has its own parser of INFO.
tracked_lag-Same :
    (r : Redis) (master_addr replica_addr : Str)
    → Same
        (tracked_lag r master_addr replica_addr)
        (Failover.fetch_replica_lag r master_addr replica_addr)
unfolding tracked_lag Failover.fetch_replica_lag is lag_at lag_between
tracked_lag-Same r m s = go (r.info m (str "replication" ∷ [])) (r.info s (str "replication" ∷ []))
  where
    go :
        (x y : Result Str)
        → Same
            (elim (offset_of (str "INFO replication on master") (str "master_repl_offset") x) [
              | err e ↦ err e
              | ok offset ↦ lag_bytes_of (
                  lag_result offset
                    (offset_of (str "INFO replication on replica") (str "slave_repl_offset") y))
            ])
            (lag_of
              (elim x [
                | err e ↦ err (wrap (str "INFO replication") (typed node_unreachable))
                | ok raw ↦
                    ok (parse_int (lookup_str (str "master_repl_offset") (parse_info_kv raw))).0
              ])
              (elim y [
                | err e ↦ err (wrap (str "INFO replication") (typed node_unreachable))
                | ok raw ↦
                    ok (parse_int (lookup_str (str "slave_repl_offset") (parse_info_kv raw))).0
              ]))
    go (err e) y = both_err _ _ (λ c. refl)
    go (ok a) (err e) = both_err _ _ (λ c. refl)
    go (ok a) (ok b) =
        both_ok
          (cc (same_field (str "master_repl_offset") a, same_field (str "slave_repl_offset") b))
