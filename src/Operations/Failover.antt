-- ===== src/Operations/Failover.antt =====
-- internal/operations/failover.go: the graceful failover, with its pre-flight checks, the command
-- to the sentinel, and the wait for the new master. The texts of the pre-checks are data.
pub mod Choice
pub mod Waiting
pub mod Safety
pub mod Termination
use redis_admin.Base.{
  ℕ, zero, suc, ◌+◌, ◌-◌, ◌*◌, Bool, true, false, not, ◌||◌, ◌&&◌, Option, none, some, List, [],
  ◌∷◌, ◌++◌, Str, str, is_empty, eq_str, lookup_str, ℤ, pos, lt_int, sub64, parse_int,
  if◌then◌else◌, ltb,
}
use redis_admin.Errors.{Err, typed, other, wrap, node_unreachable, Result, ok, err}
use redis_admin.Config.{Config}
use redis_admin.Redis.{Redis}
use redis_admin.Info.{parse_info_kv}
use redis_admin.Sentinel.Quorum.{says_ok}
use redis_admin.Sentinel.Topology.{NodeAddresses, get_node_addresses}

-- the notes of PreChecks
pub data Note : Type 0 where
  quorum_ok : Result Str → Note
  quorum_failed : Str → Result Str → Note
  lag_unavailable : Str → Err → Note
  lag_fine lag_warning selected : Str → ℤ → Note

pub record FailoverResult : Type 0 where
  pub dry_run : Bool
  pub pre_checks : List Note
  pub selected_replica : Str
  pub old_master : Str
  pub new_master : Str
  pub elapsed_ms : ℕ

pub record Candidate : Type 0 where
  pub addr : Str
  pub lag_bytes : ℤ

-- what the call does to the outside: SENTINEL FAILOVER to an address, and the webhook
pub data Effect : Type 0 where
  sent_failover : Str → Str → Effect
  notified : Str → Str → Effect

-- the result and the error of the call, either of which may be nil, and its effects
pub record Outcome : Type 0 where
  pub result : Option FailoverResult
  pub error : Option Err
  pub effects : List Effect

-- maxAcceptableLagBytes, failoverWaitTimeout in milliseconds
abbrev pub max_acceptable_lag_bytes : ℕ
max_acceptable_lag_bytes = 52428800

abbrev pub failover_wait_timeout : ℕ
failover_wait_timeout = 45000

-- fetchReplOffset
unfoldable pub fetch_repl_offset : Redis → Str → Str → Result ℤ
unfolding parse_info_kv lookup_str parse_int
fetch_repl_offset r addr field = elim (r.info addr (str "replication" ∷ [])) [
  | err e ↦ err (wrap (str "INFO replication") (typed node_unreachable))
  | ok raw ↦ ok (parse_int (lookup_str field (parse_info_kv raw))).0
]

-- the difference of the two offsets, not below 0
unfoldable pub lag_between : ℤ → ℤ → ℤ
unfolding sub64
lag_between master_offset replica_offset =
    let lag = sub64 master_offset replica_offset in if lt_int lag (pos 0) then pos 0 else lag

abbrev pub lag_of : Result ℤ → Result ℤ → Result ℤ
lag_of (err e) m = err (wrap (str "master offset") e)
lag_of (ok m) (err e) = err (wrap (str "replica offset") e)
lag_of (ok m) (ok s) = ok (lag_between m s)

-- fetchReplicaLag
unfoldable pub fetch_replica_lag : Redis → Str → Str → Result ℤ
unfolding fetch_repl_offset lag_between
fetch_replica_lag r master_addr replica_addr =
    lag_of (fetch_repl_offset r master_addr (str "master_repl_offset"))
      (fetch_repl_offset r replica_addr (str "slave_repl_offset"))

-- the loop over the sentinels: the notes, and whether one of them confirmed the quorum
unfoldable pub quorum_checks : Redis → Str → List Str → List Note × Bool
unfolding says_ok
quorum_checks r master [] = ([], false)
quorum_checks r master (addr ∷ addrs) =
    let rest = quorum_checks r master addrs in
    if says_ok (r.ck_quorum addr master)
    then (quorum_ok (r.ck_quorum addr master) ∷ [], true)
    else (quorum_failed addr (r.ck_quorum addr master) ∷ rest.0, rest.1)

abbrev add_candidate : Str → Result ℤ → List Note × List Candidate → List Note × List Candidate
add_candidate addr (err e) (notes, cs) = (lag_unavailable addr e ∷ notes, cs)
add_candidate addr (ok lag) (notes, cs) = (
  (if lt_int (pos max_acceptable_lag_bytes) lag then lag_warning addr lag else lag_fine addr lag)
      ∷ notes,
  record { addr = addr; lag_bytes = lag } ∷ cs,
)

-- the loop over the replicas: the notes, and the candidates
unfoldable pub lag_checks : Redis → Str → List Str → List Note × List Candidate
unfolding fetch_replica_lag
lag_checks r master [] = ([], [])
lag_checks r master (addr ∷ addrs) =
    add_candidate addr (fetch_replica_lag r master addr) (lag_checks r master addrs)

-- the loop that picks the candidate of the lowest lag
unfoldable pub pick_best : Candidate → List Candidate → Candidate
pick_best best [] = best
pick_best best (c ∷ cs) = pick_best (if lt_int c.lag_bytes best.lag_bytes then c else best) cs

-- reachableSentinelAddr
unfoldable pub reachable_sentinel_addr : Redis → List Str → Result Str
reachable_sentinel_addr r [] = err (typed node_unreachable)
reachable_sentinel_addr r (addr ∷ addrs) = elim (r.ping addr) [
  | none ↦ ok addr
  | some e ↦ reachable_sentinel_addr r addrs
]

-- What the wait meets: the time of its start, and at each round, from 0, the time in milliseconds,
-- the error of the context, and what GetNodeAddresses returns.
pub record Wait : Type 0 where
  pub start : ℕ
  pub now : ℕ → ℕ
  pub cancelled : ℕ → Option Err
  pub poll : ℕ → Result NodeAddresses

-- `err == nil && addrs.Master != "" && addrs.Master != oldMaster`
unfoldable pub new_master_of : Str → Result NodeAddresses → Option Str
unfolding eq_str
new_master_of old (err e) = none
new_master_of old (ok a) =
    if not (is_empty a.master) && not (eq_str a.master old) then some a.master else none

-- one round of the loop of waitForNewMaster, with what the rounds after it return
unfoldable pub wait_round : Wait → Str → ℕ → Option (Result Str) → Option (Result Str)
unfolding new_master_of
wait_round w old i rest =
    if ltb (w.now i) (w.start + failover_wait_timeout)
    then elim (w.cancelled i) [
      | some e ↦ some (err e)
      | none ↦ elim (new_master_of old (w.poll i)) [ some m ↦ some (ok m) | none ↦ rest ]
    ]
    else some (err (other (str "timed out waiting for new master to appear")))

-- the rounds from `i` on; `none` where the fuel runs out
unfoldable pub wait_from : Wait → Str → ℕ → ℕ → Option (Result Str)
wait_from w old zero i = none
wait_from w old (suc fuel) i = let rest = wait_from w old fuel (suc i) in wait_round w old i rest

-- waitForNewMaster, with fuel for one round more than the seconds of the time-out
unfoldable pub wait_for_new_master : Wait → Str → Option (Result Str)
unfolding wait_from wait_round
wait_for_new_master w old = wait_from w old 46 0

-- the end of the call, after the sentinel took the command
finish : FailoverResult → Str → Str → ℕ → Result Str → Outcome
finish res addr master elapsed (err e) = record {
  result = some res;
  error = some (wrap (str "failover: waiting for new master") e);
  effects = sent_failover addr master ∷ [];
}
finish res addr master elapsed (ok m) = record {
  result = some (record res { new_master = m; elapsed_ms = elapsed });
  error = none;
  effects = sent_failover addr master ∷ notified res.old_master m ∷ [];
}

-- the command to the sentinel
command : Redis → Config → Wait → ℕ → FailoverResult → Result Str → Option Outcome
unfolding finish wait_for_new_master
command r cfg w elapsed res (err e) = some (record {
  result = some res;
  error = some (wrap (str "failover: no reachable sentinel") e);
  effects = [];
})
command r cfg w elapsed res (ok addr) = elim (r.sentinel_failover addr cfg.master_name) [
  | some e ↦ some (record {
    result = some res;
    error = some (wrap (str "SENTINEL FAILOVER") e);
    effects = sent_failover addr cfg.master_name ∷ [];
  })
  | none ↦ elim (wait_for_new_master w res.old_master) [
    | none ↦ none
    | some m ↦ some (finish res addr cfg.master_name elapsed m)
  ]
]

-- the choice of the replica, and the end of a dry run
choose : Redis → Config → Wait → ℕ → FailoverResult → List Candidate → Option Outcome
unfolding pick_best reachable_sentinel_addr command
choose r cfg w elapsed res [] = some (record {
  result = some res;
  error = some (other (str "failover: no eligible replicas found"));
  effects = [];
})
choose r cfg w elapsed res (c ∷ cs) =
    let best = pick_best c cs in
    let res' = record res {
      selected_replica = best.addr;
      pre_checks = res.pre_checks ++ selected best.addr best.lag_bytes ∷ [];
    } in
    let run = command r cfg w elapsed res' (reachable_sentinel_addr r cfg.sentinel_addrs) in
    if res.dry_run
    then some (record {
      result = some (record res' { elapsed_ms = elapsed });
      error = none;
      effects = [];
    })
    else run

-- the result before the choice
abbrev pub started : Bool → Str → List Note → FailoverResult
started dry_run old_master notes = record {
  dry_run = dry_run;
  pre_checks = notes;
  selected_replica = [];
  old_master = old_master;
  new_master = [];
  elapsed_ms = 0;
}

-- the checks
checked : Redis → Config → Wait → ℕ → Bool → NodeAddresses → Option Outcome
unfolding quorum_checks lag_checks choose
checked r cfg w elapsed dry_run addrs =
    let quorum = quorum_checks r cfg.master_name cfg.sentinel_addrs in
    let lags = lag_checks r addrs.master addrs.replicas in
    let next = choose r cfg w elapsed (started dry_run addrs.master (quorum.0 ++ lags.0)) lags.1 in
    if quorum.1
    then next
    else some (record {
      result = some (started dry_run addrs.master quorum.0);
      error = some (other (str "failover: quorum not met"));
      effects = [];
    })

-- Failover, with the milliseconds that it has taken at its end
unfoldable pub failover : Redis → Config → Wait → ℕ → Bool → Option Outcome
unfolding get_node_addresses checked
failover r cfg w elapsed dry_run = elim (get_node_addresses r cfg) [
  | err e ↦ some (record {
    result = none;
    error = some (wrap (str "failover: resolve nodes") e);
    effects = [];
  })
  | ok addrs ↦ checked r cfg w elapsed dry_run addrs
]
