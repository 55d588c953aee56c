-- ===== src/Samples/Cluster.antt =====
-- A cluster of one sentinel, a master and two replicas, as the client shows it.
use redis_admin.Base.{
  ℕ, ◌+◌, ◌*◌, ◌≤◌, ◌≡◌, refl, Bool, true, false, Option, none, some, List, [], ◌∷◌, ◌++◌, arith,
  Str, str, eq_str, is_empty, ◌≢◌, ◌==◌, ℤ, pos, Dict, if◌then◌else◌,
}
use redis_admin.Errors.{typed, wrap, node_unreachable, deadline_exceeded, ok, err}
use redis_admin.Redis.{Redis, unreachable}
use redis_admin.Config.{Config}
use redis_admin.Sentinel.Topology.{get_topology, get_node_addresses}
use redis_admin.Sentinel.Topology.Laws.{Agrees, get_topology-Agrees}
use redis_admin.Operations.Failover.{
  quorum_ok, lag_fine, selected, sent_failover, notified, Outcome, Wait, wait_for_new_master,
  failover,
}
use redis_admin.Operations.Failover.Waiting.{Ticking, Appeared, wait_for_new_master-Appeared}
use redis_admin.Operations.Failover.Safety.{Ending, failover-Ending}
use redis_admin.Operations.Failover.Termination.{Returns, failover_ends}

abbrev pub config : Config
config = record {
  sentinel_addrs = str "s:1" ∷ [];
  master_name = str "m";
  sentinel_password = [];
  redis_password = [];
  k8s_namespace = [];
  log_level = [];
  http_port = pos 8080;
  metrics_port = pos 9090;
  poll_interval = pos 15000000000;
  slowlog_interval = pos 60000000000;
  webhook_url = [];
}

abbrev replica_entry : Str → Dict Str
replica_entry ip = (str "ip", ip) ∷ (str "port", str "1") ∷ (str "flags", str "slave") ∷ []

abbrev info_reply : Str → Str
info_reply addr =
    if eq_str addr (str "a:1")
    then str "master_repl_offset:90"
    else if eq_str addr (str "b:1")
    then str "slave_repl_offset:70"
    else str "slave_repl_offset:80"

abbrev pub cluster : Redis
cluster = record (unreachable (typed deadline_exceeded)) {
  ping = λ a. none;
  ck_quorum = λ a m. ok (str "OK 1 usable Sentinels");
  get_master_addr = λ a m. ok (str "a" ∷ str "1" ∷ []);
  replicas = λ a m. ok (replica_entry (str "b") ∷ replica_entry (str "c") ∷ []);
  sentinel_failover = λ a m. none;
  info = λ a s. ok (info_reply a);
}

-- the poll after two seconds reports the new master
abbrev pub steady : Wait
steady = record {
  start = 10;
  now = λ i. 10 + 1000 * i;
  cancelled = λ i. none;
  poll = λ i. ok (record { master = if i == 2 then str "c:1" else str "a:1"; replicas = [] });
}

steady-Ticking : Ticking steady
steady-Ticking i = omega arith

abbrev pub done : Outcome
done = record {
  result = some (record {
    dry_run = false;
    pre_checks =
        quorum_ok (ok (str "OK 1 usable Sentinels"))
        ∷ lag_fine (str "b:1") (pos 20)
        ∷ lag_fine (str "c:1") (pos 10)
        ∷ selected (str "c:1") (pos 10)
        ∷ [];
    selected_replica = str "c:1";
    old_master = str "a:1";
    new_master = str "c:1";
    elapsed_ms = 2100;
  });
  error = none;
  effects = sent_failover (str "s:1") (str "m") ∷ notified (str "a:1") (str "c:1") ∷ [];
}

done_run : failover cluster config steady 2100 false ≡ some done
unfolding failover redis_admin.Base.insert
done_run = refl

failover-Ending_example : Ending cluster config false done
failover-Ending_example = failover-Ending cluster config steady 2100 false done done_run

failover_ends_example : Returns (failover cluster config steady 2100 false)
failover_ends_example = failover_ends cluster config steady 2100 false steady-Ticking

steady_run : wait_for_new_master steady (str "a:1") ≡ some (ok (str "c:1"))
unfolding wait_for_new_master
steady_run = refl

wait_for_new_master-Appeared_example :
    Appeared steady (str "a:1") 0 (str "c:1")
    × (is_empty (str "c:1") ≡ false)
    × (str "c:1" ≢ str "a:1")
wait_for_new_master-Appeared_example =
    wait_for_new_master-Appeared steady (str "a:1") (str "c:1") steady_run

get_topology-Agrees_example :
    Agrees (get_topology cluster config 7) (get_node_addresses cluster config)
get_topology-Agrees_example = get_topology-Agrees cluster config 7

abbrev silent_cluster : Redis
silent_cluster = unreachable (typed deadline_exceeded)

silent_run :
    get_node_addresses silent_cluster config
    ≡ err (wrap (str "get node addresses") (typed node_unreachable))
unfolding get_node_addresses
silent_run = refl
