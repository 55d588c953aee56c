-- ===== src/Samples/Endpoints.antt =====
-- The endpoints and the other services on the cluster of the samples.
use mathlib.Core.Path.{subst}
use redis_admin.Base.{
  Dict, ℕ, ◌≤◌, ◌≡◌, refl, ◌↔◌, Bool, true, false, Option, none, some, List, [], ◌∷◌, ◌++◌, arith,
  Str, str, eq_str, ◌*◌, ℤ, pos, length, All,
}
use redis_admin.Errors.{Err, wrap, Result, ok}
use redis_admin.Redis.{Redis}
use redis_admin.Operations.ConfigDiff.{get_config_diff}
use redis_admin.Operations.ConfigDiff.Report.{Reported, get_config_diff-Reported}
use redis_admin.Chaos.Seed.{Command}
use redis_admin.Chaos.Trigger.{Ending, trigger_chaos_failover, trigger_chaos_failover-Ending}
use redis_admin.Diagnostics.Locks.{LockReport, get_stale_locks}
use redis_admin.Diagnostics.Locks.Sound.{Distinct}
use redis_admin.Diagnostics.Locks.Unique.{Expires, get_stale_locks-Expires}
use redis_admin.Keys.Ttl.NoTtl.{Documented, whole_seconds}
use mathlib.Core.Path.{subst}
use redis_admin.Diagnostics.Memory.{eviction_rate}
use redis_admin.Diagnostics.Memory.Evictions.{IsRate, Poll, latest, poll_all, eviction_rate-latest}
use redis_admin.Sentinel.Topology.{NodeAddresses, get_node_addresses}
use redis_admin.Keys.Hotkey.{get_hotkeys, get_hotkeys_nothing}
use redis_admin.Api.{trigger_failover, topology_handler, SeedRequest, seed_data}
use redis_admin.Api.Guards.{Guarded, trigger_failover-Guarded, SeedGuarded, seed_data-SeedGuarded}
use redis_admin.Api.Status.{Explained, topology_handler-Explained}
use redis_admin.Samples.Cluster.{config, cluster, steady, done}
use redis_admin.Samples.Services.{keyed, whole, running}

topology_handler-Explained_example : Explained cluster config (topology_handler cluster config 5)
topology_handler-Explained_example = topology_handler-Explained cluster config 5

confirmed_run :
    trigger_failover cluster config steady 2100 false true
    ≡ some (record { status = 200; data_part = done.result; error_code = none }, done.effects)
unfolding trigger_failover redis_admin.Base.insert
confirmed_run = refl

trigger_failover-Guarded_example : Guarded false true done.effects
trigger_failover-Guarded_example =
    trigger_failover-Guarded cluster config steady 2100 false true
      (record { status = 200; data_part = done.result; error_code = none }) done.effects
      confirmed_run

abbrev no_error : ℕ → List Command → Option Err
no_error n b = none

abbrev value : ℕ → Str
value i = str "v"

abbrev seed_request : SeedRequest
seed_request = record {
  key_count = pos 3;
  key_prefix = [];
  value_size = pos 1;
  key_type = str "hash";
  ttl_sec = pos 60;
  confirm = true;
}

seed_data-SeedGuarded_example :
    SeedGuarded seed_request (seed_data value running no_error seed_request).1
seed_data-SeedGuarded_example = seed_data-SeedGuarded value running no_error seed_request

mode_run : eq_str (str "sentinel") (str "pod") ≡ false
unfolding eq_str
mode_run = refl

trigger_chaos_failover-Ending_example :
    Ending cluster
      (str "m")
      (str "s:1" ∷ [])
      (trigger_chaos_failover cluster config none (str "sentinel") [] [])
trigger_chaos_failover-Ending_example =
    trigger_chaos_failover-Ending cluster config none (str "sentinel") [] [] mode_run

abbrev locked : Redis
locked = record keyed { ttl = λ a k. ok (pos 900000000000) }

abbrev lock : Str → LockReport
lock key = record {
  key = key;
  ttl_seconds = pos 900;
  size_bytes = pos 64;
  node_addr = str "b:1";
  is_stale = true;
}

abbrev locks : List LockReport
locks = lock (str "u:1") ∷ lock (str "v") ∷ []

locks_run : get_stale_locks locked config running 1 (str "*") (pos 300) ≡ some (locks, none)
unfolding get_stale_locks redis_admin.Base.eq_str
locks_run = refl

long_ttl : (t : ℤ) → ◌≡◌ {A = Result ℤ} (ok (pos 900000000000)) (ok t) → Documented t
long_ttl t h = let e : pos 900000000000 ≡ t = cc h in subst Documented e (whole_seconds 900)

get_stale_locks-Expires_example : Distinct locks × All (Expires locked (pos 300)) locks
get_stale_locks-Expires_example =
    get_stale_locks-Expires locked config running 1 (str "*") (pos 300) locks none
      (λ a k t h. long_ttl t h) locks_run

abbrev poll : ℕ → Poll
poll n = record { addr = str "a:1"; sample = record { count = pos n; at_time = n * 1000000000 } }

eviction_rate-latest_example :
    IsRate whole
      (latest (str "a:1") none (poll 2 ∷ poll 5 ∷ []))
      (pos 9)
      9000000000
      (eviction_rate whole
        (poll_all whole [] (poll 2 ∷ poll 5 ∷ []))
        (str "a:1")
        (pos 9)
        9000000000).0
eviction_rate-latest_example =
    eviction_rate-latest whole (str "a:1") (poll 2 ∷ poll 5 ∷ []) (pos 9) 9000000000

-- every node has its own value
abbrev drifting : Redis
drifting = record keyed { config_get = λ a k. ok ((str "save", a) ∷ []) }

get_config_diff-Reported_example : All (Reported drifting) (get_config_diff drifting config).0
get_config_diff-Reported_example = get_config_diff-Reported drifting config

abbrev fetch : Str → Result Str
fetch a = keyed.client_list a

abbrev label : Str → Err → Err
label a e = wrap a e

abbrev lfu : Redis
lfu = record keyed {
  config_get = λ a k. ok ((str "maxmemory-policy", str "allkeys-lfu") ∷ []);
  object_freq = λ a k. ok (pos 9);
}

abbrev node_addresses : NodeAddresses
node_addresses = record { master = str "a:1"; replicas = str "b:1" ∷ str "c:1" ∷ [] }

addresses_run : get_node_addresses lfu config ≡ ok node_addresses
unfolding get_node_addresses redis_admin.Base.eq_str
addresses_run = refl

one_entry :
    (addr : Str) (vals : Dict Str)
    → lfu.config_get addr (str "maxmemory-policy") ≡ ok vals
    → length vals ≤ 1
one_entry addr vals h =
    let e : (str "maxmemory-policy", str "allkeys-lfu") ∷ [] ≡ vals = cc in
    subst (λ v. length v ≤ 1) e (omega arith)

get_hotkeys_nothing_example : get_hotkeys lfu config running 1 20 ≡ some (ok [])
get_hotkeys_nothing_example =
    get_hotkeys_nothing lfu config running 1 20 node_addresses one_entry addresses_run
