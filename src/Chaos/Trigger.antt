-- ===== src/Chaos/Trigger.antt =====
-- internal/chaos/trigger.go: a failover by the first sentinel that answers, or by the deletion of a
-- pod. The deletion is the client library's: `delete` is its error for a namespace and a name.
use redis_admin.Base.{
  ◌≡◌, refl, false, Option, none, some, List, [], ◌∷◌, ◌++◌, Str, str, is_empty, eq_str,
  if◌then◌else◌, All,
}
use redis_admin.Errors.{Err, typed, other, wrap, node_unreachable, Result, ok, err}
use redis_admin.Config.{Config}
use redis_admin.Redis.{Redis}
use redis_admin.Sentinel.Topology.Laws.{Silent, FirstReachable, FirstReachable-cons}

pub record ChaosFailoverResult : Type 0 where
  pub mode : Str
  pub target : Str

pub data Effect : Type 0 where
  sent_failover : Str → Str → Effect
  deleted_pod : Str → Str → Effect

-- the result and what was done to the cluster
abbrev pub Triggered : Type 0
Triggered = Result ChaosFailoverResult × List Effect

abbrev sentinel_result : Str → ChaosFailoverResult
sentinel_result addr = record { mode = str "sentinel"; target = addr }

-- after the command to a sentinel; an address that is empty counts as no sentinel
abbrev commanded : Str → Str → Option Err → Triggered
commanded addr master (some e) =
    (err (wrap (str "SENTINEL FAILOVER on " ++ addr) e), sent_failover addr master ∷ [])
commanded addr master none = (
  if is_empty addr
      then err (wrap (str "no reachable sentinel found") (typed node_unreachable))
      else ok (sentinel_result addr),
  sent_failover addr master ∷ [],
)

abbrev pinged : Redis → Str → Str → Option Err → Triggered → Triggered
pinged r master addr (some e) rest = rest
pinged r master addr none rest = commanded addr master (r.sentinel_failover addr master)

-- sentinelFailover
unfoldable pub sentinel_failover : Redis → Str → List Str → Triggered
sentinel_failover r master [] =
    (err (wrap (str "no reachable sentinel found") (typed node_unreachable)), [])
sentinel_failover r master (addr ∷ addrs) =
    let rest = sentinel_failover r master addrs in pinged r master addr (r.ping addr) rest

abbrev deleted : Str → Str → Option Err → Triggered
deleted namespace pod_name (some e) =
    (err (wrap (str "delete pod " ++ namespace ++ pod_name) e), deleted_pod namespace pod_name ∷ [])
deleted namespace pod_name none = (
  ok (record { mode = str "pod"; target = namespace ++ b'/' ∷ pod_name }),
  deleted_pod namespace pod_name ∷ [],
)

-- podKillFailover, without a client where Kubernetes is not available
unfoldable pub pod_kill_failover : Config → Option (Str → Str → Option Err) → Str → Str → Triggered
pod_kill_failover cfg none namespace pod_name =
    (err (other (str "pod-delete mode requires a Kubernetes client: K8s is unavailable")), [])
pod_kill_failover cfg (some delete) namespace pod_name =
    let ns = if is_empty namespace then cfg.k8s_namespace else namespace in
    if is_empty pod_name
    then (err (other (str "pod_name is required for mode=pod")), [])
    else deleted ns pod_name (delete ns pod_name)

-- TriggerChaosFailover
unfoldable pub trigger_chaos_failover :
    Redis → Config → Option (Str → Str → Option Err) → Str → Str → Str → Triggered
unfolding sentinel_failover pod_kill_failover eq_str
trigger_chaos_failover r cfg k8s mode namespace pod_name =
    if eq_str mode (str "pod")
    then pod_kill_failover cfg k8s namespace pod_name
    else sentinel_failover r cfg.master_name cfg.sentinel_addrs

-- how the mode "sentinel" ends
pub data Ending (r : Redis) (master : Str) (addrs : List Str) (t : Triggered) : Type 0 where
  -- every sentinel is silent: nothing is sent
  none_answered : All (Silent r) addrs → t.1 ≡ [] → Ending r master addrs t
  -- the command went, once, to the first that answers
  one_commanded :
      (a : Str)
      → FirstReachable r addrs a
      → t.1 ≡ sent_failover a master ∷ []
      → Ending r master addrs t

Ending-later :
    (r : Redis) (m b : Str) (addrs : List Str) (t : Triggered)
    → Silent r b
    → Ending r m addrs t
    → Ending r m (b ∷ addrs) t
Ending-later r m b addrs t s (none_answered all e) = none_answered (s, all) e
Ending-later r m b addrs t s (one_commanded a f e) =
    one_commanded a (FirstReachable-cons r b a addrs s f) e

sentinel_failover-Ending :
    (r : Redis) (m : Str) (addrs : List Str) → Ending r m addrs (sentinel_failover r m addrs)
unfolding sentinel_failover
sentinel_failover-Ending r m [] = none_answered tt refl
sentinel_failover-Ending r m (b ∷ addrs) = go (r.ping b) refl (sentinel_failover-Ending r m addrs)
  where
    at_once : (f : Option Err) → r.ping b ≡ none → Ending r m (b ∷ addrs) (commanded b m f)
    at_once (some e) h =
        one_commanded b
          (record { before = []; after = addrs; split_at = refl; silent = tt; answers = h }) refl
    at_once none h =
        one_commanded b
          (record { before = []; after = addrs; split_at = refl; silent = tt; answers = h }) refl

    go :
        (p : Option Err)
        → r.ping b ≡ p
        → Ending r m addrs (sentinel_failover r m addrs)
        → Ending r m (b ∷ addrs) (pinged r m b p (sentinel_failover r m addrs))
    go (some e) h k = Ending-later r m b addrs _ (e, h) k
    go none h k = at_once (r.sentinel_failover b m) h

-- TriggerChaosFailover in any mode but "pod" sends SENTINEL FAILOVER once, to the first sentinel
-- that answers, and nothing where none does; whether the command then fails, it tries no other.
pub trigger_chaos_failover-Ending :
    (r : Redis) (cfg : Config) (k8s : Option (Str → Str → Option Err)) (mode ns pod : Str)
    → eq_str mode (str "pod") ≡ false
    → Ending r cfg.master_name cfg.sentinel_addrs (trigger_chaos_failover r cfg k8s mode ns pod)
unfolding trigger_chaos_failover
trigger_chaos_failover-Ending r cfg k8s mode ns pod h =
    rw h (sentinel_failover-Ending r cfg.master_name cfg.sentinel_addrs)
