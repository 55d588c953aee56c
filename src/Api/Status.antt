-- ===== src/Api/Status.antt =====
-- The status of a response by the state of the cluster.
use mathlib.Core.Path.{subst}
use redis_admin.Base.{ℕ, ◌≡◌, refl, ◌∙◌, Str, All}
use redis_admin.Errors.{
  Cause, Err, is, same_cause, no_master, quorum_not_met, node_unreachable, Result,
}
use redis_admin.Config.{Config}
use redis_admin.Redis.{Redis}
use redis_admin.Sentinel.Topology.{
  TopologySnapshot, NodeAddresses, get_topology, get_node_addresses,
}
use redis_admin.Sentinel.Topology.Laws.{
  Agrees, both_ok, both_err, get_topology-Agrees, Silent, FirstReachable, Failure, all_silent,
  NamesNone, Names, get_node_addresses-Names, unnamed, get_node_addresses-Failure,
}
use redis_admin.Api.{
  Response, err_response, no_master_code, node_unreachable_code, ok_response, handle_err, respond,
  topology_handler,
}

-- what the status says of the cluster
pub data Explained (r : Redis) (cfg : Config) (q : Response TopologySnapshot) : Type 0 where
  found :
      (s : TopologySnapshot) (a : Str)
      → FirstReachable r cfg.sentinel_addrs a
      → Names r cfg a s.master.addr
      → q ≡ ok_response s
      → Explained r cfg q
  bad_gateway :
      All (Silent r) cfg.sentinel_addrs
      → q ≡ err_response 502 node_unreachable_code
      → Explained r cfg q
  unavailable :
      (a : Str)
      → FirstReachable r cfg.sentinel_addrs a
      → NamesNone r cfg a
      → q ≡ err_response 503 no_master_code
      → Explained r cfg q

pub unreachable_status :
    {A : Type 0} (e : Err)
    → ((c : Cause) → is c e ≡ same_cause c node_unreachable)
    → ◌≡◌ {A = Response A} (handle_err e) (err_response 502 node_unreachable_code)
unfolding handle_err
unreachable_status e h = rw (h no_master) (rw (h quorum_not_met) (rw (h node_unreachable) refl))

pub no_master_status :
    {A : Type 0} (e : Err)
    → ((c : Cause) → is c e ≡ same_cause c no_master)
    → ◌≡◌ {A = Response A} (handle_err e) (err_response 503 no_master_code)
unfolding handle_err
no_master_status e h = rw (h no_master) refl

-- The endpoint of the topology answers with 200 and a snapshot, whose master is the one that the first
-- sentinel that answers PING names; with 502 where every configured sentinel is silent; or with 503 where
-- the first that answers names no master. It has no other answer.
pub topology_handler-Explained :
    (r : Redis) (cfg : Config) (now : ℕ) → Explained r cfg (topology_handler r cfg now)
unfolding topology_handler
topology_handler-Explained r cfg now =
    go (get_topology r cfg now) (get_node_addresses r cfg) refl (get_topology-Agrees r cfg now)
  where
    failed :
        (e f : Err)
        → Failure r cfg f
        → ((c : Cause) → is c e ≡ is c f)
        → Explained r cfg (handle_err e)
    failed e f (all_silent all h) same = bad_gateway all (unreachable_status e (λ c. same c ∙ h c))
    failed e f (unnamed a first none_named h) same =
        unavailable a first none_named (no_master_status e (λ c. same c ∙ h c))

    go :
        (t : Result TopologySnapshot) (n : Result NodeAddresses)
        → get_node_addresses r cfg ≡ n
        → Agrees t n
        → Explained r cfg (respond t)
    go t n h (both_ok s {n = m} e) =
        let (a, first, names) = get_node_addresses-Names r cfg m h in
        found s a first (subst (λ x. Names r cfg a x.master) e names) refl
    go t n h (both_err e f same) = failed e f (get_node_addresses-Failure r cfg f h) same
