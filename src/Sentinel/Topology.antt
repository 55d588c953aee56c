-- ===== src/Sentinel/Topology.antt =====
-- internal/sentinel/topology.go: what TopologyService makes of the replies of the sentinels and
-- nodes. The laws are in the modules below.
pub mod Laws
use redis_admin.Base.{
  ℕ, Bool, true, false, not, ◌||◌, Option, none, some, List, [], ◌∷◌, ◌++◌, Str, str, is_empty,
  contains, Dict, lookup, lookup_str, ℤ, pos, parse_int, if◌then◌else◌, map,
}
use redis_admin.Errors.{Err, typed, wrap, node_unreachable, no_master, Result, ok, err, value_or}
use redis_admin.Config.{Config}
use redis_admin.Redis.{Redis}
use redis_admin.Info.{parse_info_section}
use redis_admin.Sentinel.Quorum.{check}

pub data Role : Type 0 where
  master replica sentinel : Role

pub record NodeInfo : Type 0 where
  pub addr : Str
  pub role : Role
  pub is_healthy : Bool
  pub connected_clients : ℤ
  pub uptime_seconds : ℤ

pub record TopologySnapshot : Type 0 where
  pub master : NodeInfo
  pub replicas : List NodeInfo
  pub sentinels : List NodeInfo
  pub quorum_ok : Bool
  pub captured_at : ℕ

pub record NodeAddresses : Type 0 where
  pub master : Str
  pub replicas : List Str

-- ip + ":" + port
abbrev pub host_port : Str → Str → Str
host_port ip port = ip ++ b':' ∷ port

-- sentinelFlagsUnhealthy
unfoldable pub sentinel_flags_unhealthy : Str → Bool
unfolding contains
sentinel_flags_unhealthy flags =
    contains flags (str "s_down")
    || contains flags (str "o_down")
    || contains flags (str "disconnected")

-- `if v, ok := fields[key]; ok { n, _ = strconv.ParseInt(v, 10, 64) }`
unfoldable pub int_field : Str → Dict Str → ℤ
unfolding lookup parse_int
int_field key fields = elim (lookup key fields) [ none ↦ pos 0 | some v ↦ (parse_int v).0 ]

abbrev node_of_info : Str → Role → Result Str → NodeInfo
node_of_info addr role (err e) = record {
  addr = addr;
  role = role;
  is_healthy = false;
  connected_clients = pos 0;
  uptime_seconds = pos 0;
}
node_of_info addr role (ok raw) = record {
  addr = addr;
  role = role;
  is_healthy = true;
  connected_clients = int_field (str "connected_clients") (parse_info_section raw);
  uptime_seconds = int_field (str "uptime_in_seconds") (parse_info_section raw);
}

-- fetchNodeInfo
unfoldable pub fetch_node_info : Redis → Str → Role → NodeInfo
unfolding int_field parse_info_section
fetch_node_info r addr role =
    node_of_info addr role (r.info addr (str "clients" ∷ str "server" ∷ []))

-- reachableSentinel: the first address that answers PING
unfoldable pub reachable_sentinel : Redis → List Str → Result Str
reachable_sentinel r [] = err (typed node_unreachable)
reachable_sentinel r (addr ∷ addrs) = elim (r.ping addr) [
  | none ↦ ok addr
  | some e ↦ reachable_sentinel r addrs
]

-- an entry of a list of nodes that has no ip or no port is skipped
unfoldable pub has_addr : Dict Str → Bool
unfolding lookup_str
has_addr m = not (is_empty (lookup_str (str "ip") m) || is_empty (lookup_str (str "port") m))

unfoldable pub map_addr : Dict Str → Str
unfolding lookup_str
map_addr m = host_port (lookup_str (str "ip") m) (lookup_str (str "port") m)

-- one round of the loop over the replicas
unfoldable pub replica_node : Redis → Dict Str → NodeInfo
unfolding fetch_node_info map_addr sentinel_flags_unhealthy
replica_node r m =
    let node = fetch_node_info r (map_addr m) replica in
    if sentinel_flags_unhealthy (lookup_str (str "flags") m)
    then record node { is_healthy = false }
    else node

-- one round of the loop over the peer sentinels
unfoldable pub sentinel_node : Dict Str → NodeInfo
unfolding map_addr sentinel_flags_unhealthy
sentinel_node m = record {
  addr = map_addr m;
  role = sentinel;
  is_healthy = not (sentinel_flags_unhealthy (lookup_str (str "flags") m));
  connected_clients = pos 0;
  uptime_seconds = pos 0;
}

-- the loops, which skip the entries without an address
unfoldable pub listed {ℓ} : {A : Type ℓ} → (Dict Str → A) → List (Dict Str) → List A
unfolding has_addr
listed f [] = []
listed f (m ∷ ms) = let rest = listed f ms in if has_addr m then f m ∷ rest else rest

-- the address of the master, or ErrNoMaster
unfoldable pub master_of : Str → Result (List Str) → Result Str
master_of label (ok (ip ∷ port ∷ more)) = ok (host_port ip port)
master_of label _ = err (wrap label (typed no_master))

abbrev snapshot : Redis → Config → ℕ → Str → Result Str → Result TopologySnapshot
snapshot r cfg now sentinel_addr (err e) = err e
snapshot r cfg now sentinel_addr (ok master_addr) = ok (record {
  master = fetch_node_info r master_addr master;
  replicas = listed (replica_node r) (value_or [] (r.replicas sentinel_addr cfg.master_name));
  sentinels =
      listed sentinel_node (value_or [] (r.sentinels sentinel_addr cfg.master_name))
      ++ record {
        addr = sentinel_addr;
        role = sentinel;
        is_healthy = true;
        connected_clients = pos 0;
        uptime_seconds = pos 0;
      }
        ∷ [];
  quorum_ok = check r cfg;
  captured_at = now;
})

-- GetTopology at the time `now`
unfoldable pub get_topology : Redis → Config → ℕ → Result TopologySnapshot
unfolding reachable_sentinel master_of listed replica_node sentinel_node check
get_topology r cfg now = elim (reachable_sentinel r cfg.sentinel_addrs) [
  | err e ↦ err (wrap (str "get topology") (typed node_unreachable))
  | ok a ↦
      snapshot r cfg now a
        (master_of (str "get master from sentinel") (r.get_master_addr a cfg.master_name))
]

abbrev addresses : Redis → Config → Str → Result Str → Result NodeAddresses
addresses r cfg sentinel_addr (err e) = err e
addresses r cfg sentinel_addr (ok master_addr) = ok (record {
  master = master_addr;
  replicas = listed map_addr (value_or [] (r.replicas sentinel_addr cfg.master_name));
})

-- GetNodeAddresses
unfoldable pub get_node_addresses : Redis → Config → Result NodeAddresses
unfolding reachable_sentinel master_of listed map_addr
get_node_addresses r cfg = elim (reachable_sentinel r cfg.sentinel_addrs) [
  | err e ↦ err (wrap (str "get node addresses") (typed node_unreachable))
  | ok a ↦
      addresses r cfg a
        (master_of (str "get master from sentinel") (r.get_master_addr a cfg.master_name))
]

-- IsReady
unfoldable pub is_ready : Redis → Option Err
is_ready r = elim (r.ping_master) [ none ↦ none | some e ↦ some (wrap (str "ping master") e) ]
