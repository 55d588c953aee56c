-- ===== src/Replication/Resync.antt =====
-- internal/replication/resync.go: the full resyncs and the use of the replication backlog.
use redis_admin.Base.{
  Bool, ◌&&◌, Option, none, some, List, [], ◌∷◌, ◌++◌, Str, str, lookup_str, Dict, ℤ, pos, lt_int,
  parse_int, if◌then◌else◌, map,
}
use redis_admin.Errors.{Err, typed, wrap, node_unreachable, Result, ok, err}
use redis_admin.Config.{Config}
use redis_admin.Redis.{Redis}
use redis_admin.Float.{Float64}
use redis_admin.Fanout.{fan_out}
use redis_admin.Info.{parse_info}
use redis_admin.Sentinel.Topology.{Role, master, replica, NodeAddresses, get_node_addresses}

-- the advisory has the percentage and the sizes as its data
pub record ResyncReport (F : Type 0) : Type 0 where
  pub node_addr : Str
  pub role : Role
  pub total_resyncs : ℤ
  pub backlog_size : ℤ
  pub backlog_active_size : ℤ
  pub backlog_alert : Bool
  pub advisory : Option F

-- `n, _ = strconv.ParseInt(kv[field], 10, 64)`
unfoldable pub int_of : Str → Dict Str → ℤ
unfolding lookup_str parse_int
int_of field kv = (parse_int (lookup_str field kv)).0

-- the master and the replicas, in the order in which every service asks them
abbrev pub nodes_of : NodeAddresses → List (Str × Role)
nodes_of addrs = (addrs.master, master) ∷ map (λ a. (a, replica)) addrs.replicas

module _ {F : Type 0} (fl : Float64 F) where
  unfoldable pub resync_report : Str → Role → Dict Str → ResyncReport F
  unfolding int_of
  resync_report addr role kv =
      let size = int_of (str "repl_backlog_size") kv in
      let active = int_of (str "repl_backlog_active") kv in
      let pct = fl.div (fl.of_int active) (fl.of_int size) in
      let alert = (lt_int (pos 0) size && lt_int (pos 0) active) && fl.lt (fl.literal 90 2) pct in
      record {
        node_addr = addr;
        role = role;
        total_resyncs = int_of (str "total_resyncs_processed") kv;
        backlog_size = size;
        backlog_active_size = active;
        backlog_alert = alert;
        advisory = if alert then some (fl.mul pct (fl.of_int (pos 100))) else none;
      }

  unfoldable pub fetch_resync : Redis → Str × Role → Result (ResyncReport F)
  unfolding resync_report parse_info
  fetch_resync r (addr, role) = elim (r.info addr (str "replication" ∷ [])) [
    | err e ↦ err (wrap (str "INFO replication on " ++ addr) (typed node_unreachable))
    | ok raw ↦ ok (resync_report addr role (parse_info raw))
  ]

  unfoldable pub get_resync_stats : Redis → Config → List (ResyncReport F) × Option Err
  unfolding get_node_addresses fan_out fetch_resync
  get_resync_stats r cfg = elim (get_node_addresses r cfg) [
    | err e ↦ ([], some (wrap (str "get resync stats") e))
    | ok addrs ↦ fan_out (λ n e. wrap (str "node " ++ n.0) e) (fetch_resync r) (nodes_of addrs)
  ]
