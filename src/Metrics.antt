-- ===== src/Metrics.antt =====
-- internal/metrics/exporter.go and helpers.go: what a collection does to the gauges. A gauge with labels
-- is a map by the labels; the registry and its HTTP handler are those of the Prometheus library.
pub mod Consistency
use redis_admin.Base.{
  ℕ, Bool, true, false, Option, none, some, List, [], ◌∷◌, Str, str, ℤ, pos, Dict, lookup, insert,
  lookup_str, if◌then◌else◌,
}
use redis_admin.Errors.{Err, Result, ok, err}
use redis_admin.Config.{Config}
use redis_admin.Redis.{Redis}
use redis_admin.Float.{Float64}
use redis_admin.Info.{parse_info_kv}
use redis_admin.Sentinel.Topology.{
  NodeInfo, TopologySnapshot, NodeAddresses, get_topology, get_node_addresses,
}
use redis_admin.Replication.Tracker.{Samples, ReplicaLag, get_replication_lag}

-- Exporter: the values of its metrics; the clients have the labels node and role
pub record Gauges (F : Type 0) : Type 0 where
  pub quorum_ok : F
  pub replica_lag : Dict F
  pub master_clients : Dict F
  pub replica_clients : Dict F
  pub used_memory : Dict F
  pub frag_ratio : Dict F
  pub evicted_keys : Dict F
  pub promotion_score : Dict F

module _ {F : Type 0} (fl : Float64 F) where
  abbrev pub zero_value : F
  zero_value = fl.of_int (pos 0)

  -- New
  abbrev pub new_gauges : Gauges F
  new_gauges = record {
    quorum_ok = zero_value;
    replica_lag = [];
    master_clients = [];
    replica_clients = [];
    used_memory = [];
    frag_ratio = [];
    evicted_keys = [];
    promotion_score = [];
  }

  -- the loop over the replicas of the snapshot
  unfoldable pub set_clients : List NodeInfo → Dict F → Dict F
  unfolding insert
  set_clients [] m = m
  set_clients (n ∷ ns) m = set_clients ns (insert n.addr (fl.of_int n.connected_clients) m)

  unfoldable pub set_topology : Result TopologySnapshot → Gauges F → Gauges F
  unfolding set_clients insert
  set_topology (err e) g = g
  set_topology (ok s) g = record g {
    quorum_ok = fl.of_int (if s.quorum_ok then pos 1 else pos 0);
    master_clients =
        insert (s.master).addr (fl.of_int (s.master).connected_clients) g.master_clients;
    replica_clients = set_clients s.replicas g.replica_clients;
  }

  -- the loop over the lags
  unfoldable pub set_lags : List (ReplicaLag F) → Gauges F → Gauges F
  unfolding insert
  set_lags [] g = g
  set_lags (l ∷ ls) g = set_lags ls (record g {
    replica_lag = insert l.node_addr (fl.of_int l.lag_bytes) g.replica_lag;
    promotion_score = insert l.node_addr l.promotion_score g.promotion_score;
  })

  -- the lags are published only where no replica failed
  abbrev pub lags_if : List (ReplicaLag F) → Option Err → Gauges F → Gauges F
  lags_if ls none g = set_lags ls g
  lags_if ls (some e) g = g

  -- parseFloat, where it finds a number
  abbrev set_parsed : Str → Str → Dict F → Dict F
  set_parsed addr text m = if fl.parses text then insert addr (fl.parse text) m else m

  -- WithLabelValues, which makes a metric of the value 0 where there is none
  unfoldable pub with_label : Str → Dict F → Dict F
  unfolding lookup insert
  with_label addr m = elim (lookup addr m) [ none ↦ insert addr zero_value m | some v ↦ m ]

  -- collectNodeMemory
  unfoldable pub collect_node_memory : Redis → Str → Gauges F → Gauges F
  unfolding parse_info_kv lookup_str insert with_label
  collect_node_memory r addr g = elim (r.info addr (str "memory" ∷ str "stats" ∷ [])) [
    | err e ↦ g
    | ok raw ↦
        let kv = parse_info_kv raw in
        record g {
          used_memory = set_parsed addr (lookup_str (str "used_memory") kv) g.used_memory;
          frag_ratio = set_parsed addr (lookup_str (str "mem_fragmentation_ratio") kv) g.frag_ratio;
          evicted_keys =
              if fl.parses (lookup_str (str "evicted_keys") kv)
              then with_label addr g.evicted_keys
              else g.evicted_keys;
        }
  ]

  unfoldable pub collect_memory : Redis → List Str → Gauges F → Gauges F
  unfolding collect_node_memory
  collect_memory r [] g = g
  collect_memory r (a ∷ as') g = collect_memory r as' (collect_node_memory r a g)

  abbrev pub memory_if : Redis → Result NodeAddresses → Gauges F → Gauges F
  memory_if r (err e) g = g
  memory_if r (ok addrs) g = collect_memory r (addrs.master ∷ addrs.replicas) g

  -- collect: the gauges after it, and the samples of the replication tracker, which it adds to
  unfoldable pub collect : Redis → Config → ℕ → (ℕ → ℕ) → Gauges F × Samples → Gauges F × Samples
  unfolding get_topology set_topology get_replication_lag set_lags get_node_addresses collect_memory
  collect r cfg now clock (g, samples) =
      let (lags, e, samples') = get_replication_lag fl r cfg clock samples in
      (
        memory_if r (get_node_addresses r cfg)
            (lags_if lags e (set_topology (get_topology r cfg now) g)),
        samples',
      )
