-- ===== src/Diagnostics/Memory.antt =====
-- internal/diagnostics/memory.go: the memory of the nodes, and the rate of their evictions.
pub mod Evictions
use redis_admin.Base.{
  ℕ, suc, ◌-◌, Bool, true, false, not, ◌&&◌, ◌||◌, Option, none, some, List, [], ◌∷◌, ◌++◌, Str,
  str, is_empty, eq_str, Dict, lookup, insert, lookup_str, ℤ, pos, negsuc, lt_int, sub64, parse_int,
  leb, map, ◌==◌, if◌then◌else◌,
}
use redis_admin.Errors.{Err, typed, wrap, join_errors, node_unreachable, Result, ok, err}
use redis_admin.Config.{Config}
use redis_admin.Redis.{Redis}
use redis_admin.Float.{Float64}
use redis_admin.Info.{parse_info_all}
use redis_admin.Sentinel.Topology.{Role, master, replica, NodeAddresses, get_node_addresses}

-- the last number of evicted keys of a node, and its time in nanoseconds
pub record EvictedSample : Type 0 where
  pub count : ℤ
  pub at_time : ℕ

pub record MemoryReport (F : Type 0) : Type 0 where
  pub node_addr : Str
  pub role : Role
  pub used_memory_bytes : ℤ
  pub used_memory_human : Str
  pub max_memory_bytes : ℤ
  pub frag_ratio : F
  pub frag_alert : Bool
  pub eviction_policy : Str
  pub evicted_keys_total : ℤ
  pub evicted_keys_per_sec : F
  pub rdb_enabled : Bool
  pub rdb_last_save_time : ℤ
  pub rdb_changes_since_save : ℤ
  pub rdb_last_bgsave_status : Str
  pub rdb_alert : Bool
  pub aof_enabled : Bool
  pub aof_last_rewrite_status : Str
  pub aof_alert : Bool

abbrev int_in : Dict Str → Str → ℤ
int_in kv field = (parse_int (lookup_str field kv)).0

abbrev is_one : ℤ → Bool
is_one (pos n) = n == 1
is_one (negsuc n) = false

abbrev not_negative : ℤ → Bool
not_negative n = not (lt_int n (pos 0))

module _ {F : Type 0} (fl : Float64 F) where
  -- the rate since the sample before, by the clock at `now`
  unfoldable pub rate_since : Option EvictedSample → ℤ → ℕ → F
  unfolding sub64
  rate_since none current now = fl.of_int (pos 0)
  rate_since (some prev) current now =
      if lt_int current prev.count
      then fl.of_int (pos 0)
      else if leb now prev.at_time
      then fl.of_int (pos 0)
      else fl.div (fl.of_int (sub64 current prev.count)) (fl.seconds (pos (now - prev.at_time)))

  -- evictionRate: the rate, and the samples with the new one
  unfoldable pub eviction_rate : Dict EvictedSample → Str → ℤ → ℕ → F × Dict EvictedSample
  unfolding rate_since lookup insert
  eviction_rate samples addr current now = (
    rate_since (lookup addr samples) current now,
    insert addr (record { count = current; at_time = now }) samples,
  )

  abbrev memory_report : Str → Role → Dict Str → F → MemoryReport F
  memory_report addr role kv per_sec = record {
    node_addr = addr;
    role = role;
    used_memory_bytes = int_in kv (str "used_memory");
    used_memory_human = lookup_str (str "used_memory_human") kv;
    max_memory_bytes = int_in kv (str "maxmemory");
    frag_ratio = fl.parse (lookup_str (str "mem_fragmentation_ratio") kv);
    frag_alert = fl.lt (fl.literal 15 1) (fl.parse (lookup_str (str "mem_fragmentation_ratio") kv));
    eviction_policy = lookup_str (str "maxmemory_policy") kv;
    evicted_keys_total = int_in kv (str "evicted_keys");
    evicted_keys_per_sec = per_sec;
    rdb_enabled =
        not_negative (int_in kv (str "rdb_saves"))
        && not (is_empty (lookup_str (str "rdb_last_bgsave_status") kv));
    rdb_last_save_time = int_in kv (str "rdb_last_save_time");
    rdb_changes_since_save = int_in kv (str "rdb_changes_since_last_save");
    rdb_last_bgsave_status = lookup_str (str "rdb_last_bgsave_status") kv;
    rdb_alert = eq_str (lookup_str (str "rdb_last_bgsave_status") kv) (str "err");
    aof_enabled = is_one (int_in kv (str "aof_enabled"));
    aof_last_rewrite_status = lookup_str (str "aof_last_bgrewrite_status") kv;
    aof_alert = eq_str (lookup_str (str "aof_last_bgrewrite_status") kv) (str "err");
  }

  abbrev with_rate :
      Str → Role → Dict Str → F × Dict EvictedSample → MemoryReport F × Dict EvictedSample
  with_rate addr role kv (per_sec, samples) = (memory_report addr role kv per_sec, samples)

  -- fetchMemory, where the node answers
  unfoldable pub fetch_memory :
      Dict EvictedSample → ℕ → Str → Role → Str → MemoryReport F × Dict EvictedSample
  unfolding eviction_rate parse_info_all lookup_str parse_int eq_str
  fetch_memory samples now addr role raw =
      let kv = parse_info_all raw in
      with_rate addr role kv (eviction_rate samples addr (int_in kv (str "evicted_keys")) now)

  abbrev cons_report :
      Result Str
      → Str
      → (Str → MemoryReport F × Dict EvictedSample)
      → (Dict EvictedSample → List (MemoryReport F) × List Err × Dict EvictedSample)
      → Dict EvictedSample
      → List (MemoryReport F) × List Err × Dict EvictedSample
  cons_report (err e) addr fetch more samples =
      let rest = more samples in
      (
        rest.0,
        wrap (str "node " ++ addr) (wrap (str "INFO on " ++ addr) (typed node_unreachable))
            ∷ rest.1,
        rest.2,
      )
  cons_report (ok raw) addr fetch more samples =
      let rest = more (fetch raw).1 in ((fetch raw).0 ∷ rest.0, rest.1, rest.2)

  -- the loop of GetMemory over the nodes, with the clock by the round
  unfoldable pub memory_of :
      Redis
      → (ℕ → ℕ)
      → ℕ
      → List (Str × Role)
      → Dict EvictedSample
      → List (MemoryReport F) × List Err × Dict EvictedSample
  unfolding fetch_memory
  memory_of r clock i [] samples = ([], [], samples)
  memory_of r clock i ((addr, role) ∷ nodes) samples =
      cons_report (r.info addr (str "memory" ∷ str "stats" ∷ str "persistence" ∷ str "server" ∷ []))
        addr (λ raw. fetch_memory samples (clock i) addr role raw)
        (λ s. memory_of r clock (suc i) nodes s) samples

  abbrev joined :
      List (MemoryReport F) × List Err × Dict EvictedSample
      → List (MemoryReport F) × Option Err × Dict EvictedSample
  joined (reports, errs, samples) = (reports, join_errors errs, samples)

  -- GetMemory: the reports, the error, and the samples after it
  unfoldable pub get_memory :
      Redis
      → Config
      → (ℕ → ℕ)
      → Dict EvictedSample
      → List (MemoryReport F) × Option Err × Dict EvictedSample
  unfolding get_node_addresses memory_of
  get_memory r cfg clock samples = elim (get_node_addresses r cfg) [
    | err e ↦ ([], some (wrap (str "get memory") e), samples)
    | ok addrs ↦ joined (
        memory_of r clock 0 ((addrs.master, master) ∷ map (λ a. (a, replica)) addrs.replicas)
          samples)
  ]
