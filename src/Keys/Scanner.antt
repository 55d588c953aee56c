-- ===== src/Keys/Scanner.antt =====
-- internal/keys/scanner.go: the big keys, streamed one by one and summed up by namespace.
pub mod Kept
pub mod Sums
pub mod Stats
use redis_admin.Base.{
  ℕ, zero, suc, ◌+◌, ◌/◌, ◌^◌, Bool, true, false, Option, none, some, List, [], ◌∷◌, ◌++◌, Str, str,
  index_byte, take, ℤ, pos, negsuc, lt_int, ltb, add64, Dict, lookup, insert, map, if◌then◌else◌,
}
use redis_admin.Order.{minus}
use redis_admin.Errors.{Err, wrap, Result, ok, err, value_or}
use redis_admin.Config.{Config}
use redis_admin.Redis.{Redis}
use redis_admin.Float.{Float64}
use redis_admin.Tally.{tally}
use redis_admin.Keys.Walk.{walk}
use redis_admin.Sentinel.Topology.{NodeAddresses, get_node_addresses}

pub record KeyReport : Type 0 where
  pub key : Str
  pub type_name : Str
  pub size_bytes : ℤ
  pub node_addr : Str
  pub namespace : Str
  pub ttl_seconds : ℤ

-- the sums of a namespace; the number of keys stays below 2 ^ 63
pub record NamespaceStat : Type 0 where
  pub namespace : Str
  pub key_count : ℕ
  pub total_bytes : ℤ
  pub max_bytes : ℤ

abbrev namespace_at : Str → Option ℕ → Str
namespace_at key none = key
namespace_at key (some zero) = key
namespace_at key (some (suc i)) = take (suc i) key

-- keyNamespace
unfoldable pub key_namespace : Str → Str
unfolding index_byte
key_namespace key = namespace_at key (index_byte key b':')

-- int64(d.Seconds()) of a duration in nanoseconds, which is exact on the whole seconds that TTL
-- reports
abbrev pub seconds : ℤ → ℤ
seconds (pos n) = pos (n / 1000000000)
seconds (negsuc n) = minus ((n + 1) / 1000000000)

unfoldable pub report_of : Redis → Str → Str → ℤ → KeyReport
unfolding key_namespace
report_of r addr key size = record {
  key = key;
  type_name = value_or [] (r.type_of addr key);
  size_bytes = size;
  node_addr = addr;
  namespace = key_namespace key;
  ttl_seconds = seconds (value_or (pos 0) (r.ttl addr key));
}

abbrev pub higher : ℤ → ℤ → ℤ
higher new old = if lt_int old new then new else old

-- the sums of a namespace, new where it has none, with one more key
unfoldable pub with_key : KeyReport → Option NamespaceStat → NamespaceStat
unfolding add64
with_key k none = record {
  namespace = k.namespace;
  key_count = 1;
  total_bytes = add64 (pos 0) k.size_bytes;
  max_bytes = higher k.size_bytes (pos 0);
}
with_key k (some st) = record st {
  key_count = st.key_count + 1;
  total_bytes = add64 st.total_bytes k.size_bytes;
  max_bytes = higher k.size_bytes st.max_bytes;
}

-- the calls of onKey, in order, and the sums by namespace
pub record Found : Type 0 where
  pub reports : List KeyReport
  pub stats : Dict NamespaceStat

abbrev pub add_report : Found → KeyReport → Found
add_report f k = record {
  reports = f.reports ++ k ∷ [];
  stats = insert k.namespace (with_key k (lookup k.namespace f.stats)) f.stats;
}

-- inspectKey
unfoldable pub inspect_key : Redis → Str → ℤ → Str → Found → Found
unfolding report_of with_key insert lookup
inspect_key r addr threshold key f = elim (r.memory_usage addr key) [
  | err e ↦ f
  | ok size ↦ if lt_int size threshold then f else add_report f (report_of r addr key size)
]

-- scanNode from a check of the context on, with the fuel of the loop
unfoldable pub scan_node :
    Redis → (ℕ → Option Err) → ℕ → Str → ℤ → ℕ → Found → Option (Option Err × ℕ × Found)
unfolding walk inspect_key
scan_node r ctx fuel addr threshold i f =
    walk ctx (r.scan addr (str "*")) (inspect_key r addr threshold) fuel 0 i f

-- the replicas, or the master where there are none
abbrev pub targets_of : NodeAddresses → List Str
targets_of addrs = elim addrs.replicas [ [] ↦ addrs.master ∷ [] | ◌∷◌ a more ↦ a ∷ more ]

-- the loop over the nodes, which goes on where one fails
unfoldable pub scan_nodes : Redis → (ℕ → Option Err) → ℕ → List Str → ℤ → ℕ → Found → Option Found
unfolding scan_node
scan_nodes r ctx fuel [] threshold i f = some f
scan_nodes r ctx fuel (addr ∷ addrs) threshold i f =
    let rest = λ (j : ℕ) (g : Found). scan_nodes r ctx fuel addrs threshold j g in
    elim (scan_node r ctx fuel addr threshold i f) [ none ↦ none | some p ↦ rest p.1 p.2 ]

-- ScanBigKeys: the keys that are streamed and the sums
unfoldable pub scan_big_keys : Redis → Config → (ℕ → Option Err) → ℕ → ℤ → Option (Result Found)
unfolding get_node_addresses scan_nodes
scan_big_keys r cfg ctx fuel threshold = elim (get_node_addresses r cfg) [
  | err e ↦ some (err (wrap (str "scan bigkeys") e))
  | ok addrs ↦
      elim (scan_nodes r ctx fuel (targets_of addrs) threshold 0
        (record { reports = []; stats = [] })) [ none ↦ none | some f ↦ some (ok f) ]
]

-- the sums of a namespace with their average, as ScanBigKeys returns them
pub record NamespaceAverage (F : Type 0) : Type 0 where
  pub stat : NamespaceStat
  pub avg_bytes : F

module _ {F : Type 0} (fl : Float64 F) where
  unfoldable pub with_average : NamespaceStat → NamespaceAverage F
  with_average st = record {
    stat = st;
    avg_bytes =
        if ltb 0 st.key_count
        then fl.div (fl.of_int st.total_bytes) (fl.of_int (pos st.key_count))
        else fl.of_int (pos 0);
  }
