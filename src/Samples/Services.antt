-- ===== src/Samples/Services.antt =====
-- The services on the cluster of the samples, with keys and connections.
use mathlib.Core.Path.{subst}
use redis_admin.Base.{
  ℕ, ◌+◌, ◌-◌, ◌*◌, ◌/◌, ◌≤◌, ◌≡◌, refl, Bool, true, false, Option, none, some, List, [], ◌∷◌, ◌++◌,
  arith, Str, str, ℤ, pos, negsuc, pos_part, Dict, lookup, length, All, ltb, if◌then◌else◌,
}
use redis_admin.Errors.{Err, ok}
use redis_admin.Redis.{Redis}
use redis_admin.Float.{Float64}
use redis_admin.Ring.{last}
use redis_admin.Operations.Audit.{new_audit_log, audit_ring_max}
use redis_admin.Operations.SetConfig.{Request, serve_all, accepted, serve_all-last}
use redis_admin.Replication.Tracker.{LagSample, lag_ring_size, get_trend, get_replication_lag}
use redis_admin.Replication.Tracker.Trend.{record_samples, samples_of, get_trend-last}
use redis_admin.Replication.Tracker.Recency.{Recent, get_replication_lag-Recent}
use redis_admin.K8s.PodCache.{Pod, PodEvent, added, deleted, handle_all, latest, lookup-handle_all}
use redis_admin.Connection.Clients.{Connection, group, get_connections}
use redis_admin.Connection.Clients.Groups.{from_ip, summary, group-summary}
use redis_admin.Connection.Analysis.{AnalysisResponse, analyze, analyze_connections}
use redis_admin.Connection.Analysis.Totals.{Counted, analyze_connections-Counted}
use redis_admin.Keys.Walk.{last_page}
use redis_admin.Keys.Scanner.{KeyReport, Found, scan_node, scan_big_keys}
use redis_admin.Keys.Scanner.Stats.{Streams, big, scan_node-Streams}
use redis_admin.Keys.Ttl.{NsStat, collect_nodes}
use redis_admin.Keys.Ttl.NoTtl.{Documented, no_expiry, NoneCounted, collect_nodes-NoneCounted}
use redis_admin.Samples.Cluster.{config, cluster}

-- whole numbers in the place of float64
abbrev pub whole : Float64 ℕ
whole = record {
  of_int = λ n. pos_part n;
  literal = λ n d. n;
  sub = λ a b. a - b;
  mul = λ a b. a * b;
  div = λ a b. a / b;
  lt = λ a b. ltb a b;
  seconds = λ n. pos_part n / 1000000000;
  parse = λ s. 0;
  parses = λ s. true;
}

abbrev pub keyed : Redis
keyed = record cluster {
  config_get = λ a k. ok ((str "save", str "60") ∷ []);
  config_set = λ a k v. none;
  client_list = λ a. ok (str "addr=x:5 flags=N idle=9 qbuf=0");
  scan = λ a p c. ok (str "u:1" ∷ str "v" ∷ [], 0);
  ttl = λ a k. ok (negsuc 0);
  type_of = λ a k. ok (str "hash");
  memory_usage = λ a k. ok (pos 64);
}

abbrev sample : ℕ → LagSample
sample n = record { lag_bytes = pos n; at_time = n }

abbrev sampled : List (Str × LagSample)
sampled = (str "b:1", sample 4) ∷ (str "c:1", sample 5) ∷ (str "b:1", sample 6) ∷ []

get_trend-last_example :
    get_trend (record_samples [] sampled) (str "b:1")
    ≡ last lag_ring_size (samples_of (str "b:1") sampled)
get_trend-last_example = get_trend-last (str "b:1") sampled

get_replication_lag-Recent_example :
    All (Recent whole) (get_replication_lag whole cluster config (λ i. i) []).0
get_replication_lag-Recent_example = get_replication_lag-Recent whole cluster config (λ i. i) []

abbrev request : Redis → Request
request nodes = record {
  nodes = nodes;
  now = 3;
  change = record {
    node_addr = str "a:1";
    key = str "save";
    value = str "90";
    remote_ip = str "r";
  };
}

serve_all-last_example :
    serve_all new_audit_log (request keyed ∷ request cluster ∷ [])
    ≡ last audit_ring_max (accepted (request keyed ∷ request cluster ∷ []))
serve_all-last_example = serve_all-last (request keyed ∷ request cluster ∷ [])

abbrev pod : Str → Pod
pod name = record {
  name = name;
  namespace = str "d";
  owner_references = [];
  node_name = str "n";
  labels = [];
  pod_ip = str "x";
}

abbrev pod_events : List PodEvent
pod_events = added (pod (str "p")) ∷ added (pod (str "q")) ∷ deleted (pod (str "p")) ∷ []

lookup-handle_all_example :
    lookup (str "x") (handle_all [] pod_events) ≡ latest (str "x") (lookup (str "x") []) pod_events
lookup-handle_all_example = lookup-handle_all (str "x") [] pod_events refl

abbrev open_connections : List Connection
open_connections =
    record { ip = str "x"; idle = pos 400; qbuf = pos 0 }
    ∷ record { ip = str "y"; idle = pos 1; qbuf = pos 7 }
    ∷ record { ip = str "x"; idle = pos 9; qbuf = pos 2 }
    ∷ []

group-summary_example :
    lookup (str "x") (group [] open_connections)
    ≡ summary (str "x") (from_ip (str "x") open_connections)
group-summary_example = group-summary (str "x") open_connections

abbrev analysis : AnalysisResponse
analysis = analyze (get_connections keyed config none).0

analysis_run : analyze_connections keyed config none ≡ ok analysis
unfolding analyze_connections get_connections
analysis_run = refl

analyze_connections-Counted_example :
    Counted (get_connections keyed config none).0 analysis
    × ((get_connections keyed config none).1 ≡ none)
analyze_connections-Counted_example =
    analyze_connections-Counted keyed config none analysis analysis_run

abbrev pub running : ℕ → Option Err
running n = none

abbrev key_report : Str → Str → Str → KeyReport
key_report addr key namespace = record {
  key = key;
  type_name = str "hash";
  size_bytes = pos 64;
  node_addr = addr;
  namespace = namespace;
  ttl_seconds = pos 0;
}

abbrev reported : List KeyReport
reported =
    key_report (str "b:1") (str "u:1") (str "u")
    ∷ key_report (str "b:1") (str "v") (str "v")
    ∷ key_report (str "c:1") (str "u:1") (str "u")
    ∷ key_report (str "c:1") (str "v") (str "v")
    ∷ []

abbrev found : Found
found = record {
  reports = reported;
  stats =
      (
        str "u",
        record { namespace = str "u"; key_count = 2; total_bytes = pos 128; max_bytes = pos 64 },
      )
      ∷ (
        str "v",
        record { namespace = str "v"; key_count = 2; total_bytes = pos 128; max_bytes = pos 64 },
      )
      ∷ [];
}

found_run : scan_big_keys keyed config running 1 (pos 10) ≡ some (ok found)
unfolding scan_big_keys redis_admin.Base.eq_str
found_run = refl

abbrev nothing_found : Found
nothing_found = record { reports = []; stats = [] }

scan_node-Streams_example :
    Streams nothing_found
      (big keyed (str "b:1") (pos 10) (str "u:1" ∷ str "v" ∷ []))
      (scan_node keyed running 1 (str "b:1") (pos 10) 0 nothing_found)
scan_node-Streams_example =
    scan_node-Streams keyed running (str "b:1") (pos 10) 1 1 0 (str "u:1" ∷ str "v" ∷ [])
      nothing_found (λ c. refl) (last_page refl) (omega arith)

abbrev ttl_counts : Dict NsStat
ttl_counts =
    (str "u", record { total = 2; no_ttl = 0 }) ∷ (str "v", record { total = 2; no_ttl = 0 }) ∷ []

ttl_run : collect_nodes keyed running 1 (str "b:1" ∷ str "c:1" ∷ []) 0 [] ≡ some ttl_counts
unfolding collect_nodes redis_admin.Base.eq_str
ttl_run = refl

keyed-Documented : (addr key : Str) (t : ℤ) → keyed.ttl addr key ≡ ok t → Documented t
keyed-Documented addr key t h = let e : negsuc 0 ≡ t = cc in subst Documented e no_expiry

collect_nodes-NoneCounted_example : NoneCounted ttl_counts
collect_nodes-NoneCounted_example =
    collect_nodes-NoneCounted keyed running 1 (str "b:1" ∷ str "c:1" ∷ []) ttl_counts
      keyed-Documented ttl_run
