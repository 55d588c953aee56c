-- ===== src/Connection/Analysis.antt =====
-- internal/connection/monitor.go: AnalyzeConnections, which merges the nodes to one view of the
-- cluster. Go iterates over the merged clients in no fixed order, and sort.Slice leaves the order of
-- equal elements open: here both keep the order of the list.
pub mod Totals
use redis_admin.Base.{
  ℕ, suc, ◌+◌, ◌-◌, Bool, true, false, not, ◌||◌, Option, none, some, List, [], ◌∷◌, ◌++◌, Str, str,
  eq_str, Dict, lookup, insert, ℤ, pos, lt_int, length, take, ltb, if◌then◌else◌,
}
use redis_admin.Errors.{Err, Result, ok, err}
use redis_admin.Config.{Config}
use redis_admin.Redis.{Redis}
use redis_admin.Sort.{sort_desc}
use redis_admin.K8s.PodCache.{PodCache}
use redis_admin.Connection.Clients.{
  ClientInfo, Severity, warning, critical, SuspiciousClient, NodeConnections, max_int, total_of,
  values, get_connections,
}

pub record AnalysisSummary : Type 0 where
  pub total_connections : ℕ
  pub unique_clients : ℕ
  pub suspicious_count : ℕ
  pub critical_count : ℕ

pub data Recommendation : Type 0 where
  connection_leak long_idle too_many_connections no_issues : Recommendation

pub record AnalysisResponse : Type 0 where
  pub summary : AnalysisSummary
  pub top_by_connections : List ClientInfo
  pub top_by_idle : List ClientInfo
  pub suspicious : List SuspiciousClient
  pub recommendations : List Recommendation

-- a client of another node with the same address
unfoldable pub merged : ClientInfo → Option ClientInfo → ClientInfo
merged c none = c
merged c (some existing) = record existing {
  conn_count = existing.conn_count + c.conn_count;
  max_idle_sec = max_int c.max_idle_sec existing.max_idle_sec;
  max_qbuf_bytes = max_int c.max_qbuf_bytes existing.max_qbuf_bytes;
}

unfoldable pub merge_clients : Dict ClientInfo → List ClientInfo → Dict ClientInfo
unfolding merged insert lookup
merge_clients m [] = m
merge_clients m (c ∷ cs) =
    merge_clients (insert c.source_addr (merged c (lookup c.source_addr m)) m) cs

unfoldable pub merge_nodes : Dict ClientInfo → List NodeConnections → Dict ClientInfo
unfolding merge_clients
merge_nodes m [] = m
merge_nodes m (n ∷ ns) = merge_nodes (merge_clients m n.clients) ns

unfoldable pub all_suspicious : List NodeConnections → List SuspiciousClient
all_suspicious [] = []
all_suspicious (n ∷ ns) = n.suspicious ++ all_suspicious ns

-- topN
unfoldable pub top_n : List ClientInfo → ℕ → List ClientInfo
top_n clients n = if ltb (length clients) n then clients else take n clients

abbrev pub is_admin_tool : Str → Bool
is_admin_tool d = eq_str d (str "redis-cmd") || eq_str d (str "redis-commander")

unfoldable pub filter_suspicious : List SuspiciousClient → List SuspiciousClient
unfolding eq_str
filter_suspicious [] = []
filter_suspicious (s ∷ ss) =
    let rest = filter_suspicious ss in if is_admin_tool s.deployment then rest else s ∷ rest

abbrev pub is_critical : Severity → Bool
is_critical critical = true
is_critical warning = false

abbrev pub count_critical : List SuspiciousClient → ℕ
count_critical [] = 0
count_critical (s ∷ ss) =
    if is_critical s.severity then suc (count_critical ss) else count_critical ss

abbrev any_of {ℓ} : {A : Type ℓ} → (A → Bool) → List A → Bool
any_of p [] = false
any_of p (x ∷ xs) = p x || any_of p xs

abbrev or_no_issues : List Recommendation → List Recommendation
or_no_issues [] = no_issues ∷ []
or_no_issues (r ∷ rs) = r ∷ rs

abbrev when : Bool → Recommendation → List Recommendation
when true r = r ∷ []
when false r = []

-- buildRecommendations
unfoldable pub build_recommendations : List ClientInfo → List SuspiciousClient → List Recommendation
build_recommendations clients suspicious = or_no_issues (
    when (any_of (λ s. is_critical s.severity) suspicious) connection_leak
    ++ when (any_of (λ c. lt_int (pos 3600) c.max_idle_sec) clients) long_idle
    ++ when (any_of (λ c. ltb 10 c.conn_count) clients) too_many_connections)

unfoldable pub analyze : List NodeConnections → AnalysisResponse
unfolding merge_nodes all_suspicious sort_desc top_n filter_suspicious build_recommendations
analyze nodes =
    let clients = values (merge_nodes [] nodes) in
    let filtered = filter_suspicious (all_suspicious nodes) in
    record {
      summary = record {
        total_connections = total_of clients;
        unique_clients = length clients;
        suspicious_count = length filtered;
        critical_count = count_critical filtered;
      };
      top_by_connections = top_n (sort_desc (λ c. pos c.conn_count) clients) 10;
      top_by_idle = top_n (sort_desc (λ c. c.max_idle_sec) clients) 10;
      suspicious = filtered;
      recommendations = build_recommendations clients filtered;
    }

abbrev analysis_of : List NodeConnections × Option Err → Result AnalysisResponse
analysis_of (nodes, some e) = err e
analysis_of (nodes, none) = ok (analyze nodes)

-- AnalyzeConnections: any node that fails makes the whole call fail
unfoldable pub analyze_connections : Redis → Config → Option PodCache → Result AnalysisResponse
unfolding get_connections analyze
analyze_connections r cfg cache = analysis_of (get_connections r cfg cache)
