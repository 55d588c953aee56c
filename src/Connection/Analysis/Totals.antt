-- ===== src/Connection/Analysis/Totals.antt =====
-- What the summary counts.
use mathlib.Core.Path.{subst}
use redis_admin.Base.{
  ℕ, suc, Bool, true, not, ◌||◌, ◌++◌, ap, ◌∙◌, str, eq_str, if◌then◌else◌, ◌+◌, ◌≡◌, refl, inl,
  inr, false, Option, none, some, List, [], ◌∷◌, arith, Str, Dict, lookup, insert, length,
  Bool-cases,
}
use redis_admin.Errors.{Err, ok}
use redis_admin.Config.{Config}
use redis_admin.Redis.{Redis}
use redis_admin.K8s.PodCache.{PodCache}
use redis_admin.Connection.Clients.{
  ClientInfo, SuspiciousClient, Severity, critical, warning, NodeConnections, total_of, values,
  get_connections,
}
use redis_admin.Connection.Clients.Groups.{count_of, total_insert}
use redis_admin.Connection.Analysis.{
  AnalysisResponse, merged, merge_clients, merge_nodes, is_admin_tool, filter_suspicious,
  all_suspicious, count_critical, is_critical, analyze, analysis_of, analyze_connections,
}

-- the connections that the nodes report
abbrev pub clients_total : List NodeConnections → ℕ
clients_total [] = 0
clients_total (n ∷ ns) = total_of n.clients + clients_total ns

count_merged :
    (c : ClientInfo) (o : Option ClientInfo) → (merged c o).conn_count ≡ count_of o + c.conn_count
unfolding merged
count_merged c none = omega arith
count_merged c (some ci) = refl

total_merged :
    (c : ClientInfo) (k : Str) (m : Dict ClientInfo)
    → total_of (values (insert k (merged c (lookup k m)) m)) ≡ total_of (values m) + c.conn_count
total_merged c k m =
    omega (arith, total_insert k (merged c (lookup k m)) m, count_merged c (lookup k m))

total_merge_clients :
    (m : Dict ClientInfo) (cs : List ClientInfo)
    → total_of (values (merge_clients m cs)) ≡ total_of (values m) + total_of cs
unfolding merge_clients
total_merge_clients m [] = omega arith
total_merge_clients m (c ∷ cs) = omega (
  arith,
  total_merge_clients (insert c.source_addr (merged c (lookup c.source_addr m)) m) cs,
  total_merged c c.source_addr m,
)

total_merge_nodes :
    (m : Dict ClientInfo) (ns : List NodeConnections)
    → total_of (values (merge_nodes m ns)) ≡ total_of (values m) + clients_total ns
unfolding merge_nodes
total_merge_nodes m [] = omega arith
total_merge_nodes m (n ∷ ns) =
    omega (arith, total_merge_nodes (merge_clients m n.clients) ns, total_merge_clients m n.clients)

-- the elements with a property, in order
abbrev pub keep {ℓ} : {A : Type ℓ} → (A → Bool) → List A → List A
keep p [] = []
keep p (x ∷ xs) = if p x then x ∷ keep p xs else keep p xs

-- the suspicious clients of all nodes
abbrev pub reported : List NodeConnections → List SuspiciousClient
reported [] = []
reported (n ∷ ns) = n.suspicious ++ reported ns

abbrev pub no_tool : SuspiciousClient → Bool
no_tool s =
    not (eq_str s.deployment (str "redis-cmd") || eq_str s.deployment (str "redis-commander"))

abbrev pub as_critical : SuspiciousClient → Bool
as_critical s = elim s.severity [ critical ↦ true | warning ↦ false ]

reported_lem : (ns : List NodeConnections) → all_suspicious ns ≡ reported ns
unfolding all_suspicious
reported_lem [] = refl
reported_lem (n ∷ ns) = ap (λ l. n.suspicious ++ l) (reported_lem ns)

filter_suspicious-keep : (ss : List SuspiciousClient) → filter_suspicious ss ≡ keep no_tool ss
unfolding filter_suspicious
filter_suspicious-keep [] = refl
filter_suspicious-keep (s ∷ ss) = elim (Bool-cases (is_admin_tool s.deployment)) [
  | inl e ↦ rw e (filter_suspicious-keep ss)
  | inr e ↦ rw e (ap (λ l. s ∷ l) (filter_suspicious-keep ss))
]

count_critical-keep :
    (ss : List SuspiciousClient) → count_critical ss ≡ length (keep as_critical ss)
count_critical-keep [] = refl
count_critical-keep (s ∷ ss) = go s.severity (count_critical-keep ss)
  where
    go :
        (v : Severity)
        → count_critical ss ≡ length (keep as_critical ss)
        → (if is_critical v then suc (count_critical ss) else count_critical ss)
          ≡ length (
              if (elim v as (λ x. Bool) [ critical ↦ true | warning ↦ false ])
              then s ∷ keep as_critical ss
              else keep as_critical ss)
    go critical ih = ap suc ih
    go warning ih = ih

-- what holds of a response to the nodes
pub record Counted (nodes : List NodeConnections) (a : AnalysisResponse) : Type 0 where
  pub connections : a.summary.total_connections ≡ clients_total nodes
  pub suspects : a.suspicious ≡ keep no_tool (reported nodes)
  pub suspicious : a.summary.suspicious_count ≡ length a.suspicious
  pub criticals : a.summary.critical_count ≡ length (keep as_critical a.suspicious)

analyze-Counted : (nodes : List NodeConnections) → Counted nodes (analyze nodes)
unfolding analyze
analyze-Counted nodes = record {
  connections = omega (arith, total_merge_nodes [] nodes);
  suspects = filter_suspicious-keep (all_suspicious nodes) ∙ ap (keep no_tool) (reported_lem nodes);
  suspicious = refl;
  criticals = count_critical-keep (filter_suspicious (all_suspicious nodes));
}

-- A response of AnalyzeConnections counts each connection of each node once, however the clients are
-- merged; its suspicious clients are exactly those that the nodes report, in order, without those of the
-- deployments redis-cmd and redis-commander; it says how many they are, and how many of them are
-- critical. It is given only where every node answered.
pub analyze_connections-Counted :
    (r : Redis) (cfg : Config) (cache : Option PodCache) (a : AnalysisResponse)
    → analyze_connections r cfg cache ≡ ok a
    → Counted (get_connections r cfg cache).0 a × ((get_connections r cfg cache).1 ≡ none)
unfolding analyze_connections
analyze_connections-Counted r cfg cache a h = go (get_connections r cfg cache) h
  where
    go :
        (g : List NodeConnections × Option Err)
        → analysis_of g ≡ ok a
        → Counted g.0 a × (g.1 ≡ none)
    go (nodes, some e) h = absurd (cc)
    go (nodes, none) h =
        let e : analyze nodes ≡ a = cc in (subst (Counted nodes) e (analyze-Counted nodes), refl)
