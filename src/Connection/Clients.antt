-- ===== src/Connection/Clients.antt =====
-- internal/connection/monitor.go and mapper.go: the connections of one node, grouped by the address
-- that they come from. A count stays below the length of the reply, so that Go's int does not
-- overflow. Go iterates over the groups in no fixed order: here it is the order in which their
-- addresses first occur.
pub mod Groups
use redis_admin.Base.{
  ℕ, suc, ◌+◌, Bool, true, false, not, ◌&&◌, Option, none, some, List, [], ◌∷◌, ◌++◌, Str, str,
  is_empty, contains, eq_str, split, fields, cut, trim_space, Dict, lookup, insert, lookup_str, ℤ,
  pos, lt_int, parse_int, length, leb, ◌==◌, if◌then◌else◌, map,
}
use redis_admin.Errors.{Err, wrap, Result, ok, err}
use redis_admin.Config.{Config}
use redis_admin.Redis.{Redis}
use redis_admin.Fanout.{fan_out}
use redis_admin.Sentinel.Topology.{Role, master, replica, NodeAddresses, get_node_addresses}
use redis_admin.K8s.PodCache.{PodCache, PodInfo, lookup_enriched}

pub record ClientInfo : Type 0 where
  pub source_addr : Str
  pub pod_name : Str
  pub namespace : Str
  pub deployment : Str
  pub conn_count : ℕ
  pub max_idle_sec : ℤ
  pub max_qbuf_bytes : ℤ

pub data Severity : Type 0 where
  warning critical : Severity

pub data Reason : Type 0 where
  very_long_idle idle_pool idle_hour : Reason

pub record SuspiciousClient : Type 0 where
  pub source_addr : Str
  pub pod_name : Str
  pub namespace : Str
  pub deployment : Str
  pub reason : Reason
  pub severity : Severity

pub record NodeConnections : Type 0 where
  pub node_addr : Str
  pub role : Role
  pub total : ℕ
  pub unique_clients : ℕ
  pub clients : List ClientInfo
  pub suspicious : List SuspiciousClient

-- the part of an address before its last colon
abbrev before_colon : ℕ → Str → Option Str → Option Str
before_colon c s (some before) = some (c ∷ before)
before_colon c s none = if c == b':' then some [] else none

unfoldable before_last_colon : Str → Option Str
before_last_colon [] = none
before_last_colon (c ∷ s) = before_colon c s (before_last_colon s)

abbrev text_or : Str → Option Str → Str
text_or s none = s
text_or s (some t) = t

unfoldable pub source_ip : Str → Str
unfolding before_last_colon
source_ip addr = text_or addr (before_last_colon addr)

abbrev put_token : Dict Str → Option (Str × Str) → Dict Str
put_token out none = out
put_token out (some (k, v)) = insert k v out

put_tokens : Dict Str → List Str → Dict Str
unfolding cut
put_tokens out [] = out
put_tokens out (token ∷ tokens) = put_tokens (put_token out (cut b'=' token)) tokens

unfoldable pub parse_kv_line : Str → Dict Str
unfolding put_tokens fields
parse_kv_line line = put_tokens [] (fields line)

-- what the loop reads of a line of CLIENT LIST
pub record Connection : Type 0 where
  pub ip : Str
  pub idle : ℤ
  pub qbuf : ℤ

abbrev connection_of : Dict Str → Option Connection
connection_of kv =
    if contains (lookup_str (str "flags") kv) (str "S")
    then none
    else if is_empty (lookup_str (str "addr") kv)
    then none
    else some (record {
      ip = source_ip (lookup_str (str "addr") kv);
      idle = (parse_int (lookup_str (str "idle") kv)).0;
      qbuf = (parse_int (lookup_str (str "qbuf") kv)).0;
    })

-- `none` for a line that is skipped: a blank one, a link of a replica, and one without an address
unfoldable pub connection : Str → Option Connection
unfolding trim_space parse_kv_line contains lookup_str source_ip parse_int
connection line =
    let trimmed = trim_space line in
    if is_empty trimmed then none else connection_of (parse_kv_line trimmed)

abbrev cons_some : Option Connection → List Connection → List Connection
cons_some none cs = cs
cons_some (some c) cs = c ∷ cs

unfoldable pub connections : List Str → List Connection
unfolding connection
connections [] = []
connections (line ∷ lines) = cons_some (connection line) (connections lines)

abbrev pub max_int : ℤ → ℤ → ℤ
max_int new old = if lt_int old new then new else old

-- the group of an address, which starts empty, after one more connection
unfoldable pub touch : Connection → Option ClientInfo → ClientInfo
touch c none = record {
  source_addr = c.ip;
  pod_name = [];
  namespace = [];
  deployment = [];
  conn_count = 1;
  max_idle_sec = max_int c.idle (pos 0);
  max_qbuf_bytes = max_int c.qbuf (pos 0);
}
touch c (some ci) = record ci {
  conn_count = ci.conn_count + 1;
  max_idle_sec = max_int c.idle ci.max_idle_sec;
  max_qbuf_bytes = max_int c.qbuf ci.max_qbuf_bytes;
}

unfoldable pub group : Dict ClientInfo → List Connection → Dict ClientInfo
unfolding touch insert lookup
group by_ip [] = by_ip
group by_ip (c ∷ cs) = group (insert c.ip (touch c (lookup c.ip by_ip)) by_ip) cs

abbrev filled : ClientInfo → Option PodInfo → ClientInfo
filled ci none = ci
filled ci (some p) = record ci {
  pod_name = p.pod_name;
  namespace = p.namespace;
  deployment = p.deployment;
}

-- enrichWithPodInfo, without a cache where there is none
unfoldable pub enrich_with_pod_info : Option PodCache → ClientInfo → ClientInfo
unfolding lookup_enriched source_ip
enrich_with_pod_info none ci = ci
enrich_with_pod_info (some cache) ci = filled ci (lookup_enriched cache (source_ip ci.source_addr))

abbrev flag_client : ClientInfo → Reason → Severity → SuspiciousClient
flag_client ci reason severity = record {
  source_addr = ci.source_addr;
  pod_name = ci.pod_name;
  namespace = ci.namespace;
  deployment = ci.deployment;
  reason = reason;
  severity = severity;
}

-- the rules, in their order
unfoldable pub suspect : ClientInfo → Option SuspiciousClient
suspect ci =
    if leb 5 ci.conn_count && lt_int (pos 86400) ci.max_idle_sec
    then some (flag_client ci very_long_idle critical)
    else if leb 3 ci.conn_count && lt_int (pos 300) ci.max_idle_sec
    then some (flag_client ci idle_pool warning)
    else if lt_int (pos 3600) ci.max_idle_sec
    then some (flag_client ci idle_hour warning)
    else none

abbrev cons_suspect : Option SuspiciousClient → List SuspiciousClient → List SuspiciousClient
cons_suspect none ss = ss
cons_suspect (some s) ss = s ∷ ss

unfoldable pub suspects : List ClientInfo → List SuspiciousClient
unfolding suspect
suspects [] = []
suspects (ci ∷ cis) = cons_suspect (suspect ci) (suspects cis)

abbrev pub total_of : List ClientInfo → ℕ
total_of [] = 0
total_of (ci ∷ cis) = ci.conn_count + total_of cis

abbrev pub values : Dict ClientInfo → List ClientInfo
values m = map (λ e. e.1) m

unfoldable pub node_connections : Option PodCache → Str → Role → List Connection → NodeConnections
unfolding group enrich_with_pod_info suspects
node_connections cache addr role cs =
    let groups = values (group [] cs) in
    let clients = map (enrich_with_pod_info cache) groups in
    record {
      node_addr = addr;
      role = role;
      total = total_of groups;
      unique_clients = length groups;
      clients = clients;
      suspicious = suspects clients;
    }

-- fetchNodeConnections
unfoldable pub fetch_node_connections :
    Redis → Option PodCache → Str × Role → Result NodeConnections
unfolding node_connections connections split
fetch_node_connections r cache (addr, role) = elim (r.client_list addr) [
  | err e ↦ err (wrap (str "CLIENT LIST on " ++ addr) e)
  | ok raw ↦ ok (node_connections cache addr role (connections (split 10 raw)))
]

-- GetConnections
unfoldable pub get_connections :
    Redis → Config → Option PodCache → List NodeConnections × Option Err
unfolding get_node_addresses fan_out fetch_node_connections
get_connections r cfg cache = elim (get_node_addresses r cfg) [
  | err e ↦ ([], some (wrap (str "get connections") e))
  | ok addrs ↦
      fan_out (λ n e. wrap (str "node " ++ n.0) e) (fetch_node_connections r cache)
        ((addrs.master, master) ∷ map (λ a. (a, replica)) addrs.replicas)
]
