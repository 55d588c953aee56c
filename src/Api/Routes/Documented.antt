-- ===== src/Api/Routes/Documented.antt =====
-- What is served under the documented paths.
use redis_admin.Base.{
  Bool, true, false, ◌&&◌, Option, none, some, List, [], ◌∷◌, str, eq_str, if◌then◌else◌,
}
use redis_admin.Api.Routes.{
  Endpoint, Method, get, post, Route, Mount, v1, at_get, at_post, holds, healthz, readyz,
  get_topology, event_stream, get_connections, analyze_connections, get_distribution, get_slowlog,
  get_pipeline, get_memory, stream_bigkeys, get_hotkeys, get_ttl_report, get_replication_lag,
  get_resync_stats, get_config_diff, get_config_audit, set_config, trigger_failover,
  get_stale_locks, seed_data, flush_data, chaos_failover,
}

-- the method and the path that the documentation of each handler gives
abbrev pub documented : Endpoint → Route
documented healthz = at_get (str "/healthz") healthz
documented readyz = at_get (str "/readyz") readyz
documented get_topology = at_get (v1 "/topology") get_topology
documented event_stream = at_get (v1 "/events/stream") event_stream
documented get_connections = at_get (v1 "/connections") get_connections
documented analyze_connections = at_get (v1 "/connections/analysis") analyze_connections
documented get_distribution = at_get (v1 "/connections/distribution") get_distribution
documented get_slowlog = at_get (v1 "/diagnostics/slowlog") get_slowlog
documented get_pipeline = at_get (v1 "/diagnostics/pipeline") get_pipeline
documented get_memory = at_get (v1 "/diagnostics/memory") get_memory
documented stream_bigkeys = at_get (v1 "/keys/bigkeys") stream_bigkeys
documented get_hotkeys = at_get (v1 "/keys/hotkeys") get_hotkeys
documented get_ttl_report = at_get (v1 "/keys/ttl-report") get_ttl_report
documented get_replication_lag = at_get (v1 "/replication/lag") get_replication_lag
documented get_resync_stats = at_get (v1 "/replication/resync-stats") get_resync_stats
documented get_config_diff = at_get (v1 "/config/diff") get_config_diff
documented get_config_audit = at_get (v1 "/config/audit") get_config_audit
documented set_config = at_post (v1 "/config/set") set_config
documented trigger_failover = at_post (v1 "/ops/failover") trigger_failover
documented get_stale_locks = at_get (v1 "/diagnostics/locks") get_stale_locks
documented seed_data = at_post (v1 "/ops/chaos/seed") seed_data
documented flush_data = at_post (v1 "/ops/chaos/flush") flush_data
documented chaos_failover = at_post (v1 "/ops/chaos/failover") chaos_failover

abbrev same_method : Method → Method → Bool
same_method get get = true
same_method post post = true
same_method get post = false
same_method post get = false

abbrev is_at : Route → Route → Bool
is_at q r = same_method r.method q.method && eq_str r.path q.path

-- the first route with the method and the path of another
unfoldable pub find_route : Route → List Route → Option Route
unfolding eq_str
find_route q [] = none
find_route q (r ∷ rs) = if is_at q r then some r else find_route q rs

-- the handler on which it depends that a handler is served
abbrev pub wanted : (Endpoint → Bool) → Endpoint → Bool
wanted given healthz = true
wanted given readyz = true
wanted given get_topology = true
wanted given event_stream = true
wanted given get_connections = given get_connections
wanted given analyze_connections = given get_connections
wanted given get_distribution = given get_distribution
wanted given get_slowlog = given get_slowlog
wanted given get_pipeline = given get_pipeline
wanted given get_memory = given get_memory
wanted given stream_bigkeys = given stream_bigkeys
wanted given get_hotkeys = given get_hotkeys
wanted given get_ttl_report = given get_ttl_report
wanted given get_replication_lag = given get_replication_lag
wanted given get_resync_stats = given get_resync_stats
wanted given get_config_diff = given get_config_diff
wanted given get_config_audit = given get_config_audit
wanted given set_config = given set_config
wanted given trigger_failover = given trigger_failover
wanted given get_stale_locks = given get_stale_locks
wanted given seed_data = given seed_data
wanted given flush_data = given flush_data
wanted given chaos_failover = given chaos_failover

-- the same in the statements of RegisterRoutes
find_mount : (Endpoint → Bool) → Route → List Mount → Option Route
unfolding eq_str
find_mount given q [] = none
find_mount given q (m ∷ ms) =
    let rest = find_mount given q ms in
    if is_at q m.route then if holds given m.asks then some m.route else rest else rest
