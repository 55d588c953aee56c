-- ===== src/Api/Routes.antt =====
-- internal/api/routes.go: which routes RegisterRoutes mounts, by the handlers that are given to it.
-- The page of the documentation and echo's own lookup of a route are not modelled.
pub mod Documented
use redis_admin.Base.{
  ◌≡◌, refl, ap, sym, ◌∙◌, inl, inr, Bool, true, false, not, ◌&&◌, ◌||◌, Option, none, some, String,
  List, [], ◌∷◌, ◌++◌, Str, str, eq_str, if◌then◌else◌, Bool-cases,
}

-- the handlers of Deps
pub data Endpoint : Type 0 where
  healthz readyz get_topology event_stream : Endpoint
  get_connections analyze_connections get_distribution get_slowlog get_pipeline : Endpoint
  get_memory stream_bigkeys get_hotkeys get_ttl_report : Endpoint
  get_replication_lag get_resync_stats get_config_diff get_config_audit set_config : Endpoint
  trigger_failover get_stale_locks seed_data flush_data chaos_failover : Endpoint

pub data Method : Type 0 where
  get post : Method

pub record Route : Type 0 where
  pub method : Method
  pub path : Str
  pub endpoint : Endpoint

abbrev pub v1 : String → Str
v1 p = str "/api/v1" ++ str p

abbrev pub at_get : Str → Endpoint → Route
at_get p e = record { method = get; path = p; endpoint = e }

abbrev pub at_post : Str → Endpoint → Route
at_post p e = record { method = post; path = p; endpoint = e }

-- a statement of RegisterRoutes: the handler that it asks for, if any, and the route that it mounts
pub record Mount : Type 0 where
  pub asks : Option Endpoint
  pub route : Route

abbrev always : Route → Mount
always r = record { asks = none; route = r }

abbrev when : Endpoint → Route → Mount
when e r = record { asks = some e; route = r }

-- the statements of RegisterRoutes, in order
abbrev pub mounts : List Mount
mounts =
    always (at_get (str "/healthz") healthz)
    ∷ always (at_get (str "/readyz") readyz)
    ∷ always (at_get (v1 "/topology") get_topology)
    ∷ always (at_get (v1 "/events/stream") event_stream)
    ∷ when get_connections (at_get (v1 "/connections") get_connections)
    ∷ when get_connections (at_get (v1 "/connections/analysis") analyze_connections)
    ∷ when get_distribution (at_get (v1 "/connections/distribution") get_distribution)
    ∷ when get_slowlog (at_get (v1 "/diagnostics/slowlog") get_slowlog)
    ∷ when get_pipeline (at_get (v1 "/diagnostics/pipeline") get_pipeline)
    ∷ when get_memory (at_get (v1 "/diagnostics/memory") get_memory)
    ∷ when stream_bigkeys (at_get (v1 "/keys/bigkeys") stream_bigkeys)
    ∷ when get_hotkeys (at_get (v1 "/keys/hotkeys") get_hotkeys)
    ∷ when get_ttl_report (at_get (v1 "/keys/ttl-report") get_ttl_report)
    ∷ when get_replication_lag (at_get (v1 "/replication/lag") get_replication_lag)
    ∷ when get_resync_stats (at_get (v1 "/replication/resync-stats") get_resync_stats)
    ∷ when get_config_diff (at_get (v1 "/config/diff") get_config_diff)
    ∷ when get_config_audit (at_get (v1 "/config/audit") get_config_audit)
    ∷ when set_config (at_post (v1 "/config/set") set_config)
    ∷ when trigger_failover (at_post (v1 "/ops/failover") trigger_failover)
    ∷ when get_stale_locks (at_get (v1 "/diagnostics/locks") get_stale_locks)
    ∷ when seed_data (at_post (v1 "/ops/chaos/seed") seed_data)
    ∷ when flush_data (at_post (v1 "/ops/chaos/flush") flush_data)
    ∷ when chaos_failover (at_post (v1 "/ops/chaos/failover") chaos_failover)
    ∷ []

-- `deps.X != nil`
abbrev pub holds : (Endpoint → Bool) → Option Endpoint → Bool
holds given none = true
holds given (some e) = given e

unfoldable pub mount_each : (Endpoint → Bool) → List Mount → List Route
mount_each given [] = []
mount_each given (m ∷ ms) =
    let rest = mount_each given ms in if holds given m.asks then m.route ∷ rest else rest

-- RegisterRoutes, with `given e` for `deps.e != nil`
unfoldable pub register_routes : (Endpoint → Bool) → List Route
unfolding mount_each
register_routes given = mount_each given mounts
