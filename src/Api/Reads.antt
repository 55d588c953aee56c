-- ===== src/Api/Reads.antt =====
-- The handlers of internal/api/handlers that only read: connections.go, slowlog.go, memory.go,
-- replication.go, keys.go, operations.go (GetStaleLocks), config.go (GetConfigDiff, GetConfigAudit) and
-- health.go. A scan has the fuel that its caller gives; `none` is a scan that has run out of it.
use redis_admin.Base.{ℕ, Option, none, some, List, [], ◌∷◌, Str, str}
use redis_admin.Errors.{Err, Result}
use redis_admin.Config.{Config}
use redis_admin.Redis.{Redis}
use redis_admin.Float.{Float64}
use redis_admin.K8s.PodCache.{PodCache}
use redis_admin.Sentinel.Topology.{is_ready}
use redis_admin.Connection.Clients.{NodeConnections, get_connections}
use redis_admin.Connection.Analysis.{AnalysisResponse, analyze_connections}
use redis_admin.Connection.Distribution.{ReplicaDistribution, get_distribution}
use redis_admin.Diagnostics.Slowlog.{SlowlogEntry, get_slowlog}
use redis_admin.Diagnostics.Pipeline.{PipelineReport, get_pipeline_stats}
use redis_admin.Diagnostics.Memory.{EvictedSample, MemoryReport, get_memory}
use redis_admin.Diagnostics.Locks.{LockReport, get_stale_locks}
use redis_admin.Replication.Tracker.{Samples, ReplicaLag, get_replication_lag}
use redis_admin.Replication.Resync.{ResyncReport, get_resync_stats}
use redis_admin.Keys.Hotkey.{HotKeyReport, get_hotkeys}
use redis_admin.Keys.Ttl.{NamespaceTtlReport, get_ttl_report}
use redis_admin.Operations.Audit.{AuditEntry}
use redis_admin.Operations.ConfigDiff.{ConfigDiff, get_config_diff}
use redis_admin.Api.{Response, invalid_param, ok_response, err_response, handle_err, respond}
use redis_admin.Api.Query.{slowlog_limit, top_param, lock_pattern, stale_threshold}
use redis_admin.Base.{Dict}

-- `if err != nil && result == nil { HandleErr } else { OK }`: a slice is nil where nothing was
-- appended to it, and an error that comes with a result is dropped
abbrev pub reply_list : {A : Type 0} → List A → Option Err → Response (List A)
reply_list [] (some e) = handle_err e
reply_list [] none = ok_response []
reply_list (x ∷ xs) e = ok_response (x ∷ xs)

abbrev pub reply : {A : Type 0} → List A × Option Err → Response (List A)
reply (xs, e) = reply_list xs e

-- a service with a state, which goes on with the state after the call
abbrev pub reply_with : {A S : Type 0} → List A × Option Err × S → Response (List A) × S
reply_with (xs, e, s) = (reply_list xs e, s)

abbrev reply_scan : {A : Type 0} → Option (Result A) → Option (Response A)
reply_scan none = none
reply_scan (some x) = some (respond x)

module _ (r : Redis) (cfg : Config) where
  -- handlers.GetConnections
  unfoldable pub connections_handler : Option PodCache → Response (List NodeConnections)
  unfolding get_connections handle_err
  connections_handler cache = reply (get_connections r cfg cache)

  -- handlers.AnalyzeConnections
  unfoldable pub analysis_handler : Option PodCache → Response AnalysisResponse
  unfolding analyze_connections handle_err
  analysis_handler cache = respond (analyze_connections r cfg cache)

  -- handlers.GetSlowlog by the parameter `limit`
  unfoldable pub slowlog_handler : Str → Response (List SlowlogEntry)
  unfolding get_slowlog slowlog_limit handle_err
  slowlog_handler v = elim (slowlog_limit v) [
    | none ↦ err_response 400 invalid_param
    | some limit ↦ reply (get_slowlog r cfg limit)
  ]

  -- handlers.GetPipelineStats
  unfoldable pub pipeline_handler : Response (List PipelineReport)
  unfolding get_pipeline_stats handle_err
  pipeline_handler = reply (get_pipeline_stats r cfg)

  -- handlers.GetConfigDiff
  unfoldable pub config_diff_handler : Response (List ConfigDiff)
  unfolding get_config_diff handle_err
  config_diff_handler = reply (get_config_diff r cfg)

  -- handlers.GetHotkeys by the parameter `top`
  unfoldable pub hotkeys_handler :
      (ℕ → Option Err) → ℕ → Str → Option (Response (List HotKeyReport))
  unfolding get_hotkeys top_param handle_err
  hotkeys_handler ctx fuel v = reply_scan (get_hotkeys r cfg ctx fuel (top_param v))

  abbrev reply_locks : Option (List LockReport × Option Err) → Option (Response (List LockReport))
  reply_locks none = none
  reply_locks (some p) = some (reply p)

  -- handlers.GetStaleLocks by the parameters `pattern` and `stale_threshold`
  unfoldable pub locks_handler :
      (ℕ → Option Err) → ℕ → Str → Str → Option (Response (List LockReport))
  unfolding get_stale_locks stale_threshold handle_err
  locks_handler ctx fuel pattern threshold =
      reply_locks
        (get_stale_locks r cfg ctx fuel (lock_pattern pattern) (stale_threshold threshold))

  module _ {F : Type 0} (fl : Float64 F) where
    -- handlers.GetDistribution
    unfoldable pub distribution_handler : Response (List (ReplicaDistribution F))
    unfolding get_distribution handle_err
    distribution_handler = reply (get_distribution fl r cfg)

    -- handlers.GetMemory
    unfoldable pub memory_handler :
        (ℕ → ℕ) → Dict EvictedSample → Response (List (MemoryReport F)) × Dict EvictedSample
    unfolding get_memory handle_err
    memory_handler clock samples = reply_with (get_memory fl r cfg clock samples)

    -- handlers.GetReplicationLag
    unfoldable pub lag_handler : (ℕ → ℕ) → Samples → Response (List (ReplicaLag F)) × Samples
    unfolding get_replication_lag handle_err
    lag_handler clock samples = reply_with (get_replication_lag fl r cfg clock samples)

    -- handlers.GetResyncStats
    unfoldable pub resync_handler : Response (List (ResyncReport F))
    unfolding get_resync_stats handle_err
    resync_handler = reply (get_resync_stats fl r cfg)

    -- handlers.GetTTLReport
    unfoldable pub ttl_handler :
        (ℕ → Option Err) → ℕ → Option (Response (List (NamespaceTtlReport F)))
    unfolding get_ttl_report handle_err
    ttl_handler ctx fuel = reply_scan (get_ttl_report fl r cfg ctx fuel)

-- handlers.GetConfigAudit
unfoldable pub audit_handler : List AuditEntry → Response (List AuditEntry)
audit_handler log = ok_response log

-- HealthResponse: the status and the time
pub record HealthResponse : Type 0 where
  pub status : Str
  pub timestamp : ℕ

abbrev healthy : ℕ → Response HealthResponse
healthy now = ok_response (record { status = str "ok"; timestamp = now })

-- handlers.Healthz
unfoldable pub healthz : ℕ → Response HealthResponse
healthz now = healthy now

-- handlers.Readyz
unfoldable pub readyz : Redis → ℕ → Response HealthResponse
unfolding is_ready handle_err
readyz r now = elim (is_ready r) [ none ↦ healthy now | some e ↦ handle_err e ]
