-- ===== src/Api.antt =====
-- internal/api: the responses, and the handlers that decide something. A request is what the handler
-- reads of it, bound without an error; the texts of the messages are left out.
pub mod Guards
pub mod Status
pub mod Query
pub mod Reads
pub mod FanOut
pub mod Answers
pub mod EventStream
pub mod FlushData
pub mod Routes
pub mod BigkeyStream
pub mod Limits
use redis_admin.Base.{
  ℕ, zero, suc, ◌≤◌, Bool, true, false, not, ◌&&◌, ◌||◌, Option, none, some, List, [], ◌∷◌, ◌++◌,
  Str, str, is_empty, ℤ, pos, negsuc, lt_int, ltb, if◌then◌else◌,
}
use redis_admin.Errors.{
  Cause, Err, is, no_master, quorum_not_met, node_unreachable, flapping, deadline_exceeded,
  canceled, Result, ok, err,
}
use redis_admin.Config.{Config}
use redis_admin.Redis.{Redis}
use redis_admin.Sentinel.Topology.{TopologySnapshot, get_topology}
use redis_admin.Operations.Audit.{AuditEntry}
use redis_admin.Operations.SetConfig.{Change, set_config}
use redis_admin.Operations.Failover
use redis_admin.Operations.Failover.{FailoverResult, Outcome, Wait, failover}
use redis_admin.Chaos.Seed.{Command, SeedSpec, with_defaults, Seeded, seed}
use redis_admin.Chaos.Flush.{FlushResult, flush}
use redis_admin.Chaos.Trigger
use redis_admin.Chaos.Trigger.{ChaosFailoverResult, Triggered, trigger_chaos_failover}
use redis_admin.Diagnostics.Locks.{LockReport}

pub data Code : Type 0 where
  no_master_code quorum_not_met_code node_unreachable_code node_flapping timeout internal_error :
      Code
  invalid_request invalid_param confirm_required failover_error http_error : Code

-- APIResponse with its status
pub record Response (A : Type 0) : Type 0 where
  pub status : ℕ
  pub data_part : Option A
  pub error_code : Option Code

-- OK, Err
abbrev pub ok_response : {A : Type 0} → A → Response A
ok_response a = record { status = 200; data_part = some a; error_code = none }

abbrev pub err_response : {A : Type 0} → ℕ → Code → Response A
err_response status code = record { status = status; data_part = none; error_code = some code }

-- HandleErr
unfoldable pub handle_err : {A : Type 0} → Err → Response A
unfolding is
handle_err e =
    if is no_master e
    then err_response 503 no_master_code
    else if is quorum_not_met e
    then err_response 503 quorum_not_met_code
    else if is node_unreachable e
    then err_response 502 node_unreachable_code
    else if is flapping e
    then err_response 503 node_flapping
    else if is deadline_exceeded e
    then err_response 504 timeout
    else if is canceled e
    then err_response 504 timeout
    else err_response 500 internal_error

abbrev respond : {A : Type 0} → Result A → Response A
respond (err e) = handle_err e
respond (ok a) = ok_response a

-- handlers.GetTopology
unfoldable pub topology_handler : Redis → Config → ℕ → Response TopologySnapshot
unfolding get_topology handle_err
topology_handler r cfg now = respond (get_topology r cfg now)

abbrev failover_response : Option FailoverResult → Option Err → Response FailoverResult
failover_response result none = record { status = 200; data_part = result; error_code = none }
failover_response (some res) (some e) = record {
  status = 422;
  data_part = some res;
  error_code = some failover_error;
}
failover_response none (some e) = handle_err e

-- a response, and what the handler did to the cluster
abbrev failover_done : Option Outcome → Option (Response FailoverResult × List Failover.Effect)
failover_done none = none
failover_done (some o) = some (failover_response o.result o.error, o.effects)

-- handlers.TriggerFailover
unfoldable pub trigger_failover :
    Redis
    → Config
    → Wait
    → ℕ
    → (dry_run confirm : Bool) → Option (Response FailoverResult × List Failover.Effect)
unfolding failover handle_err
trigger_failover r cfg w elapsed dry_run confirm =
    if not dry_run && not confirm
    then some (err_response 400 confirm_required, [])
    else failover_done (failover r cfg w elapsed dry_run)

abbrev set_done : Option Err × List AuditEntry → Response Unit × List AuditEntry
set_done (some e, log) = (handle_err e, log)
set_done (none, log) = (record { status = 200; data_part = none; error_code = none }, log)

-- handlers.SetConfig, with the audit log before and after
unfoldable pub set_config_handler :
    Redis → ℕ → List AuditEntry → Change → (confirm : Bool) → Response Unit × List AuditEntry
unfolding set_config handle_err
set_config_handler r now log c confirm =
    if not confirm
    then (err_response 400 confirm_required, log)
    else if is_empty c.node_addr || is_empty c.key
    then (err_response 400 invalid_request, log)
    else set_done (set_config r now log c)

pub record SeedRequest : Type 0 where
  pub key_count : ℤ
  pub key_prefix : Str
  pub value_size : ℤ
  pub key_type : Str
  pub ttl_sec : ℤ
  pub confirm : Bool

abbrev seed_done : Seeded → Response ℕ × List (List Command)
seed_done s = elim s.error [
  | some e ↦ (handle_err e, s.sent)
  | none ↦ (ok_response s.created, s.sent)
]

abbrev key_count_of : ℤ → ℤ
key_count_of n = if lt_int (pos 0) n then n else pos 100

-- handlers.SeedData, with the batches that it sent
unfoldable pub seed_data :
    (ℕ → Str)
    → (ℕ → Option Err)
    → (ℕ → List Command → Option Err)
    → SeedRequest
    → Response ℕ × List (List Command)
unfolding seed with_defaults handle_err
seed_data value ctx exec q =
    if not q.confirm
    then (err_response 400 confirm_required, [])
    else if lt_int (pos 100000) (key_count_of q.key_count)
    then (err_response 400 invalid_request, [])
    else seed_done (
        seed
          (with_defaults q.key_prefix (key_count_of q.key_count) q.value_size q.key_type q.ttl_sec)
          value ctx exec)

abbrev chaos_done : Triggered → Response ChaosFailoverResult × List Trigger.Effect
chaos_done (t, effects) = (respond t, effects)

-- handlers.ChaosFailover
unfoldable pub chaos_failover :
    Redis
    → Config
    → Option (Str → Str → Option Err)
    → Str
    → Str
    → Str
    → (confirm : Bool) → Response ChaosFailoverResult × List Trigger.Effect
unfolding trigger_chaos_failover handle_err
chaos_failover r cfg k8s mode ns pod confirm =
    if not confirm
    then (err_response 400 confirm_required, [])
    else chaos_done
        (trigger_chaos_failover r cfg k8s (if is_empty mode then str "sentinel" else mode) ns pod)

abbrev flush_done :
    Option (Result FlushResult × List (List Str)) → Option (Response FlushResult × List (List Str))
flush_done none = none
flush_done (some (q, calls)) = some (respond q, calls)

-- handlers.FlushData, with the keys of each DEL that it sent
unfoldable pub flush_data :
    (ℕ → Option Err)
    → (Str → ℕ → Result (List Str × ℕ))
    → (List Str → ℤ × Option Err)
    → ℕ
    → ℕ
    → Str
    → (confirm : Bool) → Option (Response FlushResult × List (List Str))
unfolding flush handle_err
flush_data ctx scan delete fuel elapsed pattern confirm =
    if not confirm
    then some (err_response 400 confirm_required, [])
    else flush_done (flush ctx scan delete fuel elapsed pattern)

-- what a handler or the router hands to the error handler of the server: echo.HTTPError with its code,
-- or another error
pub data Raised : Type 0 where
  http_code : ℕ → Raised
  other_error : Raised

-- HTTPErrorHandler of internal/api/server.go
unfoldable pub http_error_handler : {A : Type 0} → Raised → Response A
http_error_handler (http_code code) = err_response code http_error
http_error_handler other_error = err_response 500 internal_error
