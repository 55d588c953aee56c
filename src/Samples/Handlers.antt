-- ===== src/Samples/Handlers.antt =====
-- The endpoints that read, the routes and the metrics on the cluster of the samples.
use redis_admin.Base.{
  Dict, ℕ, ◌+◌, ◌*◌, ◌≤◌, ◌≡◌, ◌≢◌, refl, ◌↔◌, Bool, true, false, Option, none, some, List, [], ◌∷◌,
  ◌++◌, arith, Str, str, eq_str, ℤ, pos, length, All, if◌then◌else◌, ◌==◌, lt_int,
}
use redis_admin.Errors.{Err, Result, ok}
use redis_admin.Redis.{Redis, SlowlogReply}
use redis_admin.Config.{Config}
use redis_admin.Keys.Walk.{last_page}
use redis_admin.Keys.Pages.{PageRun}
use redis_admin.Keys.Pages
use redis_admin.Diagnostics.Locks.{LockState, scan_locks}
use redis_admin.Diagnostics.Locks.Complete.{fresh, all_keys, stale_locks, scan_locks-Complete}
use redis_admin.Diagnostics.Pipeline.{fetch_pipeline_report}
use redis_admin.Replication.Resync.{nodes_of, fetch_resync}
use redis_admin.Operations.Failover.{failover}
use redis_admin.Operations.Notify.{WebhookPayload}
use redis_admin.Operations.Notify.Posts.{posts, Posted, failover-Posted}
use redis_admin.Metrics.{new_gauges}
use redis_admin.Metrics.Consistency.{IsConsistent, collect_all, collect_all-IsConsistent}
use redis_admin.Api.{ok_response, flush_data}
use redis_admin.Api.FlushData.{flush_data-Complete}
use redis_admin.Api.Reads.{slowlog_handler, pipeline_handler, resync_handler}
use redis_admin.Api.FanOut.{every_node, Answer}
use redis_admin.Api.Answers.{reads-Answered}
use redis_admin.Api.Limits.{SlowlogAnswer, slowlog_handler-Answer}
use redis_admin.Samples.Cluster.{config, cluster, steady, done as switched}
use redis_admin.Samples.Services.{keyed, whole}

abbrev calm : ℕ → Option Err
calm n = none

-- a node with an LFU policy and three keys
abbrev lfu : Redis
lfu = record cluster {
  config_get = λ a p. ok ((str "maxmemory-policy", str "allkeys-lfu") ∷ []);
  scan = λ a p c. ok (str "u:1" ∷ str "v" ∷ str "w" ∷ [], 0);
  object_freq = λ a k. ok (if eq_str k (str "v") then pos 9 else pos 4);
  type_of = λ a k. ok (str "hash");
  ttl = λ a k. ok (pos 900000000000);
}

abbrev three : List Str
three = str "u:1" ∷ str "v" ∷ str "w" ∷ []

scan_locks-Complete_example :
    (j : ℕ) × (s : LockState) × (scan_locks lfu calm 1
        (str "b:1")
        (str "lock:*")
        (pos 300)
        0
        (str "v" ∷ [])
      ≡ some (none, j, s))
    × (s.locks
        ≡ stale_locks lfu (str "b:1") (pos 300) (fresh (str "v" ∷ []) (all_keys (three ∷ []))))
scan_locks-Complete_example =
    scan_locks-Complete lfu calm 1 (str "b:1") (str "lock:*") (pos 300) 0 (str "v" ∷ [])
      (three ∷ []) (λ i. refl) (Pages.last_page refl) (omega arith)

abbrev two_pages : Str → ℕ → Result (List Str × ℕ)
two_pages p c = ok (if c == 0 then (str "test:1" ∷ str "test:2" ∷ [], 7) else ([], 0))

abbrev delete : List Str → ℤ × Option Err
delete ks = (pos (length ks), none)

flush_data-Complete_example :
    flush_data calm two_pages delete 2 5 [] true
    ≡ some (
      ok_response (record { keys_deleted = pos 2; pattern = str "test:*"; elapsed_ms = 5 }),
      (str "test:1" ∷ str "test:2" ∷ []) ∷ [],
    )
unfolding redis_admin.Base.add64
flush_data-Complete_example =
    flush_data-Complete calm two_pages delete 2 5 [] true
      ((str "test:1" ∷ str "test:2" ∷ []) ∷ [] ∷ []) (λ i. refl)
      (Pages.one_more refl refl (Pages.last_page refl)) (omega arith)

reads-Answered_example :
    Answer keyed config every_node (fetch_pipeline_report keyed) (pipeline_handler keyed config)
    × Answer keyed config nodes_of (fetch_resync whole keyed) (resync_handler keyed config whole)
reads-Answered_example = reads-Answered whole keyed config

abbrev slow_reply : ℕ → SlowlogReply
slow_reply n = record {
  id = pos n;
  time = 7;
  duration_ns = pos (n * 1000000);
  args = str "KEYS" ∷ str "*" ∷ [];
  client_addr = str "10.0.0.9:5";
  client_name = str "";
}

-- each node has two slow commands
abbrev slow : Redis
slow = record keyed { slowlog_get = λ a n. ok (slow_reply 3 ∷ slow_reply 8 ∷ []) }

slowlog_handler-Answer_example :
    SlowlogAnswer slow config (str "1") (slowlog_handler slow config (str "1"))
slowlog_handler-Answer_example = slowlog_handler-Answer slow config (str "1")

collect_all-IsConsistent_example :
    IsConsistent whole
      (collect_all whole config
        (record { nodes = keyed; now = 3; clock = λ i. i } ∷ [])
        (new_gauges whole, [])).0
collect_all-IsConsistent_example =
    collect_all-IsConsistent whole config (record { nodes = keyed; now = 3; clock = λ i. i } ∷ [])
      []

abbrev hooked : Config
hooked = record config { webhook_url = str "http://h" }

abbrev built : Str → Option Err
built url = none

abbrev accepted : Str → WebhookPayload → Result ℕ
accepted url p = ok 204

hooked_run : failover cluster hooked steady 2100 false ≡ some switched
unfolding failover redis_admin.Base.insert
hooked_run = refl

failover-Posted_example :
    Posted built accepted cluster hooked false switched 8
      (posts built accepted (str "http://h") 8 switched.effects)
failover-Posted_example =
    failover-Posted built accepted cluster hooked steady 2100 false switched 8 hooked_run
