-- ===== src/Api/Answers.antt =====
-- What the endpoints that ask every node answer, by what the nodes reply.
use redis_admin.Base.{◌≡◌, refl, ◌++◌, arith, Str, str, map}
use redis_admin.Errors.{Err, Result, ok, err}
use redis_admin.Config.{Config}
use redis_admin.Redis.{Redis}
use redis_admin.Float.{Float64}
use redis_admin.Sentinel.Topology.{Role, master, replica, NodeAddresses, get_node_addresses}
use redis_admin.Sentinel.Topology.Laws.{get_node_addresses-Failure}
use redis_admin.Replication.Resync.{nodes_of, fetch_resync, get_resync_stats}
use redis_admin.Diagnostics.Pipeline.{fetch_pipeline_report, get_pipeline_stats}
use redis_admin.Api.Reads.{pipeline_handler, resync_handler}
use redis_admin.Api.FanOut.{
  Unreachable, Answer, unresolved-Answer, unresolved, fan_out-Answer, labelled-Unreachable,
  every_node,
}

pipeline_silent :
    (r : Redis) (a : Str) (e : Err) → fetch_pipeline_report r a ≡ err e → Unreachable e
unfolding fetch_pipeline_report
pipeline_silent r a e h = labelled-Unreachable (str "INFO stats on " ++ a) e (ground arith)

module _ {F : Type 0} (fl : Float64 F) (r : Redis) (cfg : Config) where
  resync_silent : (n : Str × Role) (e : Err) → fetch_resync fl r n ≡ err e → Unreachable e
  unfolding fetch_resync
  resync_silent (a, role) e h =
      labelled-Unreachable (str "INFO replication on " ++ a) e (ground arith)

  pipeline-Answer :
      (q : Result NodeAddresses)
      → get_node_addresses r cfg ≡ q
      → Answer r cfg every_node (fetch_pipeline_report r) (pipeline_handler r cfg)
  unfolding pipeline_handler get_pipeline_stats
  pipeline-Answer (err e) h =
      rw (h, get_pipeline_stats)
        (unresolved-Answer r cfg _ _ _
          (unresolved r cfg (str "get pipeline stats") e (get_node_addresses-Failure r cfg e h)))
  pipeline-Answer (ok addrs) h =
      rw (h, get_pipeline_stats)
        (fan_out-Answer (λ a. str "node " ++ a) (fetch_pipeline_report r) (pipeline_silent r) r cfg
          addrs.master addrs.replicas every_node addrs refl h)

  resync-Answer :
      (q : Result NodeAddresses)
      → get_node_addresses r cfg ≡ q
      → Answer r cfg nodes_of (fetch_resync fl r) (resync_handler r cfg fl)
  unfolding resync_handler get_resync_stats
  resync-Answer (err e) h =
      rw (h, get_resync_stats)
        (unresolved-Answer r cfg _ _ _
          (unresolved r cfg (str "get resync stats") e (get_node_addresses-Failure r cfg e h)))
  resync-Answer (ok addrs) h =
      rw (h, get_resync_stats)
        (fan_out-Answer (λ n. str "node " ++ n.0) (fetch_resync fl r) resync_silent r cfg
          (addrs.master, master) (map (λ a. (a, replica)) addrs.replicas) nodes_of addrs refl h)

-- The endpoints of the pipelines and of the replication backlog answer with 200 and what the nodes
-- gave where at least one node answers, and the errors of the others are dropped; with 502 where no
-- node answers or every configured sentinel is silent; and with 503 where the first sentinel that
-- answers names no master. They have no other answer, whatever fails.
pub reads-Answered :
    {F : Type 0} (fl : Float64 F) (r : Redis) (cfg : Config)
    → Answer r cfg every_node (fetch_pipeline_report r) (pipeline_handler r cfg)
      × Answer r cfg nodes_of (fetch_resync fl r) (resync_handler r cfg fl)
reads-Answered fl r cfg = (
  pipeline-Answer fl r cfg (get_node_addresses r cfg) refl,
  resync-Answer fl r cfg (get_node_addresses r cfg) refl,
)
