-- ===== src/Lib.antt =====
-- redis-admin: the administration service of a Redis Sentinel cluster.
--
-- The service asks the sentinels which nodes there are, asks the nodes for INFO, CLIENT LIST, CONFIG,
-- SCAN and the like, and turns the replies into reports; a few endpoints change the cluster. The
-- parts, each with the files that model it:
--   * Base: bytes as strings, Go maps as association lists, int64 with its wrap-around, lists.
--     Order, Sort, Tally, Ring, Fanout, Float: the loops and operations that several parts share.
--   * Errors: internal/sentinel/errors.go, and errors.Is over wrapped and joined errors.
--   * Config, Config.Load: internal/config/config.go. Redis: what each command replies while a request is served,
--     which is the client library's and so a parameter of every definition that uses it.
--   * Info: the parsers of INFO in internal/sentinel/topology.go, internal/diagnostics/memory.go,
--     internal/replication and internal/operations/failover.go.
--   * Sentinel.Topology, Quorum, EventBus, Flapping, Listener: internal/sentinel/topology.go,
--     quorum.go and pubsub.go. A channel of the bus is a number with what its buffer holds.
--   * Operations.Failover, SetConfig, ConfigDiff, Audit, Notify: internal/operations. A failover
--     returns its result, its error and the list of what it did to the cluster; Notify is what the
--     webhook gets of that list.
--   * Replication.Tracker, Resync: internal/replication. The samples are passed on as a state.
--   * Connection.Clients, Analysis, Distribution: internal/connection.
--   * Keys.Walk, Scanner, Ttl, Hotkey: internal/keys. Diagnostics.Slowlog, Locks, Memory, Pipeline:
--     internal/diagnostics. Chaos.Seed, Flush, Trigger: internal/chaos. K8s.PodCache:
--     internal/k8s/informer.go.
--   * Api: internal/api/response.go, server.go (the error handler), and the handlers: those that
--     change the cluster in Api, those that read in Api.Reads with their parameters in Api.Query, the
--     streams in Api.EventStream and Api.BigkeyStream, the routes of internal/api/routes.go in
--     Api.Routes. Metrics: internal/metrics.
--   * Process: cmd/server/main.go, Start of internal/api/server.go, and how internal/k8s/informer.go
--     finds its client: what main starts, and how the process ends.
--   * Samples: concrete inputs on which the definitions run.
-- A function of the source has its name here in lower case with underscores: GetNodeAddresses is
-- get_node_addresses. A function that may fail returns a Result, or its values and an Option of an
-- error where Go returns both. The context is a function from the number of a check to its error.
-- The loops that the source does not bound run on fuel: the wait for the new master has 46 rounds,
-- one more than the seconds of its time-out; a scan has the fuel that its caller gives, and the
-- number of its pages is enough. Counts of lines and keys are natural numbers, since they stay far
-- below 2 ^ 63; sums of values that a node reports wrap around as int64 does. float64 is an
-- interface; the one theorem that depends on how it rounds, on the flags of the replicas, says how.
-- A run of the event stream is a sequence of turns, of the goroutine of the handler and of those that
-- publish. The deadline that a handler sets is part of what the client library replies.
-- Not modelled: logging, the middleware of the HTTP server, the registry of Prometheus, the
-- connections of the client libraries and of Kubernetes, and the generated docs/swagger. The
-- goroutines of the process are modelled one by one, not their interleaving, except for the event
-- bus with its stream and the listeners.
pub mod Base
pub mod Errors
pub mod Fanout
pub mod Info
pub mod Config
pub mod Redis
pub mod Ring
pub mod Float
pub mod Replication
pub mod K8s
pub mod Connection
pub mod Tally
pub mod Keys
pub mod Order
pub mod Sort
pub mod Diagnostics
pub mod Chaos
pub mod Api
pub mod Metrics
pub mod Process
pub mod Samples
pub mod Sentinel
pub mod Operations
