-- ===== src/Process.antt =====
-- cmd/server/main.go, Start of internal/api/server.go and of internal/metrics/exporter.go, and what
-- internal/k8s/informer.go does to reach Kubernetes: the life of the process. What the environment and the
-- libraries reply is one record; the goroutines that main starts are modelled by what they are started with.
pub mod Life
use redis_admin.Base.{
  Bool, true, false, Option, none, some, List, [], ◌∷◌, ◌++◌, Str, str, is_empty, ℤ, pos, lt_int,
  if◌then◌else◌,
}
use redis_admin.Errors.{Err, other, wrap, Result, ok, err}
use redis_admin.Config.{Config}
use redis_admin.Config.Load.{ReadConfig, load}
use redis_admin.Api.Routes.{
  Endpoint, Route, register_routes, healthz, readyz, get_topology, event_stream, get_connections,
  analyze_connections, get_distribution, get_slowlog, get_pipeline, get_memory, stream_bigkeys,
  get_hotkeys, get_ttl_report, get_replication_lag, get_resync_stats, get_config_diff,
  get_config_audit, set_config, trigger_failover, get_stale_locks, seed_data, flush_data,
  chaos_failover,
}

-- what http.Server's ListenAndServe returns when it ends
pub data ServerEnd : Type 0 where
  closed : ServerEnd
  failed : Err → ServerEnd

-- what select receives first: the signal, or the end of the server
pub data Stop : Type 0 where
  signalled : Stop
  server_returned : ServerEnd → Stop

-- where loadK8sConfig looks for a configuration: KUBECONFIG, or $HOME/.kube/config
pub data Kubeconfig : Type 0 where
  named under_home : Str → Kubeconfig

pub record Outside : Type 0 where
  -- viper
  pub file : ReadConfig
  pub unmarshal : Result Config
  -- zap: the level of a text, and the error of Build
  pub level_of : Str → Option ℤ
  pub build : ℤ → Option Err
  -- the environment and client-go
  pub in_cluster : Option Err
  pub kubeconfig : Str
  pub home : Str
  pub from_flags : Kubeconfig → Option Err
  pub new_for_config : Option Err
  pub add_handler : Option Err
  pub synced : Bool
  -- the end of the process
  pub stop : Stop
  pub shutdown : Option Err

-- buildLogger; the level of zapcore.InfoLevel is 0
unfoldable pub build_logger : Outside → Str → Option Err
build_logger o level = o.build (elim (o.level_of level) [ some l ↦ l | none ↦ pos 0 ])

-- loadK8sConfig, by its error
unfoldable pub load_k8s_config : Outside → Option Err
load_k8s_config o = elim o.in_cluster [
  | none ↦ none
  | some e ↦ o.from_flags (if is_empty o.kubeconfig then under_home o.home else named o.kubeconfig)
]

-- BuildK8sClient, by its error
unfoldable pub build_k8s_client : Outside → Option Err
unfolding load_k8s_config
build_k8s_client o = elim (load_k8s_config o) [
  | some e ↦ some (wrap (str "load k8s config") e)
  | none ↦ elim o.new_for_config [ some e ↦ some (wrap (str "create k8s client") e) | none ↦ none ]
]

-- StartPodInformer, by its error
unfoldable pub start_pod_informer : Outside → Option Err
start_pod_informer o = elim o.add_handler [
  | some e ↦ some (wrap (str "add event handler") e)
  | none ↦ if o.synced then none else some (other (str "timed out waiting for pod cache sync"))
]

-- Server.Start, by what echo returns
unfoldable pub start_server : ServerEnd → Option Err
start_server closed = none
start_server (failed e) = some (wrap (str "HTTP server") e)

-- the handlers that main gives to RegisterRoutes
unfoldable pub deps : Endpoint → Bool
deps healthz = true
deps readyz = true
deps get_topology = true
deps event_stream = true
deps get_connections = true
deps analyze_connections = true
deps get_distribution = true
deps get_slowlog = true
deps get_pipeline = true
deps get_memory = true
deps stream_bigkeys = true
deps get_hotkeys = true
deps get_ttl_report = true
deps get_replication_lag = true
deps get_resync_stats = true
deps get_config_diff = true
deps get_config_audit = true
deps set_config = true
deps trigger_failover = true
deps get_stale_locks = true
deps seed_data = true
deps flush_data = true
deps chaos_failover = true

-- What main does, in order: the sentinels that are listened to, the namespace whose pods are watched with
-- the error of the informer, the interval of polling, the routes that are registered, the ports that are
-- served, what ends the wait, and the shutdown with its time-out in nanoseconds and its error.
pub data Action : Type 0 where
  listens : List Str → Action
  watches : Str → Option Err → Action
  polls : ℤ → Action
  registers : List Route → Action
  serves_metrics : ℤ → Action
  serves_http : ℤ → Action
  signal_received : Action
  server_ended : Option Err → Action
  shuts_down : ℤ → Option Err → Action

-- os.Exit, a panic of a goroutine, or the return of main
pub data Outcome : Type 0 where
  exited : ℤ → Outcome
  crashed : Outcome
  returned : List Action → Outcome

-- the informer is started where there is a client
unfoldable pub watch_pods : Outside → Str → List Action
unfolding build_k8s_client start_pod_informer
watch_pods o namespace = elim (build_k8s_client o) [
  | some e ↦ []
  | none ↦ watches namespace (start_pod_informer o) ∷ []
]

-- the select over the signal and the end of the server
unfoldable pub wait_stop : Stop → Action
unfolding start_server
wait_stop signalled = signal_received
wait_stop (server_returned s) = server_ended (start_server s)

-- what follows the wait: Shutdown within ten seconds
abbrev pub shut_down : Outside → List Action
shut_down o = shuts_down (pos 10000000000) o.shutdown ∷ []

-- from the listener to the return
unfoldable pub serve : Outside → Config → List Action
unfolding watch_pods wait_stop deps register_routes
serve o c =
    listens c.sentinel_addrs ∷ watch_pods o c.k8s_namespace
    ++ polls c.poll_interval
      ∷ registers (register_routes deps)
      ∷ serves_metrics c.metrics_port
      ∷ serves_http c.http_port
      ∷ wait_stop o.stop
      ∷ shut_down o

-- the ticker of Exporter.Start panics unless its interval is positive
unfoldable pub run : Outside → Config → Outcome
unfolding serve
run o c = if lt_int (pos 0) c.poll_interval then returned (serve o c) else crashed

-- main
unfoldable pub main : Outside → Outcome
unfolding load build_logger run
main o = elim (load o.file o.unmarshal) [
  | err e ↦ exited (pos 1)
  | ok c ↦ elim (build_logger o c.log_level) [ some e ↦ exited (pos 1) | none ↦ run o c ]
]
