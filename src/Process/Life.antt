-- ===== src/Process/Life.antt =====
-- How the process ends, and what it serves until then.
use redis_admin.Base.{
  ℤ, ◌≢◌, List, [], ◌∷◌, ◌++◌, Str, str, ◌≡◌, true, false, Option, none, some, pos, lt_int,
}
use redis_admin.Errors.{Err, other, wrap, ok}
use redis_admin.Config.{Config, IsUsable}
use redis_admin.Config.Load.{Readable}
use redis_admin.Api.Routes.{Endpoint, Route}
use redis_admin.Api.Routes.Documented.{documented, find_route}
use redis_admin.Process.{
  Outside, Kubeconfig, named, under_home, Stop, signalled, server_returned, closed, failed, Action,
  listens, watches, polls, registers, serves_metrics, serves_http, signal_received, server_ended,
  shuts_down, Outcome, exited, crashed, returned,
}

-- a logger can be built for the level, which is that of info where it is not known
pub data Logs (o : Outside) (level : Str) : Type 0 where
  known : (l : ℤ) → o.level_of level ≡ some l → o.build l ≡ none → Logs o level
  unknown : o.level_of level ≡ none → o.build (pos 0) ≡ none → Logs o level

-- What becomes of the process. A configuration starts it where Load returns it and a logger can be
-- built for its level.
pub record Starts (o : Outside) (c : Config) : Type 0 where
  pub readable : Readable o.file
  pub unmarshalled : o.unmarshal ≡ ok c
  pub usable : IsUsable c
  pub logger : Logs o c.log_level

-- the file that is read for Kubernetes: the one that KUBECONFIG names, or the one in the home directory
pub data IsKubeconfig (o : Outside) : Kubeconfig → Type 0 where
  from_environment : o.kubeconfig ≢ [] → IsKubeconfig o (named o.kubeconfig)
  from_home : o.kubeconfig ≡ [] → IsKubeconfig o (under_home o.home)

-- there is a configuration, in the cluster or in that file, and a client for it
pub data Reaches (o : Outside) : Type 0 where
  inside : o.in_cluster ≡ none → o.new_for_config ≡ none → Reaches o
  by_file :
      (k : Kubeconfig)
      → IsKubeconfig o k
      → o.from_flags k ≡ none
      → o.new_for_config ≡ none
      → Reaches o

-- how the informer ends: it cannot register its handlers, its cache is not filled, or the signal ends it
pub data Informed (o : Outside) : Option Err → Type 0 where
  not_added :
      (e : Err) → o.add_handler ≡ some e → Informed o (some (wrap (str "add event handler") e))
  not_synced :
      o.add_handler ≡ none
      → o.synced ≡ false
      → Informed o (some (other (str "timed out waiting for pod cache sync")))
  ended : o.add_handler ≡ none → o.synced ≡ true → Informed o none

-- the pods of the namespace are watched where Kubernetes can be reached, and only there
pub data Watching (o : Outside) (namespace : Str) : List Action → Type 0 where
  pods :
      (e : Option Err) → Reaches o → Informed o e → Watching o namespace (watches namespace e ∷ [])
  no_pods : (Reaches o → ⊥) → Watching o namespace []

-- the wait ends with the signal, or with the server, whose error is kept unless it was closed
pub data Stopped : Stop → Action → Type 0 where
  by_signal : Stopped signalled signal_received
  by_close : Stopped (server_returned closed) (server_ended none)
  by_failure :
      (e : Err)
      → Stopped (server_returned (failed e)) (server_ended (some (wrap (str "HTTP server") e)))

pub data Life (o : Outside) (q : Outcome) : Type 0 where
  refused : ((c : Config) → Starts o c → ⊥) → q ≡ exited (pos 1) → Life o q
  panicked :
      (c : Config) → Starts o c → lt_int (pos 0) c.poll_interval ≡ false → q ≡ crashed → Life o q
  served :
      (c : Config) (watching : List Action) (routes : List Route) (stopped : Action)
      → Starts o c
      → lt_int (pos 0) c.poll_interval ≡ true
      → Watching o c.k8s_namespace watching
      → ((e : Endpoint) → find_route (documented e) routes ≡ some (documented e))
      → Stopped o.stop stopped
      → q
        ≡ returned (
            listens c.sentinel_addrs ∷ watching
            ++ polls c.poll_interval
              ∷ registers routes
              ∷ serves_metrics c.metrics_port
              ∷ serves_http c.http_port
              ∷ stopped
              ∷ shuts_down (pos 10000000000) o.shutdown
              ∷ [])
      → Life o q
