-- ===== src/Samples/Start.antt =====
-- A process that starts on the configuration of the samples, outside Kubernetes.
use redis_admin.Base.{◌≡◌, refl, true, none, some, str}
use redis_admin.Errors.{Err, other, ok}
use redis_admin.Config.Load.{not_found}
use redis_admin.Process.{Outside, signalled, serve, returned, main}
use redis_admin.Process.Life.{Life}
use redis_admin.Samples.Cluster.{config}

abbrev no_cluster : Err
no_cluster = other (str "not in a cluster")

abbrev outside : Outside
outside = record {
  file = not_found;
  unmarshal = ok config;
  level_of = λ s. none;
  build = λ l. none;
  in_cluster = some no_cluster;
  kubeconfig = str "";
  home = str "/root";
  from_flags = λ k. some no_cluster;
  new_for_config = none;
  add_handler = none;
  synced = true;
  stop = signalled;
  shutdown = none;
}

starts : main outside ≡ returned (serve outside config)
unfolding main
starts = refl
