-- ===== src/Operations/ConfigDiff/Report.antt =====
-- Where the values of a report come from.
use mathlib.Core.Path.{subst}
use mathlib.Core.List.{Memᴰ}
use redis_admin.Base.{
  ◌≤◌, ◌≡◌, refl, sym, inl, inr, true, Option, none, some, List, [], ◌∷◌, ◌++◌, arith, Str, str,
  eq_str, eq_str_iff, Dict, lookup, insert, length, ltb, Bool-cases, All,
}
use redis_admin.Errors.{Err, typed, wrap, node_unreachable, Result, ok, err}
use redis_admin.Config.{Config}
use redis_admin.Redis.{Redis}
use redis_admin.Sentinel.Topology.{NodeAddresses, get_node_addresses}
use redis_admin.Operations.ConfigDiff.{
  NodeConfigValue, ConfigDiff, drifts, diff_of, ConfigMap, or_new, put_value, put_values,
  fetch_all_config, with_config, collect_configs, less_str, put_key, sort_keys, values_of,
  cons_diff, diffs_of, diffs_with, get_config_diff,
}

-- the node reports the value for the key
pub record Reads (r : Redis) (key addr value : Str) : Type 0 where
  pub config : Dict Str
  pub replied : r.config_get addr (str "*") ≡ ok config
  pub holds : Memᴰ (key, value) config

-- what holds of a difference that is reported
pub record Reported (r : Redis) (d : ConfigDiff) : Type 0 where
  pub read : All (λ v. Reads r d.key v.node_addr v.value) d.values
  pub several : 2 ≤ length d.values
  pub drift : drifts d.values ≡ true

module _ (r : Redis) where
  abbrev Sourced : ConfigMap → Type 0
  Sourced m = All (λ e. All (λ x. Reads r e.0 x.0 x.1) e.1) m

  insert_addr :
      (k addr v : Str) (m : Dict Str)
      → Reads r k addr v
      → All (λ x. Reads r k x.0 x.1) m
      → All (λ x. Reads r k x.0 x.1) (insert addr v m)
  unfolding insert
  insert_addr k addr v [] h all = (h, tt)
  insert_addr k addr v ((j, w) ∷ m) h all = elim (Bool-cases (eq_str j addr)) [
    | inl e ↦ rw e ((subst (λ a. Reads r k a v) (sym ((eq_str_iff j addr).0 e)) h, all.1))
    | inr e ↦ rw e ((all.0, insert_addr k addr v m h all.1))
  ]

  insert-Sourced :
      (k : Str) (vals : Dict Str) (m : ConfigMap)
      → All (λ x. Reads r k x.0 x.1) vals
      → Sourced m
      → Sourced (insert k vals m)
  unfolding insert
  insert-Sourced k vals [] h all = (h, tt)
  insert-Sourced k vals ((j, w) ∷ m) h all = elim (Bool-cases (eq_str j k)) [
    | inl e ↦
        rw e
          ((subst (λ a. All (λ x. Reads r a x.0 x.1) vals) (sym ((eq_str_iff j k).0 e)) h, all.1))
    | inr e ↦ rw e ((all.0, insert-Sourced k vals m h all.1))
  ]

  lookup-Sourced :
      (k : Str) (m : ConfigMap) → Sourced m → All (λ x. Reads r k x.0 x.1) (or_new (lookup k m))
  unfolding lookup
  lookup-Sourced k [] h = tt
  lookup-Sourced k ((j, w) ∷ m) h = elim (Bool-cases (eq_str j k)) [
    | inl e ↦ rw e (subst (λ a. All (λ x. Reads r a x.0 x.1) w) ((eq_str_iff j k).0 e) h.0)
    | inr e ↦ rw e (lookup-Sourced k m h.1)
  ]

  put_values-Sourced :
      (addr : Str) (es : Dict Str) (m : ConfigMap)
      → All (λ e. Reads r e.0 addr e.1) es
      → Sourced m
      → Sourced (put_values addr m es)
  unfolding put_values put_value
  put_values-Sourced addr [] m h all = all
  put_values-Sourced addr ((k, v) ∷ es) m h all = put_values-Sourced addr es _ h.1 (
      insert-Sourced k _ m (insert_addr k addr v (or_new (lookup k m)) h.0 (lookup-Sourced k m all))
        all)

  All-read :
      (addr : Str) (cfg es : Dict Str)
      → r.config_get addr (str "*") ≡ ok cfg
      → ((x : Str × Str) → Memᴰ x es → Memᴰ x cfg)
      → All (λ e. Reads r e.0 addr e.1) es
  All-read addr cfg [] e h = tt
  All-read addr cfg (x ∷ es) e h = (
    record { config = cfg; replied = e; holds = h x (Memᴰ.head refl) },
    All-read addr cfg es e (λ y m. h y (Memᴰ.tail m)),
  )

  with_config-Sourced :
      (addr : Str) (p : ConfigMap × List Err)
      → Sourced p.0
      → Sourced (with_config addr p (fetch_all_config r addr)).0
  unfolding fetch_all_config
  with_config-Sourced addr (m, errs) h = go (r.config_get addr (str "*")) refl
    where
      go :
          (q : Result (Dict Str))
          → r.config_get addr (str "*") ≡ q
          → Sourced
              (with_config addr
                (m, errs)
                (elim q as (λ x. Result (Dict Str)) [
                  | err e ↦ err (wrap (str "CONFIG GET * on " ++ addr) (typed node_unreachable))
                  | ok vals ↦ ok vals
                ])).0
      go (err e) k = h
      go (ok cfg) k = put_values-Sourced addr cfg m (All-read addr cfg cfg k (λ y z. z)) h

  collect_configs-Sourced :
      (addrs : List Str) (p : ConfigMap × List Err)
      → Sourced p.0
      → Sourced (collect_configs r addrs p).0
  unfolding collect_configs
  collect_configs-Sourced [] p h = h
  collect_configs-Sourced (a ∷ addrs) p h =
      collect_configs-Sourced addrs (with_config a p (fetch_all_config r a))
        (with_config-Sourced a p h)

  put_key-Sourced :
      (x : Str × Dict Str) (m : ConfigMap)
      → All (λ y. Reads r x.0 y.0 y.1) x.1
      → Sourced m
      → Sourced (put_key x m)
  unfolding put_key
  put_key-Sourced x [] h all = (h, tt)
  put_key-Sourced x (y ∷ m) h all = elim (Bool-cases (less_str y.0 x.0)) [
    | inl e ↦ rw e ((all.0, put_key-Sourced x m h all.1))
    | inr e ↦ rw e ((h, all))
  ]

  sort_keys-Sourced : (m : ConfigMap) → Sourced m → Sourced (sort_keys m)
  unfolding sort_keys
  sort_keys-Sourced [] h = tt
  sort_keys-Sourced (x ∷ m) h = put_key-Sourced x (sort_keys m) h.0 (sort_keys-Sourced m h.1)

  values_read :
      (k : Str) (vals : Dict Str)
      → All (λ x. Reads r k x.0 x.1) vals
      → All (λ v. Reads r k v.node_addr v.value) (values_of vals)
  values_read k [] h = tt
  values_read k (x ∷ vals) h = (h.0, values_read k vals h.1)

  abbrev MaybeReported : Option ConfigDiff → Type 0
  MaybeReported none = Unit
  MaybeReported (some d) = Reported r d

  diff_of-Reported :
      (k : Str) (vs : List NodeConfigValue)
      → All (λ v. Reads r k v.node_addr v.value) vs
      → MaybeReported (diff_of k vs)
  unfolding diff_of
  diff_of-Reported k vs h = elim (Bool-cases (ltb (length vs) 2)) [
    | inl few ↦ rw few tt
    | inr e ↦ rw e (elim (Bool-cases (drifts vs)) [
      | inl d ↦ rw d (record { read = h; several = ground arith; drift = d })
      | inr d ↦ rw d tt
    ])
  ]

  diffs_of-Reported : (m : ConfigMap) → Sourced m → All (Reported r) (diffs_of m)
  unfolding diffs_of
  diffs_of-Reported [] h = tt
  diffs_of-Reported ((k, vals) ∷ m) h =
      go (diff_of k (values_of vals)) (diff_of-Reported k (values_of vals) (values_read k vals h.0))
        (diffs_of-Reported m h.1)
    where
      go :
          (o : Option ConfigDiff)
          → MaybeReported o
          → All (Reported r) (diffs_of m)
          → All (Reported r) (cons_diff o (diffs_of m))
      go none d all = all
      go (some x) d all = (d, all)

-- Every difference that GetConfigDiff reports is one: it has the values of at least two nodes, each
-- value is what that node replied for the key, and the loop over the values found drift.
pub get_config_diff-Reported :
    (r : Redis) (cfg : Config) → All (Reported r) (get_config_diff r cfg).0
unfolding get_config_diff
get_config_diff-Reported r cfg = go (get_node_addresses r cfg)
  where
    go :
        (a : Result NodeAddresses)
        → All
            (Reported r)
            (elim a as (λ x. List ConfigDiff × Option Err) [
              | err e ↦ ([], some (wrap (str "get config diff") e))
              | ok addrs ↦ diffs_with (collect_configs r (addrs.master ∷ addrs.replicas) ([], []))
            ]).0
    go (err e) = tt
    go (ok addrs) =
        diffs_of-Reported r
          (sort_keys (collect_configs r (addrs.master ∷ addrs.replicas) ([], [])).0)
          (sort_keys-Sourced r (collect_configs r (addrs.master ∷ addrs.replicas) ([], [])).0
            (collect_configs-Sourced r (addrs.master ∷ addrs.replicas) ([], []) tt))
