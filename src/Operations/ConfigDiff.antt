-- ===== src/Operations/ConfigDiff.antt =====
-- internal/operations/configdiff.go: the comparison of the nodes' configurations. Go iterates over
-- the values of one key in no fixed order: the order is the order of the list.
pub mod Drift
pub mod Report
use redis_admin.Base.{
  ℕ, Bool, true, false, not, ◌||◌, ◌&&◌, Option, none, some, ltb, List, [], ◌∷◌, ◌++◌, Str, str,
  is_empty, eq_str, Dict, lookup, insert, if◌then◌else◌, length, map, ◌==◌,
}
use redis_admin.Errors.{Err, typed, wrap, join_errors, node_unreachable, Result, ok, err}
use redis_admin.Config.{Config}
use redis_admin.Redis.{Redis}
use redis_admin.Sentinel.Topology.{NodeAddresses, get_node_addresses}

pub record NodeConfigValue : Type 0 where
  pub node_addr : Str
  pub value : Str

pub record ConfigDiff : Type 0 where
  pub key : Str
  pub values : List NodeConfigValue
  pub is_drift : Bool

-- the loop over the values of one key, with `firstVal` and `diff.IsDrift`
unfoldable pub drift_from : Str → Bool → List NodeConfigValue → Bool
unfolding eq_str
drift_from first_val drift [] = drift
drift_from first_val drift (v ∷ vs) =
    let first_val' = if is_empty first_val then v.value else first_val in
    let drift' = if is_empty first_val then drift else drift || not (eq_str v.value first_val) in
    drift_from first_val' drift' vs

unfoldable pub drifts : List NodeConfigValue → Bool
unfolding drift_from
drifts vs = drift_from [] false vs

-- the diff of one key; `none` where it is left out of the response
unfoldable pub diff_of : Str → List NodeConfigValue → Option ConfigDiff
unfolding drifts
diff_of key vs =
    if ltb (length vs) 2
    then none
    else if drifts vs
    then some (record { key = key; values = vs; is_drift = true })
    else none

-- configMap: the value of each key on each node
abbrev pub ConfigMap : Type 0
ConfigMap = Dict (Dict Str)

abbrev or_new : Option (Dict Str) → Dict Str
or_new none = []
or_new (some m) = m

unfoldable pub put_value : Str → ConfigMap → Str × Str → ConfigMap
unfolding insert lookup
put_value addr m (k, v) = insert k (insert addr v (or_new (lookup k m))) m

unfoldable pub put_values : Str → ConfigMap → Dict Str → ConfigMap
unfolding put_value
put_values addr m [] = m
put_values addr m (e ∷ es) = put_values addr (put_value addr m e) es

-- fetchAllConfig
unfoldable pub fetch_all_config : Redis → Str → Result (Dict Str)
fetch_all_config r addr = elim (r.config_get addr (str "*")) [
  | err e ↦ err (wrap (str "CONFIG GET * on " ++ addr) (typed node_unreachable))
  | ok vals ↦ ok vals
]

-- the map and the errors after one node
abbrev with_config : Str → ConfigMap × List Err → Result (Dict Str) → ConfigMap × List Err
with_config addr (m, errs) (err e) = (m, errs ++ wrap (str "node " ++ addr) e ∷ [])
with_config addr (m, errs) (ok cfg) = (put_values addr m cfg, errs)

-- the loop over the nodes
unfoldable pub collect_configs : Redis → List Str → ConfigMap × List Err → ConfigMap × List Err
unfolding put_values fetch_all_config
collect_configs r [] p = p
collect_configs r (addr ∷ addrs) p =
    collect_configs r addrs (with_config addr p (fetch_all_config r addr))

-- a < b of two strings, by their bytes
abbrev less_str : Str → Str → Bool
less_str [] [] = false
less_str [] (d ∷ t) = true
less_str (c ∷ s) [] = false
less_str (c ∷ s) (d ∷ t) = ltb c d || (c == d && less_str s t)

-- sort.Strings of the keys, each with its values
put_key : Str × Dict Str → ConfigMap → ConfigMap
put_key x [] = x ∷ []
put_key x (y ∷ ys) = let rest = put_key x ys in if less_str y.0 x.0 then y ∷ rest else x ∷ y ∷ ys

unfoldable pub sort_keys : ConfigMap → ConfigMap
unfolding put_key
sort_keys [] = []
sort_keys (x ∷ xs) = put_key x (sort_keys xs)

abbrev pub values_of : Dict Str → List NodeConfigValue
values_of m = map (λ e. record { node_addr = e.0; value = e.1 }) m

abbrev cons_diff : Option ConfigDiff → List ConfigDiff → List ConfigDiff
cons_diff none ds = ds
cons_diff (some d) ds = d ∷ ds

-- the loop over the sorted keys
unfoldable pub diffs_of : ConfigMap → List ConfigDiff
unfolding diff_of
diffs_of [] = []
diffs_of ((k, vals) ∷ m) = cons_diff (diff_of k (values_of vals)) (diffs_of m)

abbrev diffs_with : ConfigMap × List Err → List ConfigDiff × Option Err
diffs_with (m, errs) = (diffs_of (sort_keys m), join_errors errs)

-- GetConfigDiff
unfoldable pub get_config_diff : Redis → Config → List ConfigDiff × Option Err
unfolding get_node_addresses collect_configs sort_keys diffs_of
get_config_diff r cfg = elim (get_node_addresses r cfg) [
  | err e ↦ ([], some (wrap (str "get config diff") e))
  | ok addrs ↦ diffs_with (collect_configs r (addrs.master ∷ addrs.replicas) ([], []))
]
