-- ===== src/Diagnostics/Pipeline.antt =====
-- internal/diagnostics/pipeline.go: the transactions and the pipelines of the nodes.
use redis_admin.Base.{
  ℕ, suc, Bool, Option, none, some, List, [], ◌∷◌, ◌++◌, Str, str, is_empty, has_prefix,
  trim_prefix, trim_space, split, split_crlf, cut, lookup_str, ℤ, pos, lt_int, parse_int,
  if◌then◌else◌,
}
use redis_admin.Errors.{Err, typed, wrap, node_unreachable, Result, ok, err}
use redis_admin.Config.{Config}
use redis_admin.Redis.{Redis}
use redis_admin.Info.{parse_info_section}
use redis_admin.Fanout.{fan_out}
use redis_admin.Connection.Clients.{parse_kv_line}
use redis_admin.Sentinel.Topology.{get_node_addresses}

-- the number of clients stays below 2 ^ 63
pub record PipelineReport : Type 0 where
  pub node_addr : Str
  pub exec_abort_count : ℤ
  pub rejected_calls : ℤ
  pub max_input_buffer_bytes : ℤ
  pub oversized_pipelines : ℕ

-- oversizedPipelineThreshold
abbrev pub oversized_pipeline_threshold : ℕ
oversized_pipeline_threshold = 1048576

-- the first value of a name among "name=value" parts
unfoldable pub first_value : Str → List Str → ℤ
unfolding has_prefix trim_prefix parse_int
first_value name [] = pos 0
first_value name (kv ∷ kvs) =
    let rest = first_value name kvs in
    if has_prefix kv name then (parse_int (trim_prefix kv name)).0 else rest

abbrev count_in : Option (Str × Str) → ℤ
count_in none = pos 0
count_in (some (name, stats)) = first_value (str "count=") (split b',' stats)

-- extractCount
unfoldable pub extract_count : Str → ℤ
unfolding cut split first_value
extract_count line = count_in (cut b':' line)

-- the loop over the lines of INFO errorstats
unfoldable pub exec_aborts : ℤ → List Str → ℤ
unfolding extract_count
exec_aborts count [] = count
exec_aborts count (line ∷ lines) =
    exec_aborts (if has_prefix line (str "errorstat_EXECABORT:") then extract_count line else count)
      lines

abbrev is_oversized : Str → Bool
is_oversized line =
    lt_int (pos oversized_pipeline_threshold)
      (parse_int (lookup_str (str "qbuf") (parse_kv_line line))).0

-- the loop over the lines of CLIENT LIST
unfoldable pub oversized : List Str → ℕ
unfolding trim_space parse_kv_line lookup_str
oversized [] = 0
oversized (line ∷ lines) =
    let rest = oversized lines in
    let trimmed = trim_space line in
    if is_empty trimmed then rest else if is_oversized trimmed then suc rest else rest

-- `n, _ = strconv.ParseInt(fields[name], 10, 64)` of a reply that may be missing
abbrev field_or_zero : Str → Result Str → ℤ
field_or_zero name (err e) = pos 0
field_or_zero name (ok raw) = (parse_int (lookup_str name (parse_info_section raw))).0

abbrev aborts_or_zero : Result Str → ℤ
aborts_or_zero (err e) = pos 0
aborts_or_zero (ok raw) = exec_aborts (pos 0) (split_crlf raw)

abbrev oversized_or_zero : Result Str → ℕ
oversized_or_zero (err e) = 0
oversized_or_zero (ok raw) = oversized (split 10 raw)

unfoldable pub fetch_pipeline_report : Redis → Str → Result PipelineReport
unfolding exec_aborts oversized parse_info_section split_crlf
fetch_pipeline_report r addr = elim (r.info addr (str "stats" ∷ [])) [
  | err e ↦ err (wrap (str "INFO stats on " ++ addr) (typed node_unreachable))
  | ok stats ↦ ok (record {
    node_addr = addr;
    exec_abort_count = aborts_or_zero (r.info addr (str "errorstats" ∷ []));
    rejected_calls = field_or_zero (str "rejected_calls") (ok stats);
    max_input_buffer_bytes =
        field_or_zero (str "client_recent_max_input_buffer") (r.info addr (str "clients" ∷ []));
    oversized_pipelines = oversized_or_zero (r.client_list addr);
  })
]

-- GetPipelineStats
unfoldable pub get_pipeline_stats : Redis → Config → List PipelineReport × Option Err
unfolding get_node_addresses fan_out fetch_pipeline_report
get_pipeline_stats r cfg = elim (get_node_addresses r cfg) [
  | err e ↦ ([], some (wrap (str "get pipeline stats") e))
  | ok addrs ↦
      fan_out (λ a e. wrap (str "node " ++ a) e) (fetch_pipeline_report r)
        (addrs.master ∷ addrs.replicas)
]
