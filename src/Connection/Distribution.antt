-- ===== src/Connection/Distribution.antt =====
-- internal/connection/distribution.go: the reads and writes of the replicas.
pub mod CommandStats
pub mod Overload
use redis_admin.Base.{
  Bool, false, ◌||◌, Option, none, some, List, [], ◌∷◌, ◌++◌, Str, str, eq_str, has_prefix,
  trim_prefix, split, split_crlf, cut, to_lower, ℤ, pos, negsuc, lt_int, add64, parse_int, map,
  if◌then◌else◌, ◌==◌,
}
use redis_admin.Errors.{Err, typed, wrap, join_errors, node_unreachable, Result, ok, err}
use redis_admin.Config.{Config}
use redis_admin.Redis.{Redis}
use redis_admin.Float.{Float64}
use redis_admin.Fanout.{gather}
use redis_admin.Sentinel.Topology.{get_node_addresses}

pub record ReplicaDistribution (F : Type 0) : Type 0 where
  pub node_addr : Str
  pub read_count : ℤ
  pub write_count : ℤ
  pub total_count : ℤ
  pub read_pct : F
  pub write_pct : F
  pub overloaded : Bool

-- the first value of "calls=" among the parts
abbrev pub calls_of : List Str → ℤ
calls_of [] = pos 0
calls_of (kv ∷ kvs) =
    if has_prefix kv (str "calls=")
    then (parse_int (trim_prefix kv (str "calls="))).0
    else calls_of kvs

unfoldable pub extract_calls : Str → ℤ
unfolding split has_prefix trim_prefix parse_int
extract_calls stats = calls_of (split b',' stats)

-- readCommands
abbrev read_commands : List Str
read_commands =
    str "get"
    ∷ str "mget"
    ∷ str "getrange"
    ∷ str "substr"
    ∷ str "strlen"
    ∷ str "getbit"
    ∷ str "bitcount"
    ∷ str "bitpos"
    ∷ str "pfcount"
    ∷ str "hget"
    ∷ str "hmget"
    ∷ str "hgetall"
    ∷ str "hkeys"
    ∷ str "hvals"
    ∷ str "hlen"
    ∷ str "hexists"
    ∷ str "hscan"
    ∷ str "hrandfield"
    ∷ str "hstrlen"
    ∷ str "lrange"
    ∷ str "llen"
    ∷ str "lindex"
    ∷ str "lpos"
    ∷ str "scard"
    ∷ str "srandmember"
    ∷ str "sismember"
    ∷ str "smismember"
    ∷ str "smembers"
    ∷ str "sscan"
    ∷ str "sintercard"
    ∷ str "zrange"
    ∷ str "zrevrange"
    ∷ str "zrangebyscore"
    ∷ str "zrevrangebyscore"
    ∷ str "zrangebylex"
    ∷ str "zrevrangebylex"
    ∷ str "zcard"
    ∷ str "zcount"
    ∷ str "zlexcount"
    ∷ str "zrank"
    ∷ str "zrevrank"
    ∷ str "zscore"
    ∷ str "zmscore"
    ∷ str "zscan"
    ∷ str "zrandmember"
    ∷ str "exists"
    ∷ str "type"
    ∷ str "ttl"
    ∷ str "pttl"
    ∷ str "expiretime"
    ∷ str "pexpiretime"
    ∷ str "dump"
    ∷ str "object"
    ∷ str "geodist"
    ∷ str "geopos"
    ∷ str "geohash"
    ∷ str "geosearch"
    ∷ str "georadius"
    ∷ str "georadiusbymember"
    ∷ str "xlen"
    ∷ str "xrange"
    ∷ str "xrevrange"
    ∷ str "xread"
    ∷ str "xinfo"
    ∷ str "xpending"
    ∷ str "scan"
    ∷ str "keys"
    ∷ str "randomkey"
    ∷ str "dbsize"
    ∷ str "info"
    ∷ str "sort"
    ∷ str "lolwut"
    ∷ str "time"
    ∷ str "command"
    ∷ []

abbrev among : Str → List Str → Bool
among s [] = false
among s (t ∷ ts) = eq_str s t || among s ts

unfoldable pub is_read_command : Str → Bool
unfolding eq_str
is_read_command cmd = among (to_lower cmd) read_commands

abbrev pub is_zero : ℤ → Bool
is_zero (pos n) = n == 0
is_zero (negsuc n) = false

-- the name of the command and its calls; `none` for a line that is skipped
abbrev pub named_calls : Option (Str × Str) → Option (Str × ℤ)
named_calls none = none
named_calls (some (name, stats)) =
    if is_zero (extract_calls stats)
    then none
    else some (trim_prefix name (str "cmdstat_"), extract_calls stats)

unfoldable pub command_calls : Str → Option (Str × ℤ)
unfolding has_prefix cut extract_calls trim_prefix
command_calls line = if has_prefix line (str "cmdstat_") then named_calls (cut b':' line) else none

abbrev pub add_calls : ℤ × ℤ → Option (Str × ℤ) → ℤ × ℤ
add_calls counts none = counts
add_calls (reads, writes) (some (cmd, calls)) =
    if is_read_command cmd then (add64 reads calls, writes) else (reads, add64 writes calls)

-- the loop over the lines: the reads and the writes
unfoldable pub count_calls : ℤ × ℤ → List Str → ℤ × ℤ
unfolding command_calls is_read_command add64
count_calls counts [] = counts
count_calls counts (line ∷ lines) = count_calls (add_calls counts (command_calls line)) lines

module _ {F : Type 0} (fl : Float64 F) where
  abbrev pub percent : ℤ → ℤ → F
  percent part total =
      if lt_int (pos 0) total
      then fl.mul (fl.div (fl.of_int part) (fl.of_int total)) (fl.of_int (pos 100))
      else fl.of_int (pos 0)

  abbrev pub distribution : Str → ℤ × ℤ → ReplicaDistribution F
  distribution addr (reads, writes) = record {
    node_addr = addr;
    read_count = reads;
    write_count = writes;
    total_count = add64 reads writes;
    read_pct = percent reads (add64 reads writes);
    write_pct = percent writes (add64 reads writes);
    overloaded = false;
  }

  unfoldable pub fetch_command_dist : Redis → Str → Result (ReplicaDistribution F)
  unfolding count_calls split_crlf add64
  fetch_command_dist r addr = elim (r.info addr (str "commandstats" ∷ [])) [
    | err e ↦ err (wrap (str "INFO commandstats on " ++ addr) (typed node_unreachable))
    | ok raw ↦ ok (distribution addr (count_calls (pos 0, pos 0) (split_crlf raw)))
  ]

  abbrev pub total_reads : ℤ → List (ReplicaDistribution F) → ℤ
  total_reads total [] = total
  total_reads total (d ∷ ds) = total_reads (add64 total d.read_count) ds

  abbrev pub with_flag : ℤ → ReplicaDistribution F → ReplicaDistribution F
  with_flag total d = record d {
    overloaded = fl.lt (fl.literal 80 2) (fl.div (fl.of_int d.read_count) (fl.of_int total));
  }

  -- the flags, by the share of all reads
  unfoldable pub flag_overloaded : List (ReplicaDistribution F) → List (ReplicaDistribution F)
  unfolding add64
  flag_overloaded ds =
      let total = total_reads (pos 0) ds in
      if lt_int (pos 0) total then map (with_flag total) ds else ds

  abbrev flagged :
      List (ReplicaDistribution F) × List Err → List (ReplicaDistribution F) × Option Err
  flagged (ds, errs) = (flag_overloaded ds, join_errors errs)

  -- GetDistribution
  unfoldable pub get_distribution : Redis → Config → List (ReplicaDistribution F) × Option Err
  unfolding get_node_addresses gather fetch_command_dist flag_overloaded
  get_distribution r cfg = elim (get_node_addresses r cfg) [
    | err e ↦ ([], some (wrap (str "get distribution") e))
    | ok addrs ↦
        flagged (gather (λ a e. wrap (str "replica " ++ a) e) (fetch_command_dist r) addrs.replicas)
  ]
