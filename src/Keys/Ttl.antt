-- ===== src/Keys/Ttl.antt =====
-- internal/keys/ttl.go: how many keys of a namespace do not expire.
pub mod NoTtl
use redis_admin.Base.{
  ℕ, zero, suc, ◌+◌, Bool, true, false, Option, none, some, List, [], ◌∷◌, Str, str, ℤ, pos, negsuc,
  Dict, lookup, insert, map, ltb, if◌then◌else◌, ◌==◌,
}
use redis_admin.Errors.{Err, wrap, Result, ok, err}
use redis_admin.Config.{Config}
use redis_admin.Redis.{Redis}
use redis_admin.Float.{Float64}
use redis_admin.Keys.Walk.{walk}
use redis_admin.Keys.Scanner.{key_namespace, targets_of}
use redis_admin.Sentinel.Topology.{NodeAddresses, get_node_addresses}

-- the counts of a namespace, which stay below 2 ^ 63
pub record NsStat : Type 0 where
  pub total : ℕ
  pub no_ttl : ℕ

pub record NamespaceTtlReport (F : Type 0) : Type 0 where
  pub namespace : Str
  pub total_keys : ℕ
  pub no_ttl_keys : ℕ
  pub no_ttl_pct : F
  pub no_ttl_alert : Bool

-- `ttlDur.Seconds() == -1` of a duration in nanoseconds
abbrev pub is_minus_second : ℤ → Bool
is_minus_second (pos n) = false
is_minus_second (negsuc n) = n == 999999999

abbrev old_stat : Option NsStat → NsStat
old_stat none = record { total = 0; no_ttl = 0 }
old_stat (some st) = st

unfoldable pub with_ttl : ℤ → Option NsStat → NsStat
with_ttl ttl o = record {
  total = (old_stat o).total + 1;
  no_ttl = if is_minus_second ttl then (old_stat o).no_ttl + 1 else (old_stat o).no_ttl;
}

-- the body of the loop over the keys: a key whose TTL fails is skipped
unfoldable pub count_key : Redis → Str → Str → Dict NsStat → Dict NsStat
unfolding key_namespace with_ttl insert lookup
count_key r addr key ns = elim (r.ttl addr key) [
  | err e ↦ ns
  | ok ttl ↦ insert (key_namespace key) (with_ttl ttl (lookup (key_namespace key) ns)) ns
]

unfoldable pub collect_ttl_stats :
    Redis → (ℕ → Option Err) → ℕ → Str → ℕ → Dict NsStat → Option (Option Err × ℕ × Dict NsStat)
unfolding walk count_key
collect_ttl_stats r ctx fuel addr i ns =
    walk ctx (r.scan addr (str "*")) (count_key r addr) fuel 0 i ns

unfoldable pub collect_nodes :
    Redis → (ℕ → Option Err) → ℕ → List Str → ℕ → Dict NsStat → Option (Dict NsStat)
unfolding collect_ttl_stats
collect_nodes r ctx fuel [] i ns = some ns
collect_nodes r ctx fuel (addr ∷ addrs) i ns =
    let rest = λ (j : ℕ) (m : Dict NsStat). collect_nodes r ctx fuel addrs j m in
    elim (collect_ttl_stats r ctx fuel addr i ns) [ none ↦ none | some p ↦ rest p.1 p.2 ]

module _ {F : Type 0} (fl : Float64 F) where
  unfoldable pub ttl_report : Str × NsStat → NamespaceTtlReport F
  ttl_report (name, st) =
      let pct =
        if ltb 0 st.total
        then fl.mul (fl.div (fl.of_int (pos st.no_ttl)) (fl.of_int (pos st.total)))
            (fl.of_int (pos 100))
        else fl.of_int (pos 0) in
      record {
        namespace = name;
        total_keys = st.total;
        no_ttl_keys = st.no_ttl;
        no_ttl_pct = pct;
        no_ttl_alert = fl.lt (fl.of_int (pos 50)) pct;
      }

  -- GetTTLReport
  unfoldable pub get_ttl_report :
      Redis → Config → (ℕ → Option Err) → ℕ → Option (Result (List (NamespaceTtlReport F)))
  unfolding get_node_addresses collect_nodes ttl_report
  get_ttl_report r cfg ctx fuel = elim (get_node_addresses r cfg) [
    | err e ↦ some (err (wrap (str "get ttl report") e))
    | ok addrs ↦ elim (collect_nodes r ctx fuel (targets_of addrs) 0 []) [
      | none ↦ none
      | some ns ↦ some (ok (map ttl_report ns))
    ]
  ]
