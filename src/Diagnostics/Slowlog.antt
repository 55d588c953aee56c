-- ===== src/Diagnostics/Slowlog.antt =====
-- internal/diagnostics/slowlog.go: the slow commands of all nodes, slowest first.
use mathlib.Core.Path.{subst}
use mathlib.Core.List.{Perm}
use redis_admin.Base.{
  ℕ, ◌+◌, ◌/◌, ◌≤◌, ◌≡◌, refl, ap, inl, inr, Option, some, List, [], ◌∷◌, ◌++◌, arith, Str, str, ℤ,
  pos, length, take, drop, ltb, All, if◌then◌else◌, Bool-cases, map, length-take, sym, zero, suc,
  negsuc,
}
use Prim.Native.Nat.{min}
use redis_admin.Errors.{Err, typed, wrap, join_errors, node_unreachable, Result, ok, err}
use redis_admin.Config.{Config}
use redis_admin.Redis.{Redis, SlowlogReply}
use redis_admin.Order.{◌≤ℤ◌, minus}
use redis_admin.Sort.{
  sort_desc-perm, sort_desc, Descending, Descending-sort_desc, Descending-take, kept_above,
  length-sort_desc,
}
use redis_admin.Fanout.{gather}
use redis_admin.Sentinel.Topology.{get_node_addresses}

pub record SlowlogEntry : Type 0 where
  pub node_addr : Str
  pub id : ℤ
  pub timestamp : ℕ
  pub duration_us : ℤ
  pub args : List Str
  pub client_addr : Str
  pub client_name : Str

-- d.Microseconds(), which drops the rest towards 0
abbrev microseconds : ℤ → ℤ
microseconds (pos n) = pos (n / 1000)
microseconds (negsuc n) = minus ((n + 1) / 1000)

abbrev entry_of : Str → SlowlogReply → SlowlogEntry
entry_of addr e = record {
  node_addr = addr;
  id = e.id;
  timestamp = e.time;
  duration_us = microseconds e.duration_ns;
  args = e.args;
  client_addr = e.client_addr;
  client_name = e.client_name;
}

unfoldable pub fetch_slowlog : Redis → ℕ → Str → Result (List SlowlogEntry)
fetch_slowlog r count addr = elim (r.slowlog_get addr count) [
  | err e ↦ err (wrap (str "SLOWLOG GET on " ++ addr) (typed node_unreachable))
  | ok entries ↦ ok (map (entry_of addr) entries)
]

abbrev pub concat : List (List SlowlogEntry) → List SlowlogEntry
concat [] = []
concat (es ∷ ess) = es ++ concat ess

-- the slowest of all entries; `limit` is positive, as the handler checks
unfoldable pub slowest : ℕ → List SlowlogEntry → List SlowlogEntry
unfolding sort_desc
slowest limit all =
    let sorted = sort_desc (λ e. e.duration_us) all in
    if ltb limit (length sorted) then take limit sorted else sorted

unfoldable pub slowlog_of : Redis → ℕ → List Str → List SlowlogEntry × Option Err
unfolding gather fetch_slowlog slowest
slowlog_of r limit nodes =
    let found = gather (λ a e. wrap (str "node " ++ a) e) (fetch_slowlog r 128) nodes in
    (slowest limit (concat found.0), join_errors found.1)

-- GetSlowlog
unfoldable pub get_slowlog : Redis → Config → ℕ → List SlowlogEntry × Option Err
unfolding get_node_addresses slowlog_of
get_slowlog r cfg limit = elim (get_node_addresses r cfg) [
  | err e ↦ ([], some (wrap (str "get slowlog") e))
  | ok addrs ↦ slowlog_of r limit (addrs.master ∷ addrs.replicas)
]

take_short : {A : Type 0} (n : ℕ) (xs : List A) → length xs ≤ n → take n xs ≡ xs
take_short zero [] h = refl
take_short zero (x ∷ xs) h = absurd (omega arith)
take_short (suc n) [] h = refl
take_short (suc n) (x ∷ xs) h = ap (λ l. x ∷ l) (take_short n xs (omega arith))

slowest-take :
    (limit : ℕ) (all : List SlowlogEntry)
    → slowest limit all ≡ take limit (sort_desc (λ e. e.duration_us) all)
unfolding slowest
slowest-take limit all =
    elim (Bool-cases (ltb limit (length (sort_desc (λ e. e.duration_us) all)))) [
      | inl e ↦ rw e refl
      | inr e ↦ rw e (sym (take_short limit (sort_desc (λ e. e.duration_us) all) (ground arith)))
    ]

-- as many as there are, up to the limit, in order, and the others are not slower than any of them
pub record Slowest (limit : ℕ) (all kept : List SlowlogEntry) : Type 0 where
  pub count : length kept ≡ min limit (length all)
  pub in_order : Descending (λ e. e.duration_us) kept
  pub others : List SlowlogEntry
  pub same_entries : Perm (kept ++ others) all
  pub faster : All (λ k. All (λ o. ◌≤ℤ◌ o.duration_us k.duration_us) others) kept

take-drop : {A : Type 0} (n : ℕ) (xs : List A) → xs ≡ take n xs ++ drop n xs
take-drop zero xs = refl
take-drop (suc n) [] = refl
take-drop (suc n) (x ∷ xs) = ap (λ l. x ∷ l) (take-drop n xs)

-- Of the entries that the nodes gave, GetSlowlog keeps as many as there are up to the limit, slowest
-- first, and no entry that it drops is slower than one that it keeps.
pub slowest-Slowest : (limit : ℕ) (all : List SlowlogEntry) → Slowest limit all (slowest limit all)
slowest-Slowest limit all =
    let sorted = sort_desc (λ e. e.duration_us) all in
    let down = Descending-sort_desc (λ e. e.duration_us) all in
    rw (slowest-take limit all) (record {
      count = omega (arith, length-take limit sorted, length-sort_desc (λ e. e.duration_us) all);
      in_order = Descending-take (λ e. e.duration_us) limit sorted down;
      others = drop limit sorted;
      same_entries =
          subst (λ l. Perm l all) (take-drop limit sorted)
            (sort_desc-perm (λ e. e.duration_us) all);
      faster = kept_above (λ e. e.duration_us) limit sorted down;
    })
