-- ===== src/Diagnostics/Locks.antt =====
-- internal/diagnostics/locks.go: the keys that look like locks that nobody releases.
pub mod Sound
pub mod Unique
pub mod Complete
use redis_admin.Base.{
  ℕ, zero, suc, Bool, true, false, ◌||◌, ◌&&◌, Option, none, some, List, [], ◌∷◌, ◌++◌, Str, str,
  eq_str, ℤ, pos, negsuc, lt_int, ◌==◌, if◌then◌else◌,
}
use redis_admin.Errors.{Err, wrap, join_errors, Result, ok, err, value_or}
use redis_admin.Config.{Config}
use redis_admin.Redis.{Redis}
use redis_admin.Keys.Scanner.{seconds, targets_of}
use redis_admin.Sentinel.Topology.{NodeAddresses, get_node_addresses}

pub record LockReport : Type 0 where
  pub key : Str
  pub ttl_seconds : ℤ
  pub size_bytes : ℤ
  pub node_addr : Str
  pub is_stale : Bool

-- `_, dup := seen[key]`
unfoldable pub is_seen : Str → List Str → Bool
unfolding eq_str
is_seen key [] = false
is_seen key (k ∷ seen) = eq_str k key || is_seen key seen

abbrev is_minus_one : ℤ → Bool
is_minus_one (negsuc zero) = true
is_minus_one _ = false

abbrev pub stale : ℤ → ℤ → Bool
stale threshold ttl_sec =
    is_minus_one ttl_sec || (lt_int (pos 0) threshold && lt_int threshold ttl_sec)

-- the keys that were met on any node, and the locks of this one
pub record LockState : Type 0 where
  pub seen : List Str
  pub locks : List LockReport

abbrev lock_report : Redis → Str → Str → ℤ → LockReport
lock_report r addr key ttl_sec = record {
  key = key;
  ttl_seconds = ttl_sec;
  size_bytes = value_or (pos 0) (r.memory_usage addr key);
  node_addr = addr;
  is_stale = true;
}

abbrev with_lock : LockState → Str → Bool → LockReport → LockState
with_lock s key true l = record { seen = key ∷ s.seen; locks = s.locks ++ l ∷ [] }
with_lock s key false l = record s { seen = key ∷ s.seen }

abbrev met_key : Redis → Str → ℤ → Str → LockState → Result ℤ → LockState
met_key r addr threshold key s (err e) = record s { seen = key ∷ s.seen }
met_key r addr threshold key s (ok ttl) =
    with_lock s key (stale threshold (seconds ttl)) (lock_report r addr key (seconds ttl))

-- the body of the loop over the keys of a page
unfoldable pub lock_key : Redis → Str → ℤ → Str → LockState → LockState
unfolding is_seen
lock_key r addr threshold key s =
    if is_seen key s.seen then s else met_key r addr threshold key s (r.ttl addr key)

unfoldable pub lock_page : Redis → Str → ℤ → List Str → LockState → LockState
unfolding lock_key
lock_page r addr threshold [] s = s
lock_page r addr threshold (k ∷ ks) s =
    lock_page r addr threshold ks (lock_key r addr threshold k s)

-- what follows a page, whose context was not cancelled
abbrev next_page :
    Redis
    → Str
    → ℤ
    → ℕ
    → LockState
    → (ℕ → LockState → Option (Option Err × ℕ × LockState))
    → Result (List Str × ℕ)
    → Option (Option Err × ℕ × LockState)
next_page r addr threshold i s more (err e) = some (some (wrap (str "SCAN on " ++ addr) e), i, s)
next_page r addr threshold i s more (ok (keys, next)) =
    let after = lock_page r addr threshold keys s in
    let rest = more next after in if next == 0 then some (none, i, after) else rest

abbrev page_check :
    Option Err
    → ℕ
    → LockState
    → Option (Option Err × ℕ × LockState)
    → Option (Option Err × ℕ × LockState)
page_check (some e) i s rest = some (some e, suc i, s)
page_check none i s rest = rest

-- the loop over the pages, from a cursor and a check of the context on; `none` where the fuel runs
-- out
unfoldable pub lock_pages :
    Redis
    → (ℕ → Option Err)
    → Str
    → Str
    → ℤ
    → ℕ
    → ℕ
    → ℕ
    → LockState
    → Option (Option Err × ℕ × LockState)
unfolding lock_page
lock_pages r ctx addr pattern threshold zero cursor i s = none
lock_pages r ctx addr pattern threshold (suc fuel) cursor i s =
    let rest =
      next_page r addr threshold (suc i) s
        (λ next t. lock_pages r ctx addr pattern threshold fuel next (suc i) t)
        (r.scan addr pattern cursor) in
    page_check (ctx i) i s rest

-- scanLocks
unfoldable pub scan_locks :
    Redis
    → (ℕ → Option Err)
    → ℕ
    → Str
    → Str
    → ℤ
    → ℕ
    → List Str
    → Option (Option Err × ℕ × LockState)
unfolding lock_pages
scan_locks r ctx fuel addr pattern threshold i seen =
    lock_pages r ctx addr pattern threshold fuel 0 i (record { seen = seen; locks = [] })

-- the loop over the nodes: a node that fails gives no locks, but its keys stay seen
pub record Report : Type 0 where
  pub all : List LockReport
  pub errors : List Err

abbrev with_node : Str → Report → Option Err × ℕ × LockState → Report
with_node addr p (some e, i, s) = record p {
  errors = p.errors ++ wrap (str "node " ++ addr) e ∷ [];
}
with_node addr p (none, i, s) = record p { all = p.all ++ s.locks }

unfoldable pub lock_nodes :
    Redis → (ℕ → Option Err) → ℕ → Str → ℤ → List Str → ℕ → List Str → Report → Option Report
unfolding scan_locks
lock_nodes r ctx fuel pattern threshold [] i seen p = some p
lock_nodes r ctx fuel pattern threshold (addr ∷ addrs) i seen p =
    let rest = λ (q : Option Err × ℕ × LockState).
      lock_nodes r ctx fuel pattern threshold addrs q.1 (q.2).seen (with_node addr p q) in
    elim (scan_locks r ctx fuel addr pattern threshold i seen) [ none ↦ none | some q ↦ rest q ]

abbrev report_of : Option Report → Option (List LockReport × Option Err)
report_of none = none
report_of (some p) = some (p.all, join_errors p.errors)

-- GetStaleLocks
unfoldable pub get_stale_locks :
    Redis → Config → (ℕ → Option Err) → ℕ → Str → ℤ → Option (List LockReport × Option Err)
unfolding get_node_addresses lock_nodes
get_stale_locks r cfg ctx fuel pattern threshold = elim (get_node_addresses r cfg) [
  | err e ↦ some ([], some (wrap (str "get stale locks") e))
  | ok addrs ↦ report_of (
      lock_nodes r ctx fuel pattern threshold (targets_of addrs) 0 []
        (record { all = []; errors = [] }))
]
