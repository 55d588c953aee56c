-- ===== src/Diagnostics/Locks/Unique.antt =====
-- Which locks GetStaleLocks reports over all nodes, and how often.
use mathlib.Core.Path.{subst}
use redis_admin.Base.{
  ℕ, ◌*◌, ◌≡◌, All, pos, lt_int, ap, sym, ◌∙◌, arith, negsuc, refl, true, Option, none, some, List,
  [], ◌∷◌, append-nil, Str, str, ℤ,
}
use redis_admin.Errors.{Err, wrap, Result, ok, err}
use redis_admin.Config.{Config}
use redis_admin.Redis.{Redis}
use redis_admin.Sentinel.Topology.{NodeAddresses, get_node_addresses}
use redis_admin.Keys.Scanner.{targets_of, seconds}
use redis_admin.Keys.Ttl.NoTtl.{Documented, whole_seconds, no_expiry, no_key}
use redis_admin.Diagnostics.Locks.{
  LockReport, stale, is_seen, LockState, lock_pages, scan_locks, Report, with_node, lock_nodes,
  report_of, get_stale_locks,
}
use redis_admin.Diagnostics.Locks.Sound.{
  IsStale, Distinct, Sound, SoundAfter, prefix-All, prefix-Distinct, Ensured, lock_pages-Ensured,
}

with_node-Sound :
    (P : LockReport → Type 0) (addr : Str) (p : Report) (q : Option Err × ℕ × LockState)
    → SoundAfter P p.all q.2
    → Sound P (q.2).seen (with_node addr p q).all
with_node-Sound P addr p (some e, i, s) h = record {
  known = prefix-All (λ l. is_seen l.key s.seen ≡ true) p.all s.locks h.known;
  distinct = prefix-Distinct p.all s.locks h.distinct;
  each = prefix-All P p.all s.locks h.each;
}
with_node-Sound P addr p (none, i, s) h = h

-- no lock stands twice, and each one is stale by the TTL that its node gives
abbrev Told : Redis → ℤ → List LockReport → Type 0
Told r threshold ls = Distinct ls × All (IsStale r threshold) ls

lock_nodes-Told :
    (r : Redis) (ctx : ℕ → Option Err) (fuel : ℕ) (pattern : Str) (threshold : ℤ) (addrs : List Str)
    (i : ℕ) (seen : List Str) (p out : Report)
    → Sound (IsStale r threshold) seen p.all
    → lock_nodes r ctx fuel pattern threshold addrs i seen p ≡ some out
    → Told r threshold out.all
unfolding lock_nodes scan_locks
lock_nodes-Told r ctx fuel pattern threshold [] i seen p out h e =
    let q : p ≡ out = cc in subst (λ (x : Report). Told r threshold x.all) q (h.distinct, h.each)
lock_nodes-Told r ctx fuel pattern threshold (addr ∷ addrs) i seen p out h e =
    go (lock_pages r ctx addr pattern threshold fuel 0 i (record { seen = seen; locks = [] }))
      (lock_pages-Ensured r addr threshold p.all ctx pattern fuel 0 i
        (record { seen = seen; locks = [] }) begin)
      e (λ j s x. lock_nodes-Told r ctx fuel pattern threshold addrs j s x out)
  where
    begin : SoundAfter (IsStale r threshold) p.all (record { seen = seen; locks = [] })
    begin = rw append-nil h

    go :
        (o : Option (Option Err × ℕ × LockState))
        → Ensured r addr threshold p.all o
        → ◌≡◌ {A = Option Report}
            (elim o [
              | none ↦ none
              | some q ↦
                  lock_nodes r ctx fuel pattern threshold addrs q.1 (q.2).seen (with_node addr p q)
            ])
            (some out)
        → ((j : ℕ) (s : List Str) (x : Report)
            → Sound (IsStale r threshold) s x.all
            → lock_nodes r ctx fuel pattern threshold addrs j s x ≡ some out
            → Told r threshold out.all)
        → Told r threshold out.all
    go none k e ih = absurd (cc)
    go (some q) k e ih =
        ih q.1 (q.2).seen (with_node addr p q) (with_node-Sound (IsStale r threshold) addr p q k) e

get_stale_locks-Told :
    (r : Redis) (cfg : Config) (ctx : ℕ → Option Err) (fuel : ℕ) (pattern : Str) (threshold : ℤ)
    (all : List LockReport) (e : Option Err)
    → get_stale_locks r cfg ctx fuel pattern threshold ≡ some (all, e)
    → Told r threshold all
unfolding get_stale_locks
get_stale_locks-Told r cfg ctx fuel pattern threshold all e h = go (get_node_addresses r cfg) h
  where
    nodes :
        (o : Option Report)
        → ((p : Report) → o ≡ some p → Told r threshold p.all)
        → report_of o ≡ some (all, e)
        → Told r threshold all
    nodes none k h = absurd (cc)
    nodes (some p) k h = let q : p.all ≡ all = cc in subst (Told r threshold) q (k p refl)

    go :
        (a : Result NodeAddresses)
        → ◌≡◌ {A = Option (List LockReport × Option Err)}
            (elim a [
              | err e ↦ some ([], some (wrap (str "get stale locks") e))
              | ok addrs ↦ report_of (
                  lock_nodes r ctx fuel pattern threshold
                    (targets_of addrs)
                    0
                    []
                    (record { all = []; errors = [] }))
            ])
            (some (all, e))
        → Told r threshold all
    go (err x) h = let q : [] ≡ all = cc in subst (Told r threshold) q (tt, tt)
    go (ok addrs) h =
        nodes
          (lock_nodes r ctx fuel pattern threshold (targets_of addrs) 0 []
            (record { all = []; errors = [] }))
          (λ p k.
            lock_nodes-Told r ctx fuel pattern threshold (targets_of addrs) 0 []
              (record { all = []; errors = [] }) p (record { known = tt; distinct = tt; each = tt })
              k)
          h

-- However many replicas have a key and however their scans end, GetStaleLocks reports it at most
-- once.
get_stale_locks-Distinct :
    (r : Redis) (cfg : Config) (ctx : ℕ → Option Err) (fuel : ℕ) (pattern : Str) (threshold : ℤ)
    (all : List LockReport) (e : Option Err)
    → get_stale_locks r cfg ctx fuel pattern threshold ≡ some (all, e)
    → Distinct all
get_stale_locks-Distinct r cfg ctx fuel pattern threshold all e h =
    (get_stale_locks-Told r cfg ctx fuel pattern threshold all e h).0

-- the lock expires, in more seconds than a threshold that is positive
abbrev pub Expires : Redis → ℤ → LockReport → Type 0
Expires r threshold l =
    (n : ℕ) × (r.ttl l.node_addr l.key ≡ ok (pos (n * 1000000000)))
    × (l.ttl_seconds ≡ pos n)
    × (lt_int (pos 0) threshold ≡ true)
    × (lt_int threshold (pos n) ≡ true)

above :
    (threshold : ℤ) (n : ℕ)
    → stale threshold (pos n) ≡ true
    → (lt_int (pos 0) threshold ≡ true) × (lt_int threshold (pos n) ≡ true)
above (pos t) n h = (ground arith, ground arith)
above (negsuc t) n h = (ground arith, ground arith)

never : (threshold : ℤ) → stale threshold (pos 0) ≡ true → ⊥
never (pos t) h = ground arith
never (negsuc t) h = ground arith

IsStale-Expires :
    (r : Redis) (threshold : ℤ)
    → ((addr key : Str) (t : ℤ) → r.ttl addr key ≡ ok t → Documented t)
    → (l : LockReport) → IsStale r threshold l
    → Expires r threshold l
IsStale-Expires r threshold documented l (t, given, sec, is) =
    go t (documented l.node_addr l.key t given) given sec
  where
    go :
        (t : ℤ)
        → Documented t
        → r.ttl l.node_addr l.key ≡ ok t
        → l.ttl_seconds ≡ seconds t
        → Expires r threshold l
    go t (whole_seconds n) g s =
        let e : l.ttl_seconds ≡ pos n = s ∙ ap pos (omega arith) in
        let (positive, longer) = above threshold n (ap (stale threshold) (sym e) ∙ is) in
        (n, g, e, positive, longer)
    go t no_expiry g s = absurd (never threshold (ap (stale threshold) (sym s) ∙ is))
    go t no_key g s = absurd (never threshold (ap (stale threshold) (sym s) ∙ is))

All-Expires :
    (r : Redis) (threshold : ℤ)
    → ((addr key : Str) (t : ℤ) → r.ttl addr key ≡ ok t → Documented t)
    → (ls : List LockReport) → All (IsStale r threshold) ls
    → All (Expires r threshold) ls
All-Expires r threshold documented [] h = tt
All-Expires r threshold documented (l ∷ ls) h =
    (IsStale-Expires r threshold documented l h.0, All-Expires r threshold documented ls h.1)

-- However many replicas have a key and however their scans end, GetStaleLocks reports it at most once;
-- and on the documented replies of the client library to TTL each lock that it reports expires, in more
-- seconds than the threshold, which is positive: a lock that never expires is not reported.
pub get_stale_locks-Expires :
    (r : Redis) (cfg : Config) (ctx : ℕ → Option Err) (fuel : ℕ) (pattern : Str) (threshold : ℤ)
    (all : List LockReport) (e : Option Err)
    → ((addr key : Str) (t : ℤ) → r.ttl addr key ≡ ok t → Documented t)
    → get_stale_locks r cfg ctx fuel pattern threshold ≡ some (all, e)
    → Distinct all × All (Expires r threshold) all
get_stale_locks-Expires r cfg ctx fuel pattern threshold all e documented h =
    let (distinct, each) = get_stale_locks-Told r cfg ctx fuel pattern threshold all e h in
    (distinct, All-Expires r threshold documented all each)
