-- ===== src/Diagnostics/Locks/Complete.antt =====
-- Which locks a node reports.
use redis_admin.Base.{
  ℕ, zero, suc, ◌≤◌, ◌≡◌, refl, ap, sym, ◌∙◌, inl, inr, Bool, true, false, Option, none, some, List,
  [], ◌∷◌, ◌++◌, arith, Str, ℤ, if◌then◌else◌, length, append_assoc, append-nil, Bool-cases,
}
use redis_admin.Errors.{Err, Result, ok, err}
use redis_admin.Redis.{Redis}
use redis_admin.Keys.Scanner.{seconds}
use redis_admin.Keys.Pages.{PageRun, last_page, one_more}
use redis_admin.Diagnostics.Locks.{
  LockReport, LockState, is_seen, stale, lock_report, with_lock, met_key, lock_key, lock_page,
  next_page, page_check, lock_pages, scan_locks,
}

-- the keys that were not met before, each at its first place
abbrev pub fresh : List Str → List Str → List Str
fresh seen [] = []
fresh seen (k ∷ ks) = if is_seen k seen then fresh seen ks else k ∷ fresh (k ∷ seen) ks

-- one page after the other
abbrev pub all_keys : List (List Str) → List Str
all_keys [] = []
all_keys (p ∷ ps) = p ++ all_keys ps

module _ (r : Redis) (addr : Str) (threshold : ℤ) where
  -- the keys whose TTL the node gives and finds stale
  abbrev pub stale_locks : List Str → List LockReport
  stale_locks [] = []
  stale_locks (k ∷ ks) = elim (r.ttl addr k) [
    | err e ↦ stale_locks ks
    | ok ttl ↦
        if stale threshold (seconds ttl)
        then lock_report r addr k (seconds ttl) ∷ stale_locks ks
        else stale_locks ks
  ]

  -- the locks of a state, and those that the keys to come will give
  abbrev in_all : LockState → List Str → List LockReport
  in_all s ks = s.locks ++ stale_locks (fresh s.seen ks)

  met_key-in_all :
      (k : Str) (ks : List Str) (s : LockState) (q : Result ℤ)
      → r.ttl addr k ≡ q
      → in_all (met_key r addr threshold k s q) ks
        ≡ s.locks ++ stale_locks (k ∷ fresh (k ∷ s.seen) ks)
  met_key-in_all k ks s (err e) q = rw (q, stale_locks) refl
  met_key-in_all k ks s (ok ttl) q = rw (q, stale_locks) (go (stale threshold (seconds ttl)))
    where
      go :
          (b : Bool)
          → in_all (with_lock s k b (lock_report r addr k (seconds ttl))) ks
            ≡ s.locks
              ++ (if b
                  then lock_report r addr k (seconds ttl) ∷ stale_locks (fresh (k ∷ s.seen) ks)
                  else stale_locks (fresh (k ∷ s.seen) ks))
      go true = append_assoc s.locks (lock_report r addr k (seconds ttl) ∷ []) _
      go false = refl

  lock_key-in_all :
      (k : Str) (ks : List Str) (s : LockState)
      → in_all (lock_key r addr threshold k s) ks ≡ in_all s (k ∷ ks)
  unfolding lock_key
  lock_key-in_all k ks s = elim (Bool-cases (is_seen k s.seen)) [
    | inl e ↦ rw e refl
    | inr e ↦ rw e (met_key-in_all k ks s (r.ttl addr k) refl)
  ]

  lock_page-in_all :
      (ks rest : List Str) (s : LockState)
      → in_all (lock_page r addr threshold ks s) rest ≡ in_all s (ks ++ rest)
  unfolding lock_page
  lock_page-in_all [] rest s = refl
  lock_page-in_all (k ∷ ks) rest s =
      lock_page-in_all ks rest (lock_key r addr threshold k s) ∙ lock_key-in_all k (ks ++ rest) s

  module _ (ctx : ℕ → Option Err) (pattern : Str) (running : (n : ℕ) → ctx n ≡ none) where
    abbrev more : ℕ → ℕ → ℕ → LockState → Option (Option Err × ℕ × LockState)
    more fuel i next t = lock_pages r ctx addr pattern threshold fuel next (suc i) t

    one_round :
        (fuel cursor i : ℕ) (s : LockState) {keys : List Str} {next : ℕ}
        → r.scan addr pattern cursor ≡ ok (keys, next)
        → lock_pages r ctx addr pattern threshold (suc fuel) cursor i s
          ≡ next_page r addr threshold (suc i) s (more fuel i) (ok (keys, next))
    unfolding lock_pages
    one_round fuel cursor i s p =
        ap
          (λ c.
            page_check c i s
              (next_page r addr threshold (suc i) s (more fuel i) (r.scan addr pattern cursor)))
          (running i)
        ∙ ap (next_page r addr threshold (suc i) s (more fuel i)) p

    lock_pages-in_all :
        (fuel cursor i : ℕ) (s : LockState) (ps : List (List Str))
        → PageRun (r.scan addr pattern) cursor ps
        → length ps ≤ fuel
        → (j : ℕ) × (t : LockState) × (lock_pages r ctx addr pattern threshold fuel cursor i s
            ≡ some (none, j, t))
          × (t.locks ≡ in_all s (all_keys ps))
    lock_pages-in_all zero cursor i s ps (last_page p) h = absurd (omega arith)
    lock_pages-in_all zero cursor i s ps (one_more p q run) h = absurd (omega arith)
    lock_pages-in_all (suc fuel) cursor i s ps (last_page {keys} p) h =
        let t = lock_page r addr threshold keys s in
        (
          suc i,
          t,
          one_round fuel cursor i s p,
          sym (append-nil t.locks) ∙ lock_page-in_all keys [] s,
        )
    lock_pages-in_all (suc fuel) cursor i s ps (one_more {keys} {next} {rest} p q run) h =
        let t = lock_page r addr threshold keys s in
        let (j, u, e, l) = lock_pages-in_all fuel next (suc i) t rest run (omega arith) in
        (j, u, one_round fuel cursor i s p ∙ rw q e, l ∙ lock_page-in_all keys (all_keys rest) s)

-- Where the pages of a node come to an end and the context is not cancelled, fuel for the pages is
-- enough: scanLocks reports, in the order of the pages, each key that no node scanned before had and
-- whose TTL the node gives and finds stale, once, and no other.
pub scan_locks-Complete :
    (r : Redis) (ctx : ℕ → Option Err) (fuel : ℕ) (addr pattern : Str) (threshold : ℤ) (i : ℕ)
    (seen : List Str) (ps : List (List Str))
    → ((n : ℕ) → ctx n ≡ none)
    → PageRun (r.scan addr pattern) 0 ps
    → length ps ≤ fuel
    → (j : ℕ) × (s : LockState) × (scan_locks r ctx fuel addr pattern threshold i seen
        ≡ some (none, j, s))
      × (s.locks ≡ stale_locks r addr threshold (fresh seen (all_keys ps)))
unfolding scan_locks
scan_locks-Complete r ctx fuel addr pattern threshold i seen ps running run enough =
    lock_pages-in_all r addr threshold ctx pattern running fuel 0 i
      (record { seen = seen; locks = [] }) ps run enough
