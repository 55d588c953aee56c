-- ===== src/Diagnostics/Locks/Sound.antt =====
-- What holds of the keys that were seen and of the locks that were found so far.
use mathlib.Core.Path.{subst}
use redis_admin.Base.{
  ℕ, zero, suc, ◌≡◌, refl, ap, sym, ◌∙◌, ◌≢◌, inl, inr, Bool, true, false, Option, none, some, List,
  [], ◌∷◌, ◌++◌, append_assoc, arith, Str, eq_str_refl, ℤ, ◌==◌, Bool-cases, All, All-append,
}
use redis_admin.Errors.{Err, Result, ok, err}
use redis_admin.Redis.{Redis}
use redis_admin.Keys.Scanner.{seconds}
use redis_admin.Diagnostics.Locks.{
  stale, LockReport, is_seen, LockState, with_lock, met_key, lock_key, lock_page, next_page,
  page_check, lock_pages,
}

abbrev pub Distinct : List LockReport → Type 0
Distinct [] = Unit
Distinct (l ∷ ls) = All (λ m. l.key ≢ m.key) ls × Distinct ls

-- every lock so far was seen, none stands twice, and each one satisfies `P`
pub record Sound (P : LockReport → Type 0) (seen : List Str) (ls : List LockReport) : Type 0 where
  pub known : All (λ l. is_seen l.key seen ≡ true) ls
  pub distinct : Distinct ls
  pub each : All P ls

seen_more :
    (k : Str) (seen : List Str) (ls : List LockReport)
    → All (λ l. is_seen l.key seen ≡ true) ls
    → All (λ l. is_seen l.key (k ∷ seen) ≡ true) ls
unfolding is_seen
seen_more k seen [] h = tt
seen_more k seen (l ∷ ls) h = (ground arith, seen_more k seen ls h.1)

unseen_differs :
    (k : Str) (seen : List Str) (ls : List LockReport)
    → is_seen k seen ≡ false
    → All (λ l. is_seen l.key seen ≡ true) ls
    → All (λ l. l.key ≢ k) ls
unseen_differs k seen [] e h = tt
unseen_differs k seen (l ∷ ls) e h = (λ q. absurd (differ q), unseen_differs k seen ls e h.1)
  where
    differ : l.key ≡ k → ⊥
    differ q = let c : true ≡ false = sym h.0 ∙ ap (λ x. is_seen x seen) q ∙ e in absurd (cc)

Distinct-append :
    (ls : List LockReport) (l : LockReport)
    → Distinct ls
    → All (λ m. m.key ≢ l.key) ls
    → Distinct (ls ++ l ∷ [])
Distinct-append [] l h k = (tt, tt)
Distinct-append (m ∷ ls) l h k =
    (All-append (λ x. m.key ≢ x.key) ls (l ∷ []) h.0 (k.0, tt), Distinct-append ls l h.1 k.1)

-- the locks of the nodes before, with those of this one
abbrev pub SoundAfter : (LockReport → Type 0) → List LockReport → LockState → Type 0
SoundAfter P before s = Sound P s.seen (before ++ s.locks)

-- the TTL that the node gives is the one reported, and is stale
abbrev pub IsStale : Redis → ℤ → LockReport → Type 0
IsStale r threshold l =
    (t : ℤ) × (r.ttl l.node_addr l.key ≡ ok t)
    × (l.ttl_seconds ≡ seconds t)
    × (stale threshold l.ttl_seconds ≡ true)

pub prefix-All : (P : LockReport → Type 0) (xs ys : List LockReport) → All P (xs ++ ys) → All P xs
prefix-All P [] ys h = tt
prefix-All P (x ∷ xs) ys h = (h.0, prefix-All P xs ys h.1)

pub prefix-Distinct : (xs ys : List LockReport) → Distinct (xs ++ ys) → Distinct xs
prefix-Distinct [] ys h = tt
prefix-Distinct (x ∷ xs) ys h =
    (prefix-All (λ m. x.key ≢ m.key) xs ys h.0, prefix-Distinct xs ys h.1)

with_lock-Sound :
    (P : LockReport → Type 0) (before : List LockReport) (s : LockState) (l : LockReport) (b : Bool)
    → (b ≡ true → P l)
    → is_seen l.key s.seen ≡ false
    → SoundAfter P before s
    → SoundAfter P before (with_lock s l.key b l)
unfolding is_seen
with_lock-Sound P before s l false g e h = record {
  known = seen_more l.key s.seen (before ++ s.locks) h.known;
  distinct = h.distinct;
  each = h.each;
}
with_lock-Sound P before s l true g e h =
    subst (Sound P (l.key ∷ s.seen)) (append_assoc before s.locks (l ∷ [])) (record {
      known =
          All-append (λ m. is_seen m.key (l.key ∷ s.seen) ≡ true) (before ++ s.locks) (l ∷ [])
            (seen_more l.key s.seen (before ++ s.locks) h.known) (rw eq_str_refl refl, tt);
      distinct =
          Distinct-append (before ++ s.locks) l h.distinct
            (unseen_differs l.key s.seen (before ++ s.locks) e h.known);
      each = All-append P (before ++ s.locks) (l ∷ []) h.each (g refl, tt);
    })

module _ (r : Redis) (addr : Str) (threshold : ℤ) (before : List LockReport) where
  met_key-Sound :
      (key : Str) (s : LockState) (q : Result ℤ)
      → r.ttl addr key ≡ q
      → is_seen key s.seen ≡ false
      → SoundAfter (IsStale r threshold) before s
      → SoundAfter (IsStale r threshold) before (met_key r addr threshold key s q)
  met_key-Sound key s (err e) a n h = record {
    known = seen_more key s.seen (before ++ s.locks) h.known;
    distinct = h.distinct;
    each = h.each;
  }
  met_key-Sound key s (ok t) a n h =
      with_lock-Sound (IsStale r threshold) before s _ _ (λ e. (t, a, refl, e)) n h

  lock_key-Sound :
      (key : Str) (s : LockState)
      → SoundAfter (IsStale r threshold) before s
      → SoundAfter (IsStale r threshold) before (lock_key r addr threshold key s)
  unfolding lock_key
  lock_key-Sound key s h = elim (Bool-cases (is_seen key s.seen)) [
    | inl e ↦ rw e h
    | inr e ↦ rw e (met_key-Sound key s (r.ttl addr key) refl e h)
  ]

  lock_page-Sound :
      (ks : List Str) (s : LockState)
      → SoundAfter (IsStale r threshold) before s
      → SoundAfter (IsStale r threshold) before (lock_page r addr threshold ks s)
  unfolding lock_page
  lock_page-Sound [] s h = h
  lock_page-Sound (k ∷ ks) s h =
      lock_page-Sound ks (lock_key r addr threshold k s) (lock_key-Sound k s h)

  abbrev pub Ensured : Option (Option Err × ℕ × LockState) → Type 0
  Ensured none = Unit
  Ensured (some q) = SoundAfter (IsStale r threshold) before q.2

  next_page-Ensured :
      (i : ℕ) (s : LockState) (more : ℕ → LockState → Option (Option Err × ℕ × LockState))
      (q : Result (List Str × ℕ))
      → SoundAfter (IsStale r threshold) before s
      → ((c : ℕ) (t : LockState) → SoundAfter (IsStale r threshold) before t → Ensured (more c t))
      → Ensured (next_page r addr threshold i s more q)
  next_page-Ensured i s more (err e) h m = h
  next_page-Ensured i s more (ok (keys, next)) h m = elim (Bool-cases (next == 0)) [
    | inl e ↦ rw e (lock_page-Sound keys s h)
    | inr e ↦ rw e (m next (lock_page r addr threshold keys s) (lock_page-Sound keys s h))
  ]

  page_check-Ensured :
      (c : Option Err) (i : ℕ) (s : LockState) (rest : Option (Option Err × ℕ × LockState))
      → SoundAfter (IsStale r threshold) before s
      → Ensured rest
      → Ensured (page_check c i s rest)
  page_check-Ensured (some e) i s rest h k = h
  page_check-Ensured none i s rest h k = k

  pub lock_pages-Ensured :
      (ctx : ℕ → Option Err) (pattern : Str) (fuel cursor i : ℕ) (s : LockState)
      → SoundAfter (IsStale r threshold) before s
      → Ensured (lock_pages r ctx addr pattern threshold fuel cursor i s)
  unfolding lock_pages
  lock_pages-Ensured ctx pattern zero cursor i s h = tt
  lock_pages-Ensured ctx pattern (suc fuel) cursor i s h = page_check-Ensured (ctx i) i s _ h (
      next_page-Ensured (suc i) s _ (r.scan addr pattern cursor) h
        (λ c t k. lock_pages-Ensured ctx pattern fuel c (suc i) t k))
