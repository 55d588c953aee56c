-- ===== src/Keys/Ttl/NoTtl.antt =====
-- The keys without an expiry, as the client library reports them.
use mathlib.Core.Path.{subst}
use redis_admin.Base.{
  ℕ, ◌*◌, ◌≡◌, refl, inl, inr, false, Option, none, some, List, [], ◌∷◌, Str, str, eq_str, ℤ, pos,
  negsuc, Dict, lookup, insert, All, Bool-cases,
}
use redis_admin.Errors.{Err, Result, ok, err}
use redis_admin.Redis.{Redis}
use redis_admin.Keys.Walk.{walk, walk_kept}
use redis_admin.Keys.Scanner.{key_namespace}
use redis_admin.Keys.Ttl.{
  NsStat, is_minus_second, with_ttl, count_key, collect_ttl_stats, collect_nodes, old_stat,
}

-- What go-redis documents of TTL: whole seconds, or -1 and -2 nanoseconds for a key without an
-- expiry and for no key.
pub data Documented : ℤ → Type 0 where
  whole_seconds : (n : ℕ) → Documented (pos (n * 1000000000))
  no_expiry : Documented (negsuc 0)
  no_key : Documented (negsuc 1)

abbrev pub NoneCounted : Dict NsStat → Type 0
NoneCounted ns = All (λ e. e.1.no_ttl ≡ 0) ns

Documented-never : (t : ℤ) → Documented t → is_minus_second t ≡ false
Documented-never t (whole_seconds n) = refl
Documented-never t no_expiry = refl
Documented-never t no_key = refl

none_in : (name : Str) (ns : Dict NsStat) → NoneCounted ns → (old_stat (lookup name ns)).no_ttl ≡ 0
unfolding lookup
none_in name [] h = refl
none_in name ((j, st) ∷ ns) h = elim (Bool-cases (eq_str j name)) [
  | inl e ↦ rw e h.0
  | inr e ↦ rw e (none_in name ns h.1)
]

insert-NoneCounted :
    (name : Str) (st : NsStat) (ns : Dict NsStat)
    → st.no_ttl ≡ 0
    → NoneCounted ns
    → NoneCounted (insert name st ns)
unfolding insert
insert-NoneCounted name st [] e h = (e, tt)
insert-NoneCounted name st ((j, w) ∷ ns) e h = elim (Bool-cases (eq_str j name)) [
  | inl q ↦ rw q ((e, h.1))
  | inr q ↦ rw q ((h.0, insert-NoneCounted name st ns e h.1))
]

module _ (r : Redis)
    (documented : (addr key : Str) (t : ℤ) → r.ttl addr key ≡ ok t → Documented t) where
  count_key-NoneCounted :
      (addr key : Str) (ns : Dict NsStat) → NoneCounted ns → NoneCounted (count_key r addr key ns)
  unfolding count_key with_ttl
  count_key-NoneCounted addr key ns h = go (r.ttl addr key) (documented addr key)
    where
      go :
          (q : Result ℤ)
          → ((t : ℤ) → q ≡ ok t → Documented t)
          → NoneCounted (elim q [
            | err e ↦ ns
            | ok ttl ↦ insert (key_namespace key) (with_ttl ttl (lookup (key_namespace key) ns)) ns
          ])
      go (err e) d = h
      go (ok t) d =
          insert-NoneCounted (key_namespace key) (with_ttl t (lookup (key_namespace key) ns)) ns
            (rw (Documented-never t (d t refl)) (none_in (key_namespace key) ns h)) h

  collect_nodes_kept :
      (ctx : ℕ → Option Err) (fuel : ℕ) (addrs : List Str) (i : ℕ) (ns out : Dict NsStat)
      → collect_nodes r ctx fuel addrs i ns ≡ some out
      → NoneCounted ns
      → NoneCounted out
  unfolding collect_nodes collect_ttl_stats
  collect_nodes_kept ctx fuel [] i ns out h k = subst NoneCounted (cc) k
  collect_nodes_kept ctx fuel (addr ∷ addrs) i ns out h k =
      go (walk ctx (r.scan addr (str "*")) (count_key r addr) fuel 0 i ns) refl h
        (λ j m. collect_nodes_kept ctx fuel addrs j m out)
    where
      go :
          (o : Option (Option Err × ℕ × Dict NsStat))
          → walk ctx (r.scan addr (str "*")) (count_key r addr) fuel 0 i ns ≡ o
          → ◌≡◌ {A = Option (Dict NsStat)}
              (elim o [ none ↦ none | some p ↦ collect_nodes r ctx fuel addrs p.1 p.2 ])
              (some out)
          → ((j : ℕ) (m : Dict NsStat)
              → collect_nodes r ctx fuel addrs j m ≡ some out
              → NoneCounted m
              → NoneCounted out)
          → NoneCounted out
      go none e h ih = absurd (cc)
      go (some p) e h ih = ih p.1 p.2 h (
          walk_kept ctx (r.scan addr (str "*")) (count_key r addr) NoneCounted
            (λ x s b. count_key-NoneCounted addr x s b) fuel 0 i ns p e k)

-- The test for a key without an expiry compares with a second, and the client library reports a
-- nanosecond: on its documented replies no key is ever counted as one without an expiry.
pub collect_nodes-NoneCounted :
    (r : Redis) (ctx : ℕ → Option Err) (fuel : ℕ) (addrs : List Str) (out : Dict NsStat)
    → ((addr key : Str) (t : ℤ) → r.ttl addr key ≡ ok t → Documented t)
    → collect_nodes r ctx fuel addrs 0 [] ≡ some out
    → NoneCounted out
collect_nodes-NoneCounted r ctx fuel addrs out documented h =
    collect_nodes_kept r documented ctx fuel addrs 0 [] out h tt
