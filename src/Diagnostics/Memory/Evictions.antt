-- ===== src/Diagnostics/Memory/Evictions.antt =====
-- The rate of evictions over a sequence of polls.
use mathlib.Core.Path.{subst}
use redis_admin.Base.{
  true, false, pos, lt_int, sub64, leb, ◌-◌, ◌≤◌, ◌<◌, sym, arith, Bool-cases, inl, inr, ℕ, ◌≡◌,
  refl, ap, ◌∙◌, Option, none, some, List, [], ◌∷◌, Str, eq_str, Dict, lookup, insert,
  lookup-insert, ℤ, if◌then◌else◌,
}
use redis_admin.Float.{Float64}
use redis_admin.Diagnostics.Memory.{EvictedSample, rate_since, eviction_rate}

pub record Poll : Type 0 where
  pub addr : Str
  pub sample : EvictedSample

-- the last sample of a node among the polls, or the one before them
unfoldable pub latest : Str → Option EvictedSample → List Poll → Option EvictedSample
unfolding eq_str
latest addr known [] = known
latest addr known (p ∷ ps) = latest addr (if eq_str p.addr addr then some p.sample else known) ps

module _ {F : Type 0} (fl : Float64 F) where
  unfoldable pub poll_all : Dict EvictedSample → List Poll → Dict EvictedSample
  unfolding eviction_rate
  poll_all samples [] = samples
  poll_all samples (p ∷ ps) =
      poll_all (eviction_rate fl samples p.addr p.sample.count p.sample.at_time).1 ps

  lookup-poll_all :
      (addr : Str) (samples : Dict EvictedSample) (ps : List Poll)
      → lookup addr (poll_all samples ps) ≡ latest addr (lookup addr samples) ps
  unfolding poll_all latest eviction_rate
  lookup-poll_all addr samples [] = refl
  lookup-poll_all addr samples (p ∷ ps) =
      lookup-poll_all addr (insert p.addr p.sample samples) ps
      ∙ ap (λ o. latest addr o ps) (lookup-insert p.addr addr p.sample samples)

  -- the rate of a counter at `now` since the sample before it: 0 where there is none, where the counter
  -- was reset or where the clock did not go on, and the difference over the seconds otherwise
  pub data IsRate (known : Option EvictedSample) (current : ℤ) (now : ℕ) (rate : F) : Type 0 where
    not_polled : known ≡ none → rate ≡ fl.of_int (pos 0) → IsRate known current now rate
    reset :
        (prev : EvictedSample)
        → known ≡ some prev
        → lt_int current prev.count ≡ true
        → rate ≡ fl.of_int (pos 0)
        → IsRate known current now rate
    at_once :
        (prev : EvictedSample)
        → known ≡ some prev
        → lt_int current prev.count ≡ false
        → now ≤ prev.at_time
        → rate ≡ fl.of_int (pos 0)
        → IsRate known current now rate
    since :
        (prev : EvictedSample)
        → known ≡ some prev
        → lt_int current prev.count ≡ false
        → prev.at_time < now
        → rate
          ≡ fl.div (fl.of_int (sub64 current prev.count)) (fl.seconds (pos (now - prev.at_time)))
        → IsRate known current now rate

  rate_since-IsRate :
      (known : Option EvictedSample) (current : ℤ) (now : ℕ)
      → IsRate known current now (rate_since fl known current now)
  unfolding rate_since
  rate_since-IsRate none current now = not_polled refl refl
  rate_since-IsRate (some prev) current now = elim (Bool-cases (lt_int current prev.count)) [
    | inl lower ↦ reset prev refl lower (rw lower refl)
    | inr higher ↦ elim (Bool-cases (leb now prev.at_time)) [
      | inl early ↦ at_once prev refl higher (ground arith) (rw (higher, early) refl)
      | inr late ↦ since prev refl higher (ground arith) (rw (higher, late) refl)
    ]
  ]

  -- After any polls of any nodes, evictionRate reports for a node the evictions since the last poll of
  -- that node over the seconds since then, and 0 where it has not been polled, where its counter is lower
  -- than at that poll, and where the clock has not gone on.
  pub eviction_rate-latest :
      (addr : Str) (ps : List Poll) (current : ℤ) (now : ℕ)
      → IsRate
          (latest addr none ps)
          current
          now
          (eviction_rate fl (poll_all [] ps) addr current now).0
  unfolding eviction_rate
  eviction_rate-latest addr ps current now =
      subst (λ o. IsRate (latest addr none ps) current now (rate_since fl o current now))
        (sym (lookup-poll_all addr [] ps ∙ ap (λ o. latest addr o ps) (lookup_nothing addr)))
        (rate_since-IsRate (latest addr none ps) current now)
    where
      lookup_nothing : (k : Str) → ◌≡◌ {A = Option EvictedSample} (lookup k []) none
      lookup_nothing k = refl
