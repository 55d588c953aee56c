-- ===== src/Replication/Tracker/Trend.antt =====
-- The history of each replica.
use redis_admin.Base.{
  ◌≡◌, refl, ap, ◌∙◌, Bool, true, false, some, List, [], ◌∷◌, Str, eq_str, eq_str_iff, lookup,
  lookup-insert, if◌then◌else◌, Bool-cases, inl, inr,
}
use redis_admin.Ring.{push_bounded, push_all, push_all-last, last}
use redis_admin.Replication.Tracker.{
  LagSample, Samples, lag_ring_size, samples_or_none, get_trend, record_sample,
}

-- a run of recordSample calls
unfoldable pub record_samples : Samples → List (Str × LagSample) → Samples
unfolding record_sample
record_samples samples [] = samples
record_samples samples ((addr, s) ∷ es) = record_samples (record_sample samples addr s) es

-- the samples of one replica among all
unfoldable pub samples_of : Str → List (Str × LagSample) → List LagSample
unfolding eq_str
samples_of addr [] = []
samples_of addr ((a, s) ∷ es) =
    let rest = samples_of addr es in if eq_str a addr then s ∷ rest else rest

pub get_trend-record_sample :
    (samples : Samples) (a addr : Str) (s : LagSample)
    → get_trend (record_sample samples a s) addr ≡ (
        if eq_str a addr
        then push_bounded lag_ring_size (get_trend samples addr) s
        else get_trend samples addr)
unfolding get_trend record_sample
get_trend-record_sample samples a addr s =
    ap samples_or_none (lookup-insert a addr _ samples) ∙ go (eq_str a addr) refl
  where
    go :
        (t : Bool)
        → eq_str a addr ≡ t
        → samples_or_none (
            if t
            then some (push_bounded lag_ring_size (samples_or_none (lookup a samples)) s)
            else lookup addr samples)
          ≡ (if t
              then push_bounded lag_ring_size (samples_or_none (lookup addr samples)) s
              else samples_or_none (lookup addr samples))
    go true e =
        ap (λ k. push_bounded lag_ring_size (samples_or_none (lookup k samples)) s)
          ((eq_str_iff a addr).0 e)
    go false e = refl

get_trend-push_all :
    (samples : Samples) (addr : Str) (es : List (Str × LagSample))
    → get_trend (record_samples samples es) addr
      ≡ push_all lag_ring_size (get_trend samples addr) (samples_of addr es)
unfolding record_samples samples_of push_all
get_trend-push_all samples addr [] = refl
get_trend-push_all samples addr ((a, s) ∷ es) =
    get_trend-push_all (record_sample samples a s) addr es
    ∙ ap (λ t. push_all lag_ring_size t (samples_of addr es))
        (get_trend-record_sample samples a addr s)
    ∙ elim (Bool-cases (eq_str a addr)) [ inl e ↦ rw e refl | inr e ↦ rw e refl ]

get_trend_empty : (addr : Str) → get_trend [] addr ≡ []
unfolding get_trend lookup
get_trend_empty addr = refl

-- Whatever samples are recorded, of whichever replicas, the trend of a replica is its last ten
-- samples in the order in which they were recorded: other replicas do not disturb it.
pub get_trend-last :
    (addr : Str) (es : List (Str × LagSample))
    → get_trend (record_samples [] es) addr ≡ last lag_ring_size (samples_of addr es)
get_trend-last addr es =
    get_trend-push_all [] addr es
    ∙ ap (λ t. push_all lag_ring_size t (samples_of addr es)) (get_trend_empty addr)
    ∙ push_all-last lag_ring_size [] (samples_of addr es)
