-- ===== src/Operations/Failover/Choice.antt =====
-- The lag that is computed, and the replica that is chosen.
use redis_admin.Base.{
  ℕ, ◌-◌, ◌<◌, ◌^◌, ◌≡◌, refl, inl, inr, Bool, true, false, List, [], ◌∷◌, arith, pos, lt_int,
  if◌then◌else◌, All, Bool-cases,
}
use redis_admin.Order.{◌≤ℤ◌, ≤ℤ_trans}
use mathlib.Core.List.{Memᴰ}
use redis_admin.Operations.Failover.{Candidate, lag_between, pick_best}

-- For the offsets that Redis reports, which are not negative, the subtraction does not overflow:
-- the lag is the master's lead over the replica, and 0 where the replica is ahead.
pub lag_between_lem :
    (m s : ℕ) → m < 2 ^ 63 → s < 2 ^ 63 → lag_between (pos m) (pos s) ≡ pos (m - s)
unfolding lag_between
lag_between_lem m s h k = ground arith

-- one of the candidates, of the lowest lag
pub record Lowest (cs : List Candidate) (best : Candidate) : Type 0 where
  pub among : Memᴰ best cs
  pub lowest : All (λ c. ◌≤ℤ◌ best.lag_bytes c.lag_bytes) cs

pick_best_among : (best : Candidate) (cs : List Candidate) → Memᴰ (pick_best best cs) (best ∷ cs)
unfolding pick_best
pick_best_among best [] = Memᴰ.head refl
pick_best_among best (c ∷ cs) = elim (Bool-cases (lt_int c.lag_bytes best.lag_bytes)) [
  | inl e ↦ rw e (Memᴰ.tail (pick_best_among c cs))
  | inr e ↦ rw e (skip (pick_best_among best cs))
]
  where
    skip : {x : Candidate} → Memᴰ x (best ∷ cs) → Memᴰ x (best ∷ c ∷ cs)
    skip (Memᴰ.head p) = Memᴰ.head p
    skip (Memᴰ.tail m) = Memᴰ.tail (Memᴰ.tail m)

pick_best_le :
    (best : Candidate) (cs : List Candidate)
    → All (λ c. ◌≤ℤ◌ (pick_best best cs).lag_bytes c.lag_bytes) (best ∷ cs)
unfolding pick_best
pick_best_le best [] = (omega arith, tt)
pick_best_le best (c ∷ cs) = go (lt_int c.lag_bytes best.lag_bytes) refl (λ b. pick_best_le b cs)
  where
    go :
        (t : Bool)
        → lt_int c.lag_bytes best.lag_bytes ≡ t
        → ((b : Candidate) → All (λ d. ◌≤ℤ◌ (pick_best b cs).lag_bytes d.lag_bytes) (b ∷ cs))
        → All
            (λ d. ◌≤ℤ◌ (pick_best (if t then c else best) cs).lag_bytes d.lag_bytes)
            (best ∷ c ∷ cs)
    go true e ih = (≤ℤ_trans _ c.lag_bytes best.lag_bytes (ih c).0 (ground arith), ih c)
    go false e ih = (
      (ih best).0,
      (≤ℤ_trans _ best.lag_bytes c.lag_bytes (ih best).0 (ground arith), (ih best).1),
    )

-- The loop over the candidates returns one of them, and none has a lower lag.
pub pick_best-Lowest : (c : Candidate) (cs : List Candidate) → Lowest (c ∷ cs) (pick_best c cs)
pick_best-Lowest c cs = record { among = pick_best_among c cs; lowest = pick_best_le c cs }
