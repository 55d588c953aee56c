-- ===== src/Sentinel/Flapping/Window.antt =====
-- What pruning leaves for later events.
use redis_admin.Base.{
  ℕ, ◌≤◌, ◌≡◌, refl, ap, false, List, [], ◌∷◌, ◌++◌, arith, Bool-cases, inl, inr,
}
use redis_admin.Sentinel.Flapping.{is_recent, prune}

pub prune-append : (now : ℕ) (xs ys : List ℕ) → prune now (xs ++ ys) ≡ prune now xs ++ prune now ys
unfolding prune
prune-append now [] ys = refl
prune-append now (t ∷ ts) ys = elim (Bool-cases (is_recent now t)) [
  | inl e ↦ rw e (ap (λ l. t ∷ l) (prune-append now ts ys))
  | inr e ↦ rw e (prune-append now ts ys)
]

-- what is in the window of a later time is in the window of an earlier one
still_recent : (now later t : ℕ) → now ≤ later → is_recent now t ≡ false → is_recent later t ≡ false
still_recent now later t h e = ground arith

pub prune-prune :
    (now later : ℕ) (ts : List ℕ) → now ≤ later → prune later (prune now ts) ≡ prune later ts
unfolding prune
prune-prune now later [] h = refl
prune-prune now later (t ∷ ts) h = elim (Bool-cases (is_recent now t)) [
  | inl e ↦ elim (Bool-cases (is_recent later t)) [
    | inl l ↦ rw e (rw l (ap (λ q. t ∷ q) (prune-prune now later ts h)))
    | inr l ↦ rw e (rw l (prune-prune now later ts h))
  ]
  | inr e ↦ rw e (rw (still_recent now later t h e) (prune-prune now later ts h))
]

-- the time itself is in its window
pub prune_now : (now : ℕ) → prune now (now ∷ []) ≡ now ∷ []
unfolding prune
prune_now now = ground arith
