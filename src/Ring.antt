-- ===== src/Ring.antt =====
-- The bounded buffers of internal/operations/audit.go and internal/replication/tracker.go: append,
-- and cut the front off where the buffer is longer than its bound.
use redis_admin.Base.{
  ℕ, sym, false, ◌+◌, ◌-◌, ◌≤◌, ◌<◌, ◌≡◌, ap, ◌∙◌, List, [], ◌∷◌, ◌++◌, append_assoc, arith, length,
  drop, ltb, if◌then◌else◌, length-append, length-drop, drop-drop, drop-append_le, Bool-cases, inl,
  inr, append-nil,
}

-- the last `n` values
abbrev pub last {ℓ} : {A : Type ℓ} → ℕ → List A → List A
last n xs = drop (length xs - n) xs

nothing_over : (cap n : ℕ) → ltb cap n ≡ false → 0 ≡ n - cap
nothing_over cap n h = ground arith

regroup : (cap k n d : ℕ) → d ≡ n - k → k ≤ n - cap → k + (d - cap) ≡ n - cap
regroup cap k n d e h = omega arith

module _ {ℓ} {A : Type ℓ} where
  unfoldable pub push_bounded : ℕ → List A → A → List A
  push_bounded cap ring x =
      let grown = ring ++ x ∷ [] in
      if ltb cap (length grown) then drop (length grown - cap) grown else grown

  push_bounded-last :
      (cap : ℕ) (ring : List A) (x : A) → push_bounded cap ring x ≡ last cap (ring ++ x ∷ [])
  unfolding push_bounded
  push_bounded-last cap ring x = elim (Bool-cases (ltb cap (length (ring ++ x ∷ [])))) [
    | inl over ↦ rw over
    | inr fits ↦ rw fits (ap (λ k. drop k (ring ++ x ∷ [])) (nothing_over cap _ fits))
  ]

  -- what is pushed last stands last
  pub push_bounded_ends :
      (cap : ℕ) (ring : List A) (x : A)
      → 0 < cap
      → push_bounded cap ring x ≡ drop (length (ring ++ x ∷ []) - cap) ring ++ x ∷ []
  push_bounded_ends cap ring x h =
      push_bounded-last cap ring x
      ∙ drop-append_le (length (ring ++ x ∷ []) - cap) ring (x ∷ [])
          (omega (arith, length-append ring (x ∷ [])))

  -- several pushes
  unfoldable pub push_all : ℕ → List A → List A → List A
  unfolding push_bounded
  push_all cap ring [] = ring
  push_all cap ring (x ∷ xs) = push_all cap (push_bounded cap ring x) xs

  last-drop : (cap k : ℕ) (xs : List A) → k ≤ length xs - cap → last cap (drop k xs) ≡ last cap xs
  last-drop cap k xs h =
      drop-drop (length (drop k xs) - cap) k xs
      ∙ ap (λ n. drop n xs) (regroup cap k _ _ (length-drop k xs) h)

  last-last-append : (cap : ℕ) (xs ys : List A) → last cap (last cap xs ++ ys) ≡ last cap (xs ++ ys)
  last-last-append cap xs ys =
      ap (last cap) (sym (drop-append_le (length xs - cap) xs ys (omega arith)))
      ∙ last-drop cap (length xs - cap) (xs ++ ys) (omega (arith, length-append xs ys))

  pub push_all-last :
      (cap : ℕ) (old xs : List A) → push_all cap (last cap old) xs ≡ last cap (old ++ xs)
  unfolding push_all
  push_all-last cap old [] = rw append-nil
  push_all-last cap old (x ∷ xs) =
      ap (λ r. push_all cap r xs)
        (push_bounded-last cap (last cap old) x ∙ last-last-append cap old (x ∷ []))
      ∙ push_all-last cap (old ++ x ∷ []) xs
      ∙ ap (last cap) (append_assoc old (x ∷ []) xs)
