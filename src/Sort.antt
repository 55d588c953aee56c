-- ===== src/Sort.antt =====
-- sort.Slice by a number, highest first. The language leaves the order of equal elements open: here
-- they keep the order of the list.
use mathlib.Core.List.{Perm}
use mathlib.Core.List.Perm
use redis_admin.Base.{
  ℕ, zero, suc, ◌≡◌, refl, inl, inr, List, [], ◌∷◌, arith, ℤ, lt_int, length, take, drop, All,
  All-take, All-drop, if◌then◌else◌, Bool-cases,
}
use redis_admin.Order.{◌≤ℤ◌, ≤ℤ_trans}

module _ {A : Type 0} (value : A → ℤ) where
  put_in_order : A → List A → List A
  put_in_order x [] = x ∷ []
  put_in_order x (y ∷ ys) =
      let rest = put_in_order x ys in if lt_int (value x) (value y) then y ∷ rest else x ∷ y ∷ ys

  unfoldable pub sort_desc : List A → List A
  unfolding put_in_order
  sort_desc [] = []
  sort_desc (x ∷ xs) = put_in_order x (sort_desc xs)

  -- no element is higher than one before it
  abbrev pub Descending : List A → Type 0
  Descending [] = Unit
  Descending (x ∷ xs) = All (λ y. ◌≤ℤ◌ (value y) (value x)) xs × Descending xs

  All-put_in_order :
      (P : A → Type 0) (x : A) (ys : List A) → P x → All P ys → All P (put_in_order x ys)
  unfolding put_in_order
  All-put_in_order P x [] h k = (h, tt)
  All-put_in_order P x (y ∷ ys) h k = elim (Bool-cases (lt_int (value x) (value y))) [
    | inl e ↦ rw e ((k.0, All-put_in_order P x ys h k.1))
    | inr e ↦ rw e ((h, k))
  ]

  pub All-sort_desc : (P : A → Type 0) (xs : List A) → All P xs → All P (sort_desc xs)
  unfolding sort_desc
  All-sort_desc P [] h = tt
  All-sort_desc P (x ∷ xs) h = All-put_in_order P x (sort_desc xs) h.0 (All-sort_desc P xs h.1)

  below :
      (x y : A) (ys : List A)
      → ◌≤ℤ◌ (value y) (value x)
      → All (λ z. ◌≤ℤ◌ (value z) (value y)) ys
      → All (λ z. ◌≤ℤ◌ (value z) (value x)) ys
  below x y [] h k = tt
  below x y (z ∷ zs) h k = (≤ℤ_trans _ (value y) _ k.0 h, below x y zs h k.1)

  Descending-put_in_order : (x : A) (ys : List A) → Descending ys → Descending (put_in_order x ys)
  unfolding put_in_order
  Descending-put_in_order x [] h = (tt, tt)
  Descending-put_in_order x (y ∷ ys) h = elim (Bool-cases (lt_int (value x) (value y))) [
    | inl e ↦ rw e (
        (
          All-put_in_order (λ z. ◌≤ℤ◌ (value z) (value y)) x ys (ground arith) h.0,
          Descending-put_in_order x ys h.1,
        ))
    | inr e ↦
        rw e (let le : ◌≤ℤ◌ (value y) (value x) = ground arith in ((le, below x y ys le h.0), h))
  ]

  pub Descending-sort_desc : (xs : List A) → Descending (sort_desc xs)
  unfolding sort_desc
  Descending-sort_desc [] = tt
  Descending-sort_desc (x ∷ xs) = Descending-put_in_order x (sort_desc xs) (Descending-sort_desc xs)

  length-put_in_order : (x : A) (ys : List A) → length (put_in_order x ys) ≡ suc (length ys)
  unfolding put_in_order
  length-put_in_order x [] = refl
  length-put_in_order x (y ∷ ys) = ground (arith, length-put_in_order x ys)

  pub length-sort_desc : (xs : List A) → length (sort_desc xs) ≡ length xs
  unfolding sort_desc
  length-sort_desc [] = refl
  length-sort_desc (x ∷ xs) =
      omega (arith, length-put_in_order x (sort_desc xs), length-sort_desc xs)

  put_in_order-perm : (x : A) (ys : List A) → Perm (put_in_order x ys) (x ∷ ys)
  unfolding put_in_order
  put_in_order-perm x [] = Perm.refl (x ∷ [])
  put_in_order-perm x (y ∷ ys) = elim (Bool-cases (lt_int (value x) (value y))) [
    | inl e ↦ rw e (Perm.trans (Perm.cons y (put_in_order-perm x ys)) (Perm.swap x y ys))
    | inr e ↦ rw e (Perm.refl (x ∷ y ∷ ys))
  ]

  pub sort_desc-perm : (xs : List A) → Perm (sort_desc xs) xs
  unfolding sort_desc
  sort_desc-perm [] = Perm.refl []
  sort_desc-perm (x ∷ xs) =
      Perm.trans (put_in_order-perm x (sort_desc xs)) (Perm.cons x (sort_desc-perm xs))

  -- what is cut off is not higher than what is kept
  pub Descending-take : (n : ℕ) (xs : List A) → Descending xs → Descending (take n xs)
  Descending-take zero xs h = tt
  Descending-take (suc n) [] h = tt
  Descending-take (suc n) (x ∷ xs) h =
      (All-take (λ y. ◌≤ℤ◌ (value y) (value x)) n xs h.0, Descending-take n xs h.1)

  pub kept_above :
      (n : ℕ) (xs : List A)
      → Descending xs
      → All (λ x. All (λ y. ◌≤ℤ◌ (value y) (value x)) (drop n xs)) (take n xs)
  kept_above zero xs h = tt
  kept_above (suc n) [] h = tt
  kept_above (suc n) (x ∷ xs) h =
      (All-drop (λ y. ◌≤ℤ◌ (value y) (value x)) n xs h.0, kept_above n xs h.1)
