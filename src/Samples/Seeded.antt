-- ===== src/Samples/Seeded.antt =====
-- A call of Seed with a random source that always gives the byte 7.
use redis_admin.Base.{
  ◌++◌, decimal, ℕ, zero, suc, ◌<◌, ◌≡◌, refl, ap, Option, none, List, [], ◌∷◌, arith, Str, str,
  pos, length, All,
}
use redis_admin.Errors.{Err}
use redis_admin.Chaos.Seed.{Command}
use redis_admin.Chaos.Seed.Batches.{Complete}
use redis_admin.Chaos.Seed.RandomValue.{IsHexDigit}
use redis_admin.Chaos.Seed.Fresh.{Seeds, one_by_one, seed_values, seed_lem}

abbrev sevens : ℕ → List ℕ
sevens zero = []
sevens (suc n) = 7 ∷ sevens n

length-sevens : (n : ℕ) → length (sevens n) ≡ n
length-sevens zero = refl
length-sevens (suc n) = ap suc (length-sevens n)

sevens_lem : (n : ℕ) → All (λ b. b < 256) (sevens n)
sevens_lem zero = tt
sevens_lem (suc n) = (omega arith, sevens_lem n)

abbrev calm : ℕ → Option Err
calm n = none

abbrev executed : ℕ → List Command → Option Err
executed n b = none

seed_lem_example :
    (key : ℕ → Str) × (value : ℕ → Str) × (cs : ℕ → List Command) × Complete
      (one_by_one cs 0 250)
      250
      (seed_values (str "") (pos 250) (pos 5) (str "hash") (pos 60) (λ i. sevens) calm executed)
    × ((i : ℕ) → Seeds (str "hash") (key i) (value i) i (pos 60) (cs i))
    × ((i : ℕ) → i < 250 → (d : Str) × (key i ≡ str "test:" ++ d) × (decimal 0 d ≡ i))
    × ((i j : ℕ) → i < 250 → j < 250 → key i ≡ key j → i ≡ j)
    × ((i : ℕ) → (length (value i) ≡ 5) × All IsHexDigit (value i))
seed_lem_example =
    seed_lem (str "") (pos 250) (pos 5) (str "hash") (pos 60) (λ i. sevens) calm executed
      (λ i. refl) (λ n b. refl) (λ i. length-sevens) (λ i. sevens_lem) (omega arith)
