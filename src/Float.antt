-- ===== src/Float.antt =====
-- The operations on float64 that the source uses, as an interface: what it computes with them is a
-- parameter of the definitions; a theorem that depends on how they round has that as a hypothesis.
use redis_admin.Base.{Str, ℕ, ℤ, Bool}

pub record Float64 (F : Type 0) : Type 0 where
  -- float64(n)
  pub of_int : ℤ → F
  -- a decimal literal, as its numerator over a power of ten
  pub literal : ℕ → ℕ → F
  pub sub : F → F → F
  pub mul : F → F → F
  pub div : F → F → F
  -- a < b
  pub lt : F → F → Bool
  -- time.Duration.Seconds of a number of nanoseconds
  pub seconds : ℤ → F
  -- strconv.ParseFloat, with 0 for what is no number
  pub parse : Str → F
  -- whether strconv.ParseFloat finds a number
  pub parses : Str → Bool
