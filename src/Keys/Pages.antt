-- ===== src/Keys/Pages.antt =====
-- The pages that SCAN gives from a cursor on, until the cursor that comes back is 0.
use redis_admin.Base.{ℕ, ◌≡◌, false, List, [], ◌∷◌, ◌==◌, Str}
use redis_admin.Errors.{Result, ok}

pub data PageRun (scan : ℕ → Result (List Str × ℕ)) : ℕ → List (List Str) → Type 0 where
  last_page :
      {cursor : ℕ} {keys : List Str} → scan cursor ≡ ok (keys, 0) → PageRun scan cursor (keys ∷ [])
  one_more :
      {cursor : ℕ} {keys : List Str} {next : ℕ} {rest : List (List Str)}
      → scan cursor ≡ ok (keys, next)
      → (next == 0) ≡ false
      → PageRun scan next rest
      → PageRun scan cursor (keys ∷ rest)
