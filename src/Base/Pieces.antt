-- ===== src/Base/Pieces.antt =====
-- Texts that are put together from pieces, and the functions that take them apart.
use Prim.Native.Nat.{ℕ}
use mathlib.Core.Path.{◌≡◌, refl}
use mathlib.Core.Bool.{Bool, true, ◌&&◌, not}
use mathlib.Core.Option.{some}
use mathlib.Core.List.{[], ◌∷◌, ◌++◌}
use native.Mathlib.Omega.{arith}
use redis_admin.Base.Tests.{◌==◌}
use redis_admin.Base.Text.{Str, split, split_crlf, cut}

-- the byte does not occur
abbrev pub lacks : ℕ → Str → Bool
lacks b [] = true
lacks b (c ∷ s) = not (c == b) && lacks b s

pub lacks-append :
    (b : ℕ) (s t : Str) → lacks b s ≡ true → lacks b t ≡ true → lacks b (s ++ t) ≡ true
lacks-append b [] t h k = k
lacks-append b (c ∷ s) t h k = ground (arith, lacks-append b s t)

pub cut-append : (b : ℕ) (k v : Str) → lacks b k ≡ true → cut b (k ++ b ∷ v) ≡ some (k, v)
unfolding cut
cut-append b [] v h = ground arith
cut-append b (c ∷ k) v h = ground (arith, cut-append b k v)

pub split-append : (b : ℕ) (k v : Str) → lacks b k ≡ true → split b (k ++ b ∷ v) ≡ k ∷ split b v
unfolding split
split-append b [] v h = ground arith
split-append b (c ∷ k) v h = ground (arith, split-append b k v)

pub split_crlf-append :
    (l rest : Str) → lacks 13 l ≡ true → split_crlf (l ++ 13 ∷ 10 ∷ rest) ≡ l ∷ split_crlf rest
unfolding split_crlf
split_crlf-append [] rest h = refl
split_crlf-append (c ∷ []) rest h = ground arith
split_crlf-append (c ∷ d ∷ l) rest h = ground (arith, split_crlf-append (d ∷ l) rest)
