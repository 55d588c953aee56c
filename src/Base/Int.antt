-- ===== src/Base/Int.antt =====
-- Go's int64: integers, with the wrap-around of the arithmetic, and `strconv.ParseInt`.
use redis_admin.Base.Tests.{ltb, leb, ◌==◌, if◌then◌else◌}
use redis_admin.Base.Text.{Str, str}
use Prim.Native.Nat.{ℕ, suc, ◌+◌, ◌-◌, ◌*◌, ◌%◌, ◌^◌, ◌≤◌, ◌<◌}
use mathlib.Core.Path.{◌≡◌, refl}
use mathlib.Core.Bool.{Bool, true, false, ◌&&◌}
use mathlib.Core.Option.{Option, none, some}
use mathlib.Core.List.{[], ◌∷◌}
use native.Mathlib.Omega.{arith}

-- `negsuc n` is -(n + 1).
pub data ℤ : Type 0 where
  pos : ℕ → ℤ
  negsuc : ℕ → ℤ

abbrev pub pos_part : ℤ → ℕ
pos_part (pos n) = n
pos_part (negsuc n) = 0

abbrev pub neg_part : ℤ → ℕ
neg_part (pos n) = 0
neg_part (negsuc n) = suc n

-- a - b, as an integer
abbrev pub sub_ℕ : ℕ → ℕ → ℤ
sub_ℕ a b = if leb b a then pos (a - b) else negsuc (b - a - 1)

-- a < b
abbrev pub lt_int : ℤ → ℤ → Bool
lt_int a b = ltb (pos_part a + neg_part b) (pos_part b + neg_part a)

-- the bit pattern of the integer modulo 2^64, and the int64 that a bit pattern stands for
abbrev pub bits64 : ℤ → ℕ
bits64 (pos n) = n % 2 ^ 64
bits64 (negsuc n) = 2 ^ 64 - 1 - n % 2 ^ 64

abbrev pub of_bits64 : ℕ → ℤ
of_bits64 n = if ltb n (2 ^ 63) then pos n else negsuc (2 ^ 64 - 1 - n)

unfoldable pub wrap64 : ℤ → ℤ
wrap64 a = of_bits64 (bits64 a)

unfoldable pub add64 : ℤ → ℤ → ℤ
unfolding wrap64
add64 a b = wrap64 (sub_ℕ (pos_part a + pos_part b) (neg_part a + neg_part b))

unfoldable pub sub64 : ℤ → ℤ → ℤ
unfolding wrap64
sub64 a b = wrap64 (sub_ℕ (pos_part a + neg_part b) (neg_part a + pos_part b))

-- the values of int64
abbrev pub IsInt64 : ℤ → Type 0
IsInt64 a = (pos_part a < 2 ^ 63) × (neg_part a ≤ 2 ^ 63)

pub wrap64_in_range : (a : ℤ) → IsInt64 a → wrap64 a ≡ a
unfolding wrap64
wrap64_in_range (pos n) h = ground arith
wrap64_in_range (negsuc n) h = ground arith

pub add64-pos : (a b : ℕ) → a + b < 2 ^ 63 → add64 (pos a) (pos b) ≡ pos (a + b)
unfolding add64 wrap64
add64-pos a b h = ground arith

pub wrap64-IsInt64 : (a : ℤ) → IsInt64 (wrap64 a)
unfolding wrap64
wrap64-IsInt64 (pos n) = ground arith
wrap64-IsInt64 (negsuc n) = ground arith

-- the errors of strconv
pub data NumErr : Type 0 where
  syntax out_of_range : NumErr

pub data Digits : Type 0 where
  value : ℕ → Digits
  failed : NumErr → Digits

-- The loop of strconv.ParseUint in base 10; the first error that it meets is the one it returns.
uint_from : ℕ → Str → Digits
uint_from acc [] = value acc
uint_from acc (c ∷ s) =
    let next = acc * 10 + (c - b'0') in
    let rest = uint_from next s in
    if leb b'0' c && leb c b'9'
    then if ltb next (2 ^ 64) then rest else failed out_of_range
    else failed syntax

parse_uint : Str → Digits
unfolding uint_from
parse_uint [] = failed syntax
parse_uint (c ∷ s) = uint_from 0 (c ∷ s)

-- The value is clamped where it is out of range, and 0 where the text is no number.
signed : Bool → Digits → ℤ × Option NumErr
signed false (value n) =
    if ltb n (2 ^ 63) then (pos n, none) else (pos (2 ^ 63 - 1), some out_of_range)
signed true (value n) =
    if leb n (2 ^ 63) then (sub_ℕ 0 n, none) else (negsuc (2 ^ 63 - 1), some out_of_range)
signed false (failed out_of_range) = (pos (2 ^ 63 - 1), some out_of_range)
signed true (failed out_of_range) = (negsuc (2 ^ 63 - 1), some out_of_range)
signed neg (failed syntax) = (pos 0, some syntax)

-- strconv.ParseInt(s, 10, 64)
unfoldable pub parse_int : Str → ℤ × Option NumErr
unfolding parse_uint signed
parse_int [] = (pos 0, some syntax)
parse_int (c ∷ s) =
    if c == b'-'
    then signed true (parse_uint s)
    else if c == b'+'
    then signed false (parse_uint s)
    else signed false (parse_uint (c ∷ s))

signed-IsInt64 : (neg : Bool) (d : Digits) → IsInt64 (signed neg d).0
unfolding signed
signed-IsInt64 false (value n) = ground arith
signed-IsInt64 true (value n) = ground arith
signed-IsInt64 false (failed out_of_range) = omega arith
signed-IsInt64 true (failed out_of_range) = omega arith
signed-IsInt64 false (failed syntax) = omega arith
signed-IsInt64 true (failed syntax) = omega arith

-- Whatever the text, the value is an int64.
pub parse_int-IsInt64 : (s : Str) → IsInt64 (parse_int s).0
unfolding parse_int
parse_int-IsInt64 [] = omega arith
parse_int-IsInt64 (c ∷ s) = ground (
  arith,
  signed-IsInt64 true (parse_uint s),
  signed-IsInt64 false (parse_uint s),
  signed-IsInt64 false (parse_uint (c ∷ s)),
)

-- the number that digits spell behind `acc`, with no bound
abbrev pub decimal : ℕ → Str → ℕ
decimal acc [] = acc
decimal acc (c ∷ s) = decimal (acc * 10 + (c - b'0')) s

abbrev pub digits : Str → Bool
digits [] = true
digits (c ∷ s) = leb b'0' c && leb c b'9' && digits s

-- one digit or more
abbrev pub is_numeral : Str → Bool
is_numeral [] = false
is_numeral (c ∷ s) = digits (c ∷ s)

le-decimal : (acc : ℕ) (s : Str) → acc ≤ decimal acc s
le-decimal acc [] = omega arith
le-decimal acc (c ∷ s) = omega (arith, le-decimal (acc * 10 + (c - b'0')) s)

uint_from-digits :
    (acc : ℕ) (s : Str)
    → digits s ≡ true
    → decimal acc s < 2 ^ 64
    → uint_from acc s ≡ value (decimal acc s)
unfolding uint_from
uint_from-digits acc [] h fits = refl
uint_from-digits acc (c ∷ s) h fits =
    let next = acc * 10 + (c - b'0') in ground (arith, uint_from-digits next s, le-decimal next s)

-- A numeral is read as the number that it spells, where an int64 holds it.
pub parse_int-numeral :
    (s : Str) → is_numeral s ≡ true → decimal 0 s < 2 ^ 63 → parse_int s ≡ (pos (decimal 0 s), none)
unfolding parse_int parse_uint signed
parse_int-numeral [] h fits = cc
parse_int-numeral (c ∷ s) h fits = ground (arith, uint_from-digits 0 (c ∷ s))

parse_int_sample : (parse_int (str "-42")).0 ≡ negsuc 41
unfolding parse_int
parse_int_sample = refl
