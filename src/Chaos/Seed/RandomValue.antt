-- ===== src/Chaos/Seed/RandomValue.antt =====
-- internal/chaos/seeder.go: randomValue. The bytes of crypto/rand are a parameter.
use redis_admin.Base.{
  ℕ, ◌+◌, ◌-◌, ◌*◌, ◌/◌, ◌%◌, ◌≤◌, ◌<◌, ◌≡◌, refl, ◌⊎◌, inl, inr, List, [], ◌∷◌, arith, Str, ℤ, pos,
  pos_part, lt_int, length, take, All, All-take, length-take, ltb, if◌then◌else◌, Bool-cases,
}

-- a digit of hex.EncodeToString
abbrev hex_digit : ℕ → ℕ
hex_digit n = if ltb n 10 then b'0' + n else b'a' + (n - 10)

unfoldable pub hex : List ℕ → Str
hex [] = []
hex (b ∷ bs) = hex_digit (b / 16) ∷ hex_digit (b % 16) ∷ hex bs

-- `if size <= 0 { size = 16 }`
abbrev pub size_of : ℤ → ℕ
size_of size = if lt_int (pos 0) size then pos_part size else 16

-- randomValue, where `bytes n` is what rand.Read fills a buffer of `n` bytes with
unfoldable pub random_value : (ℕ → List ℕ) → ℤ → Str
unfolding hex
random_value bytes size = take (size_of size) (hex (bytes ((size_of size + 1) / 2)))

-- 0 to 9 and a to f
abbrev pub IsHexDigit : ℕ → Type 0
IsHexDigit c = ((b'0' ≤ c) × (c ≤ b'9')) ⊎ ((b'a' ≤ c) × (c ≤ b'f'))

hex_digit-IsHexDigit : (n : ℕ) → n < 16 → IsHexDigit (hex_digit n)
hex_digit-IsHexDigit n h = elim (Bool-cases (ltb n 10)) [
  | inl e ↦ rw e (inl (omega arith, ground arith))
  | inr e ↦ rw e (inr (omega arith, omega arith))
]

length-hex : (bs : List ℕ) → length (hex bs) ≡ 2 * length bs
unfolding hex
length-hex [] = refl
length-hex (b ∷ bs) = omega (arith, length-hex bs)

hex-IsHexDigit : (bs : List ℕ) → All (λ b. b < 256) bs → All IsHexDigit (hex bs)
unfolding hex
hex-IsHexDigit [] h = tt
hex-IsHexDigit (b ∷ bs) h = (
  hex_digit-IsHexDigit (b / 16) (omega (arith, h.0)),
  (hex_digit-IsHexDigit (b % 16) (omega arith), hex-IsHexDigit bs h.1),
)

-- Where the random source fills the whole buffer with bytes, a value has the size that was asked for, 16
-- where that is not positive, and is written in the digits 0 to 9 and a to f.
pub random_value_lem :
    (bytes : ℕ → List ℕ) (size : ℤ)
    → ((n : ℕ) → length (bytes n) ≡ n)
    → ((n : ℕ) → All (λ b. b < 256) (bytes n))
    → (length (random_value bytes size) ≡ size_of size) × All IsHexDigit (random_value bytes size)
unfolding random_value
random_value_lem bytes size full in_range =
    let n = size_of size in
    let drawn = bytes ((n + 1) / 2) in
    (
      omega (arith, length-take n (hex drawn), length-hex drawn, full ((n + 1) / 2)),
      All-take IsHexDigit n (hex drawn) (hex-IsHexDigit drawn (in_range ((n + 1) / 2))),
    )
