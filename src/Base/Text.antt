-- ===== src/Base/Text.antt =====
-- Go strings as lists of bytes, and the functions of the package `strings` that the program calls.
-- White space and case are those of ASCII, which is what Redis and Sentinel reply in.
use Prim.Native.Nat.{ℕ, suc, ◌+◌}
use Prim.Native.Char.{code}
use Prim.Native.String.{String}
use mathlib.Core.Path.{◌≡◌, refl}
use mathlib.Core.Logic.{◌↔◌}
use mathlib.Core.Bool.{Bool, true, false, ◌&&◌, ◌||◌}
use mathlib.Core.List.{List, [], ◌∷◌, ◌++◌, reverse, map}
use mathlib.Core.Option
use mathlib.Core.Option.{Option, none, some}
use native.Mathlib.Omega.{arith}
use redis_admin.Base.Tests.{leb, ◌==◌, if◌then◌else◌}
use redis_admin.Base.Lists.{length, take, drop}

abbrev pub Str : Type 0
Str = List ℕ

-- The bytes of a literal.
abbrev pub str : String → Str
str String.[] = []
str (String.◌∷◌ c s) = code c ∷ str s

-- s == t
unfoldable pub eq_str : Str → Str → Bool
eq_str [] [] = true
eq_str [] (b ∷ t) = false
eq_str (a ∷ s) [] = false
eq_str (a ∷ s) (b ∷ t) = a == b && eq_str s t

-- s == ""
abbrev pub is_empty : Str → Bool
is_empty [] = true
is_empty (c ∷ s) = false

-- strings.HasPrefix
unfoldable pub has_prefix : Str → Str → Bool
has_prefix s [] = true
has_prefix [] (p ∷ ps) = false
has_prefix (c ∷ s) (p ∷ ps) = c == p && has_prefix s ps

-- strings.Contains
unfoldable pub contains : Str → Str → Bool
unfolding has_prefix
contains [] t = has_prefix [] t
contains (c ∷ s) t = has_prefix (c ∷ s) t || contains s t

-- strings.TrimPrefix
unfoldable pub trim_prefix : Str → Str → Str
unfolding has_prefix
trim_prefix s p = if has_prefix s p then drop (length p) s else s

-- the bytes of \t, \n, \v, \f, \r and the blank
unfoldable pub is_space : ℕ → Bool
is_space c = leb 9 c && leb c 13 || c == 32

unfoldable pub trim_left : Str → Str
unfolding is_space
trim_left [] = []
trim_left (c ∷ s) = if is_space c then trim_left s else c ∷ s

-- strings.TrimSpace
unfoldable pub trim_space : Str → Str
unfolding trim_left
trim_space s = reverse (trim_left (reverse (trim_left s)))

-- one more byte in front of the first piece
abbrev pub push : ℕ → List Str → List Str
push c [] = (c ∷ []) ∷ []
push c (l ∷ ls) = (c ∷ l) ∷ ls

-- strings.Split(s, sep) at a separator of one byte
unfoldable pub split : ℕ → Str → List Str
split sep [] = [] ∷ []
split sep (c ∷ s) = let rest = split sep s in if c == sep then [] ∷ rest else push c rest

-- strings.Split(s, "\r\n")
unfoldable pub split_crlf : Str → List Str
split_crlf [] = [] ∷ []
split_crlf (c ∷ []) = (c ∷ []) ∷ []
split_crlf (c ∷ d ∷ s) = elim (c == 13 && d == 10) [
  | true ↦ [] ∷ split_crlf s
  | false ↦ push c (split_crlf (d ∷ s))
]

-- strings.Fields; the flag says whether the byte before belongs to a field
unfoldable pub fields_from : Bool → Str → List Str
unfolding is_space
fields_from false [] = []
fields_from true [] = [] ∷ []
fields_from inside (c ∷ s) = elim (is_space c) [
  | true ↦ if inside then [] ∷ fields_from false s else fields_from false s
  | false ↦ push c (fields_from true s)
]

unfoldable pub fields : Str → List Str
unfolding fields_from
fields = fields_from false

-- strings.IndexByte; `none` is -1
unfoldable pub index_byte : Str → ℕ → Option ℕ
index_byte [] b = none
index_byte (c ∷ s) b = if c == b then some 0 else Option.map suc (index_byte s b)

abbrev pub push_left : ℕ → Option (Str × Str) → Option (Str × Str)
push_left c none = none
push_left c (some (l, r)) = some (c ∷ l, r)

-- What stands before and after the first byte `b`: strings.Cut, and strings.SplitN(s, b, 2) with
-- two parts.
unfoldable pub cut : ℕ → Str → Option (Str × Str)
cut b [] = none
cut b (c ∷ s) = if c == b then some ([], s) else push_left c (cut b s)

-- strings.ToLower
abbrev pub to_lower : Str → Str
to_lower = map (λ c. if leb b'A' c && leb c b'Z' then c + 32 else c)

-- strings.Join with a separator of one byte
unfoldable pub join_byte : ℕ → List Str → Str
join_byte sep [] = []
join_byte sep (s ∷ []) = s
join_byte sep (s ∷ t ∷ ts) = s ++ sep ∷ join_byte sep (t ∷ ts)

pub eq_str_iff : (s t : Str) → (eq_str s t ≡ true) ↔ (s ≡ t)
unfolding eq_str
eq_str_iff [] [] = (λ h. refl, λ h. refl)
eq_str_iff [] (b ∷ t) = (λ h. cc, λ h. cc)
eq_str_iff (a ∷ s) [] = (λ h. cc, λ h. cc)
eq_str_iff (a ∷ s) (b ∷ t) =
    (λ h. ground (arith, eq_str_iff s t), λ h. ground (arith, eq_str_iff s t))

pub eq_str_refl : (s : Str) → eq_str s s ≡ true
eq_str_refl s = (eq_str_iff s s).1 refl

-- `cut` is the slicing at `index_byte` that the source writes out.
pub cut-index_byte :
    (b : ℕ) (s : Str) → cut b s ≡ Option.map (λ i. (take i s, drop (suc i) s)) (index_byte s b)
unfolding cut index_byte
cut-index_byte b [] = refl
cut-index_byte b (c ∷ s) = ground (arith, cut-index_byte b s)
