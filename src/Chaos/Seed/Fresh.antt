-- ===== src/Chaos/Seed/Fresh.antt =====
-- What a call of Seed writes, with its defaults and the values of randomValue.
use mathlib.Core.Path.{subst}
use redis_admin.Base.{
  ◌≤◌, if◌then◌else◌, true, false, wrap64, eq_str, eq_str_iff, str, lt_int, pos_part, ◌≢◌, zero,
  suc, ℕ, ◌+◌, ◌-◌, ◌*◌, ◌/◌, ◌%◌, ◌^◌, ◌<◌, ◌≡◌, refl, ap, sym, ◌∙◌, inl, inr, Option, none, List,
  [], ◌∷◌, ◌++◌, arith, Str, ℤ, pos, negsuc, length, ltb, All, decimal, Bool-cases,
}
use redis_admin.Errors.{Err}
use redis_admin.Chaos.Seed.{
  Command, hash_set, list_push, set_add, sorted_add, set_key, expire, commands, write_command,
  duration_of, Seeded, SeedSpec, positive_or, or_default, with_defaults, digits, key_at, seed,
}
use redis_admin.Chaos.Seed.Batches.{Complete, commands_from, seed-Complete}
use redis_admin.Chaos.Seed.RandomValue.{size_of, random_value, IsHexDigit, random_value_lem}

decimal-append : (acc : ℕ) (s t : Str) → decimal acc (s ++ t) ≡ decimal (decimal acc s) t
decimal-append acc [] t = refl
decimal-append acc (c ∷ s) t = decimal-append (acc * 10 + (c - b'0')) s t

-- the digits spell the number
decimal-digits : (fuel n : ℕ) → n < 10 ^ fuel → decimal 0 (digits fuel n) ≡ n
decimal-digits zero n h = omega arith
decimal-digits (suc fuel) n h = elim (Bool-cases (ltb n 10)) [
  | inl one ↦ rw one (ground arith)
  | inr more ↦ rw more (
      decimal-append 0 (digits fuel (n / 10)) ((48 + n % 10) ∷ [])
      ∙ ap (λ d. d * 10 + (48 + n % 10 - 48)) (decimal-digits fuel (n / 10) (omega arith))
      ∙ omega arith)
]

append-left : (p s t : Str) → p ++ s ≡ p ++ t → s ≡ t
append-left [] s t h = h
append-left (c ∷ p) s t h = append-left p s t (cc h)

-- No two keys of a call are the same.
key_at-injective :
    (spec : SeedSpec) (i j : ℕ) → i < 2 ^ 63 → j < 2 ^ 63 → key_at spec i ≡ key_at spec j → i ≡ j
key_at-injective spec i j hi hj e =
    sym (decimal-digits 20 i (omega arith))
    ∙ ap (decimal 0) (append-left spec.prefix (digits 20 i) (digits 20 j) e)
    ∙ decimal-digits 20 j (omega arith)

size-positive_or : (v : ℤ) → size_of (pos (positive_or v 64)) ≡ positive_or v 64
size-positive_or (pos zero) = refl
size-positive_or (pos (suc n)) = ground arith
size-positive_or (negsuc n) = refl

-- The values that the keys of a call are given: randomValue of the size of the call, where `drawn i`
-- is what the random source fills the buffer for the key `i` with.
abbrev pub values : SeedSpec → (ℕ → ℕ → List ℕ) → ℕ → Str
values spec drawn i = random_value (drawn i) (pos spec.value_size)

-- an argument, or the default where it is not positive
abbrev pub asked : ℤ → ℕ → ℕ
asked v d = if lt_int (pos 0) v then pos_part v else d

-- an argument, or the default where it is empty
abbrev pub given : Str → Str → Str
given [] d = d
given (c ∷ s) d = c ∷ s

positive_or-asked : (v : ℤ) (d : ℕ) → positive_or v d ≡ asked v d
positive_or-asked (pos zero) d = refl
positive_or-asked (pos (suc n)) d = ground arith
positive_or-asked (negsuc n) d = ground arith

or_default-given : (s d : Str) → or_default s d ≡ given s d
or_default-given [] d = refl
or_default-given (c ∷ s) d = refl

-- Seed with its arguments, where the value of each key is what randomValue draws
unfoldable pub seed_values :
    Str
    → ℤ
    → ℤ
    → Str
    → ℤ
    → (ℕ → ℕ → List ℕ)
    → (ℕ → Option Err)
    → (ℕ → List Command → Option Err)
    → Seeded
unfolding with_defaults seed
seed_values prefix count value_size key_type ttl_sec drawn ctx exec =
    let spec = with_defaults prefix count value_size key_type ttl_sec in
    seed spec (values spec drawn) ctx exec

-- the command that writes a key, by the type that was asked for
pub data Writes (key_type key value : Str) (i : ℕ) (c : Command) : Type 0 where
  as_hash : key_type ≡ str "hash" → c ≡ hash_set key value → Writes key_type key value i c
  as_list : key_type ≡ str "list" → c ≡ list_push key value → Writes key_type key value i c
  as_set : key_type ≡ str "set" → c ≡ set_add key value → Writes key_type key value i c
  as_zset : key_type ≡ str "zset" → c ≡ sorted_add key i value → Writes key_type key value i c
  as_string :
      key_type ≢ str "hash"
      → key_type ≢ str "list"
      → key_type ≢ str "set"
      → key_type ≢ str "zset"
      → c ≡ set_key key value
      → Writes key_type key value i c

-- all commands of a key: it expires after so many seconds, in nanoseconds as int64, where these are positive
pub data Seeds (key_type key value : Str) (i : ℕ) (ttl_sec : ℤ) (cs : List Command) : Type 0 where
  lasting :
      (c : Command)
      → Writes key_type key value i c
      → lt_int (pos 0) ttl_sec ≡ false
      → cs ≡ c ∷ []
      → Seeds key_type key value i ttl_sec cs
  expiring :
      (c : Command) (n : ℕ)
      → Writes key_type key value i c
      → ttl_sec ≡ pos n
      → 1 ≤ n
      → cs ≡ c ∷ expire key (wrap64 (pos (n * 1000000000))) ∷ []
      → Seeds key_type key value i ttl_sec cs

-- the commands of the keys from `i` on, so many
abbrev pub one_by_one : (ℕ → List Command) → ℕ → ℕ → List Command
one_by_one cs i zero = []
one_by_one cs i (suc n) = cs i ++ one_by_one cs (suc i) n

commands_from-one_by_one :
    (spec : SeedSpec) (value : ℕ → Str) (i n : ℕ)
    → commands_from spec value i n ≡ one_by_one (commands spec value) i n
unfolding commands_from
commands_from-one_by_one spec value i zero = refl
commands_from-one_by_one spec value i (suc n) =
    ap (λ l. commands spec value i ++ l) (commands_from-one_by_one spec value (suc i) n)

differs : (s t : Str) → eq_str s t ≡ false → s ≢ t
differs s t h e = let k : eq_str s t ≡ true = (eq_str_iff s t).1 e in cc (h, k)

write_command-Writes :
    (spec : SeedSpec) (value : ℕ → Str) (i : ℕ)
    → Writes spec.key_type (key_at spec i) (value i) i (write_command spec value i)
unfolding write_command
write_command-Writes spec value i = elim (Bool-cases (eq_str spec.key_type (str "hash"))) [
  | inl h ↦ as_hash ((eq_str_iff spec.key_type (str "hash")).0 h) (rw h refl)
  | inr h ↦ elim (Bool-cases (eq_str spec.key_type (str "list"))) [
    | inl l ↦ as_list ((eq_str_iff spec.key_type (str "list")).0 l) (rw (h, l) refl)
    | inr l ↦ elim (Bool-cases (eq_str spec.key_type (str "set"))) [
      | inl s ↦ as_set ((eq_str_iff spec.key_type (str "set")).0 s) (rw (h, l, s) refl)
      | inr s ↦ elim (Bool-cases (eq_str spec.key_type (str "zset"))) [
        | inl z ↦ as_zset ((eq_str_iff spec.key_type (str "zset")).0 z) (rw (h, l, s, z) refl)
        | inr z ↦
            as_string (differs spec.key_type (str "hash") h) (differs spec.key_type (str "list") l)
              (differs spec.key_type (str "set") s) (differs spec.key_type (str "zset") z)
              (rw (h, l, s, z) refl)
      ]
    ]
  ]
]

commands-Seeds :
    (spec : SeedSpec) (value : ℕ → Str) (i : ℕ)
    → Seeds spec.key_type (key_at spec i) (value i) i spec.ttl_sec (commands spec value i)
unfolding commands duration_of
commands-Seeds spec value i = go spec.ttl_sec
  where
    w : Writes spec.key_type (key_at spec i) (value i) i (write_command spec value i)
    w = write_command-Writes spec value i

    go :
        (t : ℤ)
        → Seeds spec.key_type (key_at spec i) (value i) i t (
            write_command spec value i
            ∷ (if lt_int (pos 0) t then expire (key_at spec i) (duration_of t) ∷ [] else []))
    go (pos zero) = lasting (write_command spec value i) w refl refl
    go (pos (suc n)) =
        expiring (write_command spec value i) (suc n) w refl (omega arith)
          (let always : lt_int (pos 0) (pos (suc n)) ≡ true = ground arith in rw always refl)
    go (negsuc n) =
        let never : lt_int (pos 0) (negsuc n) ≡ false = ground arith in
        lasting (write_command spec value i) w never (rw never refl)

-- Where the context is not cancelled, no batch fails and the random source fills its buffers with bytes,
-- Seed creates as many keys as it was asked for, 100 where it was asked for none, below 2^63. Its batches
-- are, one after the other, the commands of one key after the other: the one that writes the value of the
-- key by the type that was asked for, a string where that is not known, and EXPIRE with the seconds that
-- were asked for where these are positive, as an int64 of nanoseconds. A key is the prefix, "test:" where
-- it is empty, and its number; no two are the same. Each value has the size that was asked for, 64 where
-- that is not positive, in hexadecimal digits.
pub seed_lem :
    (prefix : Str) (count value_size : ℤ) (key_type : Str) (ttl_sec : ℤ) (drawn : ℕ → ℕ → List ℕ)
    (ctx : ℕ → Option Err) (exec : ℕ → List Command → Option Err)
    → ((i : ℕ) → ctx i ≡ none)
    → ((n : ℕ) (b : List Command) → exec n b ≡ none)
    → ((i n : ℕ) → length (drawn i n) ≡ n)
    → ((i n : ℕ) → All (λ b. b < 256) (drawn i n))
    → asked count 100 < 2 ^ 63
    → (key : ℕ → Str) × (value : ℕ → Str) × (cs : ℕ → List Command) × Complete
        (one_by_one cs 0 (asked count 100))
        (asked count 100)
        (seed_values prefix count value_size key_type ttl_sec drawn ctx exec)
      × ((i : ℕ) → Seeds (given key_type (str "string")) (key i) (value i) i ttl_sec (cs i))
      × ((i : ℕ)
          → i < asked count 100
          → (d : Str) × (key i ≡ given prefix (str "test:") ++ d) × (decimal 0 d ≡ i))
      × ((i j : ℕ) → i < asked count 100 → j < asked count 100 → key i ≡ key j → i ≡ j)
      × ((i : ℕ) → (length (value i) ≡ asked value_size 64) × All IsHexDigit (value i))
unfolding with_defaults seed_values
seed_lem prefix count value_size key_type ttl_sec drawn ctx exec running works full in_range fits =
    let spec = with_defaults prefix count value_size key_type ttl_sec in
    (
      key_at spec,
      values spec drawn,
      commands spec (values spec drawn),
      subst
          (λ n.
            Complete (one_by_one (commands spec (values spec drawn)) 0 n) n
              (seed spec (values spec drawn) ctx exec))
          (positive_or-asked count 100)
          (subst (λ l. Complete l (positive_or count 100) (seed spec (values spec drawn) ctx exec))
            (commands_from-one_by_one spec (values spec drawn) 0 (positive_or count 100))
            (seed-Complete spec (values spec drawn) ctx exec running works)),
      λ i.
          subst
            (λ t.
              Seeds t (key_at spec i) (values spec drawn i) i ttl_sec
                (commands spec (values spec drawn) i))
            (or_default-given key_type (str "string")) (commands-Seeds spec (values spec drawn) i),
      λ i hi. (
        digits 20 i,
        ap (λ p. p ++ digits 20 i) (or_default-given prefix (str "test:")),
        decimal-digits 20 i (omega arith),
      ),
      λ i j hi hj. key_at-injective spec i j (omega arith) (omega arith),
      λ i.
          let value = random_value_lem (drawn i) (pos spec.value_size) (full i) (in_range i) in
          (value.0 ∙ size-positive_or value_size ∙ positive_or-asked value_size 64, value.1),
    )
