-- ===== src/Chaos/Seed.antt =====
-- internal/chaos/seeder.go: Seed, which writes keys in batches. The pipeline of the client library,
-- the random values and the context are parameters: `exec n` is the error of the batch `n`, without
-- redis.Nil, `value i` is the value of the key `i`, and `ctx i` the error of the context before it.
pub mod Batches
pub mod RandomValue
pub mod Fresh
use redis_admin.Base.{
  ℕ, zero, suc, ◌+◌, ◌/◌, ◌%◌, ◌*◌, ◌-◌, wrap64, Bool, true, false, Option, none, some, List, [],
  ◌∷◌, ◌++◌, Str, str, is_empty, eq_str, ℤ, pos, negsuc, lt_int, length, ltb, ◌==◌, if◌then◌else◌,
}
use redis_admin.Errors.{Err, wrap}

-- the commands in the pipeline; a duration is in nanoseconds
pub data Command : Type 0 where
  set_key hash_set list_push set_add : Str → Str → Command
  sorted_add : Str → ℕ → Str → Command
  expire : Str → ℤ → Command

-- the arguments, after the defaults
pub record SeedSpec : Type 0 where
  pub prefix : Str
  pub count : ℕ
  pub value_size : ℕ
  pub key_type : Str
  pub ttl_sec : ℤ

abbrev pub or_default : Str → Str → Str
or_default s d = if is_empty s then d else s

abbrev pub positive_or : ℤ → ℕ → ℕ
positive_or (pos zero) d = d
positive_or (pos (suc n)) d = suc n
positive_or (negsuc n) d = d

unfoldable pub with_defaults : Str → ℤ → ℤ → Str → ℤ → SeedSpec
with_defaults prefix count value_size key_type ttl_sec = record {
  prefix = or_default prefix (str "test:");
  count = positive_or count 100;
  value_size = positive_or value_size 64;
  key_type = or_default key_type (str "string");
  ttl_sec = ttl_sec;
}

-- seedPipelineBatch
abbrev pub seed_pipeline_batch : ℕ
seed_pipeline_batch = 100

-- the decimal digits of a number, with fuel for one more than it has
abbrev pub digits : ℕ → ℕ → Str
digits zero n = []
digits (suc fuel) n =
    let rest = digits fuel (n / 10) in (if ltb n 10 then [] else rest) ++ (48 + n % 10) ∷ []

abbrev pub key_at : SeedSpec → ℕ → Str
key_at spec i = spec.prefix ++ digits 20 i

unfoldable pub write_command : SeedSpec → (ℕ → Str) → ℕ → Command
unfolding eq_str
write_command spec value i =
    if eq_str spec.key_type (str "hash")
    then hash_set (key_at spec i) (value i)
    else if eq_str spec.key_type (str "list")
    then list_push (key_at spec i) (value i)
    else if eq_str spec.key_type (str "set")
    then set_add (key_at spec i) (value i)
    else if eq_str spec.key_type (str "zset")
    then sorted_add (key_at spec i) i (value i)
    else set_key (key_at spec i) (value i)

-- time.Duration(ttlSec) * time.Second, which wraps around
unfoldable pub duration_of : ℤ → ℤ
unfolding wrap64
duration_of (pos n) = wrap64 (pos (n * 1000000000))
duration_of (negsuc n) = wrap64 (negsuc ((n + 1) * 1000000000 - 1))

-- the commands of one key
unfoldable pub commands : SeedSpec → (ℕ → Str) → ℕ → List Command
unfolding write_command duration_of
commands spec value i =
    write_command spec value i
    ∷ (if lt_int (pos 0) spec.ttl_sec
        then expire (key_at spec i) (duration_of spec.ttl_sec) ∷ []
        else [])

-- what the call did: the batches that were executed, the error, and the number of the keys
pub record Seeded : Type 0 where
  pub sent : List (List Command)
  pub error : Option Err
  pub created : ℕ

abbrev at_end : List (List Command) → List Command → ℕ → Option Err → Seeded
at_end sent pipe created (some e) = record {
  sent = sent ++ pipe ∷ [];
  error = some (wrap (str "pipeline exec") e);
  created = 0;
}
at_end sent pipe created none = record { sent = sent ++ pipe ∷ []; error = none; created = created }

-- a batch in the loop: its error ends the call
abbrev or_stop : List (List Command) → List Command → Option Err → Seeded → Seeded
or_stop sent pipe (some e) rest = record {
  sent = sent ++ pipe ∷ [];
  error = some (wrap (str "pipeline exec") e);
  created = 0;
}
or_stop sent pipe none rest = rest

-- the loop breaks where the context is cancelled
abbrev unless_cancelled : Option Err → Seeded → Seeded → Seeded
unless_cancelled (some e) stopped rest = stopped
unless_cancelled none stopped rest = rest

module _ (spec : SeedSpec) (value : ℕ → Str) (ctx : ℕ → Option Err)
    (exec : ℕ → List Command → Option Err) where
  -- the keys from `i` on, so many, with the pipeline and the batches before
  unfoldable pub seed_from : ℕ → ℕ → List Command → List (List Command) → Seeded
  unfolding commands
  seed_from zero i pipe sent = at_end sent pipe i (exec (length sent) pipe)
  seed_from (suc n) i pipe sent =
      let grown = pipe ++ commands spec value i in
      let flushed = seed_from n (suc i) [] (sent ++ grown ∷ []) in
      let unflushed = seed_from n (suc i) grown sent in
      unless_cancelled (ctx i) (at_end sent pipe i (exec (length sent) pipe)) (
        if suc i % seed_pipeline_batch == 0
        then or_stop sent grown (exec (length sent) grown) flushed
        else unflushed)

  -- Seed
  unfoldable pub seed : Seeded
  unfolding seed_from
  seed = seed_from spec.count 0 [] []
