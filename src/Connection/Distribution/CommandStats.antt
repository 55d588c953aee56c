-- ===== src/Connection/Distribution/CommandStats.antt =====
-- What fetchCommandDist counts in a reply of INFO commandstats in the documented format.
use redis_admin.Base.{
  ℕ, ◌+◌, ◌<◌, ◌^◌, ◌≡◌, refl, ap, ◌∙◌, Bool, true, false, if◌then◌else◌, none, some, List, [], ◌∷◌,
  ◌++◌, arith, Str, str, split_crlf, lacks, lacks-append, cut-append, split-append,
  split_crlf-append, ℤ, pos, decimal, is_numeral, parse_int-numeral, All, digits, has_prefix,
  trim_prefix, add64-pos, ◌==◌,
}
use mathlib.Core.Path.{ap₂}
use redis_admin.Errors.{ok}
use redis_admin.Redis.{Redis}
use redis_admin.Float.{Float64}
use redis_admin.Connection.Distribution.{
  ReplicaDistribution, calls_of, extract_calls, is_zero, named_calls, command_calls,
  is_read_command, add_calls, count_calls, distribution, fetch_command_dist,
}

-- a command with the digits of its calls and what follows them
pub record Stat : Type 0 where
  pub command : Str
  pub calls : Str
  pub others : Str

pub record IsStat (s : Stat) : Type 0 where
  pub no_colon : lacks b':' s.command ≡ true
  pub one_line : lacks 13 s.command ≡ true
  pub number : is_numeral s.calls ≡ true
  pub fits : decimal 0 s.calls < 2 ^ 63
  pub one_line_others : lacks 13 s.others ≡ true

-- "cmdstat_<command>:calls=<calls>,<others>"
abbrev pub stat_line : Stat → Str
stat_line s = (str "cmdstat_" ++ s.command) ++ b':' ∷ ((str "calls=" ++ s.calls) ++ b',' ∷ s.others)

abbrev stat_lines : List Stat → Str
stat_lines [] = []
stat_lines (s ∷ ss) = stat_line s ++ 13 ∷ 10 ∷ stat_lines ss

-- the reply: the title of the section, and a line for each command
abbrev pub render_stats : List Stat → Str
render_stats ss = str "# Commandstats" ++ 13 ∷ 10 ∷ stat_lines ss

-- the calls of all reading commands, or of all others
abbrev pub calls_by : Bool → List Stat → ℕ
calls_by true [] = 0
calls_by false [] = 0
calls_by true (s ∷ ss) =
    (if is_read_command s.command then decimal 0 s.calls else 0) + calls_by true ss
calls_by false (s ∷ ss) =
    (if is_read_command s.command then 0 else decimal 0 s.calls) + calls_by false ss

-- the reads and the writes
abbrev counted : List Stat → ℤ × ℤ
counted ss = (pos (calls_by true ss), pos (calls_by false ss))

digits-lacks : (b : ℕ) (s : Str) → b < b'0' → digits s ≡ true → lacks b s ≡ true
digits-lacks b [] lt h = refl
digits-lacks b (c ∷ s) lt h = ground (arith, digits-lacks b s lt)

numeral-lacks : (b : ℕ) (s : Str) → b < b'0' → is_numeral s ≡ true → lacks b s ≡ true
numeral-lacks b [] lt h = refl
numeral-lacks b (c ∷ s) lt h = digits-lacks b (c ∷ s) lt h

extract_calls-stat :
    (s : Stat)
    → IsStat s
    → extract_calls ((str "calls=" ++ s.calls) ++ b',' ∷ s.others) ≡ pos (decimal 0 s.calls)
unfolding extract_calls has_prefix trim_prefix
extract_calls-stat s w =
    ap calls_of (
      split-append b',' (str "calls=" ++ s.calls) s.others (
        lacks-append b',' (str "calls=") s.calls refl
          (numeral-lacks b',' s.calls (omega arith) w.number)))
    ∙ ap (λ p. p.0) (parse_int-numeral s.calls w.number w.fits)

-- what a line adds to the counts
command_calls-stat :
    (s : Stat)
    → IsStat s
    → command_calls (stat_line s)
      ≡ (if decimal 0 s.calls == 0 then none else some (s.command, pos (decimal 0 s.calls)))
unfolding command_calls has_prefix trim_prefix
command_calls-stat s w =
    ap named_calls (
      cut-append b':' (str "cmdstat_" ++ s.command) ((str "calls=" ++ s.calls) ++ b',' ∷ s.others)
        w.no_colon)
    ∙ ap (λ n. if is_zero n then none else some (s.command, n)) (extract_calls-stat s w)

split_calls : (r : Bool) (n : ℕ) → (if r then n else 0) + (if r then 0 else n) ≡ n
split_calls true n = omega arith
split_calls false n = omega arith

add_calls-counted :
    (command : Str) (n a b : ℕ)
    → a + b + n < 2 ^ 63
    → add_calls (pos a, pos b) (if n == 0 then none else some (command, pos n)) ≡ (
      pos (a + (if is_read_command command then n else 0)),
      pos (b + (if is_read_command command then 0 else n)),
    )
add_calls-counted command n a b h = ground (arith, add64-pos a n, add64-pos b n)

stat_line-lacks : (s : Stat) → IsStat s → lacks 13 (stat_line s) ≡ true
stat_line-lacks s w =
    lacks-append 13 (str "cmdstat_" ++ s.command)
      (b':' ∷ ((str "calls=" ++ s.calls) ++ b',' ∷ s.others))
      (lacks-append 13 (str "cmdstat_") s.command refl w.one_line)
      (lacks-append 13 (str "calls=" ++ s.calls) (b',' ∷ s.others)
        (lacks-append 13 (str "calls=") s.calls refl
          (numeral-lacks 13 s.calls (omega arith) w.number))
        w.one_line_others)

count_calls-stats :
    (ss : List Stat) (a b : ℕ)
    → All IsStat ss
    → a + b + calls_by true ss + calls_by false ss < 2 ^ 63
    → count_calls (pos a, pos b) (split_crlf (stat_lines ss))
      ≡ (pos (a + calls_by true ss), pos (b + calls_by false ss))
unfolding count_calls split_crlf command_calls has_prefix
count_calls-stats [] a b w h = ground arith
count_calls-stats (s ∷ ss) a b (w, ws) h =
    let n = decimal 0 s.calls in
    let more = if is_read_command s.command then n else 0 in
    let others = if is_read_command s.command then 0 else n in
    let rest = split_crlf (stat_lines ss) in
    ap (count_calls (pos a, pos b))
      (split_crlf-append (stat_line s) (stat_lines ss) (stat_line-lacks s w))
    ∙ ap (λ c. count_calls c rest)
        (ap (add_calls (pos a, pos b)) (command_calls-stat s w)
          ∙ add_calls-counted s.command n a b
              (omega (arith, split_calls (is_read_command s.command) n)))
    ∙ count_calls-stats ss (a + more) (b + others) ws (omega arith)
    ∙ ap₂ (λ x y. (pos x, pos y)) (omega arith) (omega arith)

count_calls-rendered :
    (ss : List Stat)
    → All IsStat ss
    → calls_by true ss + calls_by false ss < 2 ^ 63
    → count_calls (pos 0, pos 0) (split_crlf (render_stats ss))
      ≡ (pos (calls_by true ss), pos (calls_by false ss))
unfolding count_calls command_calls has_prefix
count_calls-rendered ss w h =
    ap (count_calls (pos 0, pos 0)) (split_crlf-append (str "# Commandstats") (stat_lines ss) refl)
    ∙ count_calls-stats ss 0 0 w (omega arith)
    ∙ ap₂ (λ x y. (pos x, pos y)) (omega arith) (omega arith)

-- On a reply in the documented format, whose commands have names with no colon and calls that together
-- are below 2^63, fetchCommandDist counts as reads the calls of the commands of readCommands, and as writes
-- those of all others; the total is their sum, and no flag is set.
pub fetch_command_dist-render :
    {F : Type 0} (fl : Float64 F) (r : Redis) (addr : Str) (ss : List Stat)
    → All IsStat ss
    → calls_by true ss + calls_by false ss < 2 ^ 63
    → r.info addr (str "commandstats" ∷ []) ≡ ok (render_stats ss)
    → (d : ReplicaDistribution F) × (fetch_command_dist fl r addr ≡ ok d)
      × (d.node_addr ≡ addr)
      × (d.read_count ≡ pos (calls_by true ss))
      × (d.write_count ≡ pos (calls_by false ss))
      × (d.total_count ≡ pos (calls_by true ss + calls_by false ss))
      × (d.overloaded ≡ false)
unfolding fetch_command_dist
fetch_command_dist-render fl r addr ss w h replied = (
  distribution fl addr (counted ss),
  rw (replied, fetch_command_dist)
      (ap (λ c. ok (distribution fl addr c)) (count_calls-rendered ss w h)),
  refl,
  refl,
  refl,
  add64-pos (calls_by true ss) (calls_by false ss) h,
  refl,
)
