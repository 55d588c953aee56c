-- ===== src/Samples/Replicas.antt =====
-- What the replicas of the samples count, on fractions in the place of float64.
use redis_admin.Base.{
  ℕ, ◌*◌, ◌-◌, ◌^◌, ◌<◌, ◌≤◌, ◌≡◌, refl, ◌↔◌, true, false, List, [], ◌∷◌, arith, Str, str, eq_str,
  pos, pos_part, ltb, if◌then◌else◌, All,
}
use redis_admin.Errors.{ok}
use redis_admin.Redis.{Redis}
use redis_admin.Float.{Float64}
use redis_admin.Connection.Distribution.{ReplicaDistribution, fetch_command_dist, get_distribution}
use redis_admin.Connection.Distribution.CommandStats.{
  Stat, IsStat, render_stats, fetch_command_dist-render,
}
use redis_admin.Connection.Distribution.Overload.{reads, IsFlagged, get_distribution-Flagged}
use redis_admin.Samples.Cluster.{config, cluster}

-- a numerator over a denominator
abbrev Fraction : Type 0
Fraction = ℕ × ℕ

abbrev fractions : Float64 Fraction
fractions = record {
  of_int = λ n. (pos_part n, 1);
  literal = λ n d. (n, 10 ^ d);
  sub = λ a b. (a.0 * b.1 - b.0 * a.1, a.1 * b.1);
  mul = λ a b. (a.0 * b.0, a.1 * b.1);
  div = λ a b. (a.0 * b.1, a.1 * b.0);
  lt = λ a b. ltb (a.0 * b.1) (b.0 * a.1);
  seconds = λ n. (pos_part n, 1000000000);
  parse = λ s. (0, 1);
  parses = λ s. true;
}

share_exact :
    (a t : ℕ)
    → a ≤ t
    → t < 2 ^ 50
    → (fractions.lt
          (fractions.literal 80 2)
          (fractions.div (fractions.of_int (pos a)) (fractions.of_int (pos t)))
        ≡ true)
      ↔ (4 * t < 5 * a)
share_exact a t le fits = (λ h. ground arith, λ h. ground arith)

abbrev gets : Str → Stat
gets calls = record { command = str "GET"; calls = calls; others = str "usec=5" }

abbrev sets : Stat
sets = record { command = str "set"; calls = str "7"; others = str "usec=1" }

abbrev stats : Str → List Stat
stats addr = gets (if eq_str addr (str "b:1") then str "90" else str "4") ∷ sets ∷ []

-- one replica has nearly all of the reads
abbrev counting : Redis
counting = record cluster { info = λ a s. ok (render_stats (stats a)) }

gets-IsStat : IsStat (gets (str "90"))
gets-IsStat = record {
  no_colon = refl;
  one_line = refl;
  number = refl;
  fits = omega arith;
  one_line_others = refl;
}

sets-IsStat : IsStat sets
sets-IsStat = record {
  no_colon = refl;
  one_line = refl;
  number = refl;
  fits = omega arith;
  one_line_others = refl;
}

are_stats : All IsStat (stats (str "b:1"))
unfolding eq_str
are_stats = (gets-IsStat, (sets-IsStat, tt))

fetch_command_dist-render_example :
    (d : ReplicaDistribution Fraction) × (fetch_command_dist fractions counting (str "b:1") ≡ ok d)
    × (d.node_addr ≡ str "b:1")
    × (d.read_count ≡ pos 90)
    × (d.write_count ≡ pos 7)
    × (d.total_count ≡ pos 97)
    × (d.overloaded ≡ false)
unfolding redis_admin.Connection.Distribution.is_read_command
fetch_command_dist-render_example =
    fetch_command_dist-render fractions counting (str "b:1") (stats (str "b:1")) are_stats
      (omega arith) refl

all_reads : reads (get_distribution fractions counting config).0 ≡ pos 90 ∷ pos 4 ∷ []
unfolding get_distribution
all_reads = refl

get_distribution-Flagged_example : IsFlagged 94 (get_distribution fractions counting config).0
get_distribution-Flagged_example =
    get_distribution-Flagged fractions counting config share_exact (90 ∷ 4 ∷ []) all_reads
      (omega arith)
