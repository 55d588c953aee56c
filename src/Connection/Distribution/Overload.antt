-- ===== src/Connection/Distribution/Overload.antt =====
-- The flag of the replicas that GetDistribution sets, on a float64 that rounds as it may.
use redis_admin.Base.{
  ℕ, zero, suc, str, ◌++◌, ◌+◌, ◌*◌, ◌^◌, ◌≤◌, ◌<◌, ◌≡◌, refl, ap, sym, ◌∙◌, Bool, true, false,
  if◌then◌else◌, Option, some, List, [], ◌∷◌, arith, Str, ℤ, pos, lt_int, add64, add64-pos, map,
  All, pos_part, ◌↔◌,
}
use redis_admin.Errors.{Err, Result, ok, err, wrap}
use redis_admin.Config.{Config}
use redis_admin.Redis.{Redis}
use redis_admin.Float.{Float64}
use redis_admin.Fanout.{gather}
use redis_admin.Sentinel.Topology.{NodeAddresses, get_node_addresses}
use redis_admin.Connection.Distribution.{
  ReplicaDistribution, fetch_command_dist, total_reads, with_flag, flag_overloaded, flagged,
  get_distribution,
}

abbrev pub sum : List ℕ → ℕ
sum [] = 0
sum (n ∷ ns) = n + sum ns

-- what flags over 4/5 of `t` say of reads that add up to `s`
abbrev Bounded : ℕ → ℕ → ℕ → Type 0
Bounded c t s = (1 ≤ c → 4 * t < 5 * s) × (2 ≤ c → 8 * t < 5 * s)

one_more :
    (f : Bool) (c t n s : ℕ)
    → (f ≡ true → 4 * t < 5 * n)
    → Bounded c t s
    → Bounded ((if f then 1 else 0) + c) t (n + s)
one_more true c t n s over (one, two) =
    let o = over refl in (λ h. omega arith, λ h. let p = one (omega arith) in omega arith)
one_more false c t n s over (one, two) =
    (λ h. let p = one (omega arith) in omega arith, λ h. let p = two (omega arith) in omega arith)

at_most_one : (c t : ℕ) → (2 ≤ c → 8 * t < 5 * t) → c ≤ 1
at_most_one zero t h = omega arith
at_most_one (suc zero) t h = omega arith
at_most_one (suc (suc c)) t h = let l = h (omega arith) in omega arith

module _ {F : Type 0} where
  -- the flag is set exactly above 4/5 of `t`
  abbrev pub IsFlagExact : ℕ → ReplicaDistribution F → Type 0
  IsFlagExact t d = (d.overloaded ≡ true) ↔ (4 * t < 5 * pos_part d.read_count)

  abbrev pub reads : List (ReplicaDistribution F) → List ℤ
  reads = map (λ d. d.read_count)

  -- how many replicas are flagged
  abbrev pub overloaded_count : List (ReplicaDistribution F) → ℕ
  overloaded_count [] = 0
  overloaded_count (d ∷ ds) = (if d.overloaded then 1 else 0) + overloaded_count ds

  -- the flags are exact, and there is at most one
  abbrev pub IsFlagged : ℕ → List (ReplicaDistribution F) → Type 0
  IsFlagged t ds = All (IsFlagExact t) ds × (overloaded_count ds ≤ 1)

  total_reads-sum :
      (fl : Float64 F) (ds : List (ReplicaDistribution F)) (ns : List ℕ) (total : ℕ)
      → reads ds ≡ map pos ns
      → total + sum ns < 2 ^ 63
      → total_reads fl (pos total) ds ≡ pos (total + sum ns)
  total_reads-sum fl [] [] total h fits = ap pos (omega arith)
  total_reads-sum fl [] (n ∷ ns) total h fits = cc
  total_reads-sum fl (d ∷ ds) [] total h fits = cc
  total_reads-sum fl (d ∷ ds) (n ∷ ns) total h fits =
      let r : d.read_count ≡ pos n = cc h in
      ap (λ c. total_reads fl (add64 (pos total) c) ds) r
      ∙ ap (λ c. total_reads fl c ds) (add64-pos total n (omega arith))
      ∙ total_reads-sum fl ds ns (total + n) (cc h) (omega arith)
      ∙ ap pos (omega arith)

  module _ (fl : Float64 F)
      (share_exact : (a t : ℕ)
        → a ≤ t
        → t < 2 ^ 50
        → (fl.lt (fl.literal 80 2) (fl.div (fl.of_int (pos a)) (fl.of_int (pos t))) ≡ true)
          ↔ (4 * t < 5 * a)) where
    with_flag-Bounded :
        (t : ℕ) (ds : List (ReplicaDistribution F)) (ns : List ℕ)
        → reads ds ≡ map pos ns
        → sum ns ≤ t
        → t < 2 ^ 50
        → Bounded (overloaded_count (map (with_flag fl (pos t)) ds)) t (sum ns)
    with_flag-Bounded t [] ns h le fits = (λ c. omega arith, λ c. omega arith)
    with_flag-Bounded t (d ∷ ds) [] h le fits = cc
    with_flag-Bounded t (d ∷ ds) (n ∷ ns) h le fits =
        let r : d.read_count ≡ pos n = cc h in
        let flags = map (with_flag fl (pos t)) ds in
        rw r (
          one_more (fl.lt (fl.literal 80 2) (fl.div (fl.of_int (pos n)) (fl.of_int (pos t))))
            (overloaded_count flags) t n (sum ns) ((share_exact n t (omega arith) fits).0)
            (with_flag-Bounded t ds ns (cc h) (omega arith) fits))

    with_flag-reads :
        (t : ℤ) (ds : List (ReplicaDistribution F)) → reads (map (with_flag fl t) ds) ≡ reads ds
    with_flag-reads t [] = refl
    with_flag-reads t (d ∷ ds) = ap (λ l. d.read_count ∷ l) (with_flag-reads t ds)

    flag_overloaded-reads :
        (ds : List (ReplicaDistribution F)) → reads (flag_overloaded fl ds) ≡ reads ds
    unfolding flag_overloaded
    flag_overloaded-reads ds = ground (arith, with_flag-reads (total_reads fl (pos 0) ds) ds)

    with_flag-IsFlagExact :
        (t : ℕ) (ds : List (ReplicaDistribution F)) (ns : List ℕ)
        → reads ds ≡ map pos ns
        → sum ns ≤ t
        → t < 2 ^ 50
        → All (IsFlagExact t) (map (with_flag fl (pos t)) ds)
    with_flag-IsFlagExact t [] ns h le fits = tt
    with_flag-IsFlagExact t (d ∷ ds) [] h le fits = cc
    with_flag-IsFlagExact t (d ∷ ds) (n ∷ ns) h le fits =
        let r : d.read_count ≡ pos n = cc h in
        (
          rw r (share_exact n t (omega arith) fits),
          with_flag-IsFlagExact t ds ns (cc h) (omega arith) fits,
        )

    -- no replica is flagged where there are no reads
    unflagged :
        (ds : List (ReplicaDistribution F)) (ns : List ℕ)
        → reads ds ≡ map pos ns
        → sum ns ≡ 0
        → All (λ d. d.overloaded ≡ false) ds
        → All (IsFlagExact 0) ds × (overloaded_count ds ≡ 0)
    unflagged [] ns h zero_sum u = (tt, refl)
    unflagged (d ∷ ds) [] h zero_sum u = cc
    unflagged (d ∷ ds) (n ∷ ns) h zero_sum (u, us) =
        let r : d.read_count ≡ pos n = cc h in
        let n_zero : n ≡ 0 = omega arith in
        let (exact, zero_count) = unflagged ds ns (cc h) (omega arith) us in
        ((rw (r, n_zero, u) (λ c. cc, λ c. ground arith), exact), rw u (omega (arith, zero_count)))

    flag_overloaded-sum :
        (ds : List (ReplicaDistribution F)) (ns : List ℕ)
        → reads ds ≡ map pos ns
        → sum ns < 2 ^ 50
        → flag_overloaded fl ds
          ≡ (if lt_int (pos 0) (pos (sum ns)) then map (with_flag fl (pos (sum ns))) ds else ds)
    unfolding flag_overloaded
    flag_overloaded-sum ds ns h fits =
        ap (λ t. if lt_int (pos 0) t then map (with_flag fl t) ds else ds)
          (total_reads-sum fl ds ns 0 h (omega arith) ∙ ap pos (omega arith))

    flag_overloaded_lem :
        (ds : List (ReplicaDistribution F)) (ns : List ℕ)
        → reads ds ≡ map pos ns
        → sum ns < 2 ^ 50
        → All (λ d. d.overloaded ≡ false) ds
        → IsFlagged (sum ns) (flag_overloaded fl ds)
    flag_overloaded_lem ds ns h fits u =
        rw (flag_overloaded-sum ds ns h fits) (go (lt_int (pos 0) (pos (sum ns))) refl)
      where
        go :
            (b : Bool)
            → lt_int (pos 0) (pos (sum ns)) ≡ b
            → IsFlagged (sum ns) (if b then map (with_flag fl (pos (sum ns))) ds else ds)
        go true some_read =
            let bound = with_flag-Bounded (sum ns) ds ns h (omega arith) fits in
            (
              with_flag-IsFlagExact (sum ns) ds ns h (omega arith) fits,
              at_most_one (overloaded_count (map (with_flag fl (pos (sum ns))) ds)) (sum ns)
                  bound.1,
            )
        go false no_read =
            let z : sum ns ≡ 0 = ground arith in
            let (exact, count) = unflagged ds ns h z u in rw z (exact, omega (arith, count))

    fetch-unflagged :
        (r : Redis) (addrs : List Str)
        → All
            (λ d. d.overloaded ≡ false)
            (gather (λ a e. wrap (str "replica " ++ a) e) (fetch_command_dist fl r) addrs).0
    unfolding gather fetch_command_dist
    fetch-unflagged r [] = tt
    fetch-unflagged r (a ∷ as') = ground (arith, fetch-unflagged r as')

-- Of the replicas that answered, GetDistribution flags exactly those that have more than 4/5 of the reads
-- of all of them, and so no two; the counts are not negative and their sum is below 2^50, and float64 is exact
-- enough there to tell whether a quotient is above the literal 0.80.
pub get_distribution-Flagged :
    {F : Type 0} (fl : Float64 F) (r : Redis) (cfg : Config)
    → ((a t : ℕ)
        → a ≤ t
        → t < 2 ^ 50
        → (fl.lt (fl.literal 80 2) (fl.div (fl.of_int (pos a)) (fl.of_int (pos t))) ≡ true)
          ↔ (4 * t < 5 * a))
    → (ns : List ℕ) → reads (get_distribution fl r cfg).0 ≡ map pos ns
    → sum ns < 2 ^ 50
    → IsFlagged (sum ns) (get_distribution fl r cfg).0
unfolding get_distribution get_node_addresses
get_distribution-Flagged {F = F} fl r cfg share_exact ns h fits = go (get_node_addresses r cfg) h
  where
    go :
        (known : Result NodeAddresses)
        → reads
            (elim known as (λ q. List (ReplicaDistribution F) × Option Err) [
              | err e ↦ ([], some (wrap (str "get distribution") e))
              | ok addrs ↦ flagged fl (
                  gather
                    (λ a e. wrap (str "replica " ++ a) e)
                    (fetch_command_dist fl r)
                    addrs.replicas)
            ]).0
          ≡ map pos ns
        → IsFlagged
            (sum ns)
            (elim known as (λ q. List (ReplicaDistribution F) × Option Err) [
              | err e ↦ ([], some (wrap (str "get distribution") e))
              | ok addrs ↦ flagged fl (
                  gather
                    (λ a e. wrap (str "replica " ++ a) e)
                    (fetch_command_dist fl r)
                    addrs.replicas)
            ]).0
    go (err e) h = (tt, omega arith)
    go (ok addrs) h =
        let ds =
          (gather (λ a e. wrap (str "replica " ++ a) e) (fetch_command_dist fl r)
            addrs.replicas).0 in
        flag_overloaded_lem fl share_exact ds ns (sym (flag_overloaded-reads fl share_exact ds) ∙ h)
          fits (fetch-unflagged fl share_exact r addrs.replicas)
