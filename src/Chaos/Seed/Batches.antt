-- ===== src/Chaos/Seed/Batches.antt =====
-- What the batches of Seed hold.
use mathlib.Core.Path.{subst}
use redis_admin.Base.{
  ℕ, zero, suc, ◌+◌, ◌*◌, ◌%◌, ◌≤◌, ◌≡◌, refl, ap, sym, ◌∙◌, inl, inr, false, Option, none, some,
  List, [], ◌∷◌, ◌++◌, append_assoc, append-nil, arith, Str, length, length-append, ◌==◌,
  Bool-cases, All, All-append,
}
use redis_admin.Errors.{Err}
use redis_admin.Chaos.Seed.{
  Command, SeedSpec, commands, Seeded, at_end, or_stop, unless_cancelled, seed_from, seed,
}

abbrev pub flatten : List (List Command) → List Command
flatten [] = []
flatten (b ∷ bs) = b ++ flatten bs

flatten-append :
    (bs : List (List Command)) (b : List Command) → flatten (bs ++ b ∷ []) ≡ flatten bs ++ b
flatten-append [] b = append-nil b
flatten-append (c ∷ bs) b =
    ap (λ l. c ++ l) (flatten-append bs b) ∙ sym (append_assoc c (flatten bs) b)

-- the commands of the keys from `i` on, so many
unfoldable pub commands_from : SeedSpec → (ℕ → Str) → ℕ → ℕ → List Command
unfolding commands
commands_from spec value i zero = []
commands_from spec value i (suc n) = commands spec value i ++ commands_from spec value (suc i) n

two_commands : (spec : SeedSpec) (value : ℕ → Str) (i : ℕ) → length (commands spec value i) ≤ 2
unfolding commands
two_commands spec value i = ground arith

-- the call sent these commands, and reported so many keys and no error
pub record Complete (all : List Command) (n : ℕ) (q : Seeded) : Type 0 where
  pub flat : flatten q.sent ≡ all
  pub count : q.created ≡ n
  pub no_error : q.error ≡ none

recount : (all : List Command) (n m : ℕ) (q : Seeded) → n ≡ m → Complete all n q → Complete all m q
recount all n m q e h = record { flat = h.flat; count = h.count ∙ e; no_error = h.no_error }

-- a batch is small enough
abbrev pub Small : List Command → Type 0
Small b = length b ≤ 200

module _ (spec : SeedSpec) (value : ℕ → Str) (ctx : ℕ → Option Err)
    (exec : ℕ → List Command → Option Err) where
  at_end-Small :
      (sent : List (List Command)) (pipe : List Command) (i : ℕ) (e : Option Err)
      → All Small sent
      → Small pipe
      → All Small (at_end sent pipe i e).sent
  at_end-Small sent pipe i (some e) h k = All-append Small sent (pipe ∷ []) h (k, tt)
  at_end-Small sent pipe i none h k = All-append Small sent (pipe ∷ []) h (k, tt)

  or_stop-Small :
      (sent : List (List Command)) (pipe : List Command) (e : Option Err) (rest : Seeded)
      → All Small sent
      → Small pipe
      → All Small rest.sent
      → All Small (or_stop sent pipe e rest).sent
  or_stop-Small sent pipe (some e) rest h k r = All-append Small sent (pipe ∷ []) h (k, tt)
  or_stop-Small sent pipe none rest h k r = r

  unless_cancelled-Small :
      (c : Option Err) (stopped rest : Seeded)
      → All Small stopped.sent
      → All Small rest.sent
      → All Small (unless_cancelled c stopped rest).sent
  unless_cancelled-Small (some e) stopped rest h k = h
  unless_cancelled-Small none stopped rest h k = k

  seed_from-Small :
      (n i : ℕ) (pipe : List Command) (sent : List (List Command))
      → length pipe ≤ 2 * (i % 100)
      → All Small sent
      → All Small (seed_from spec value ctx exec n i pipe sent).sent
  unfolding seed_from
  seed_from-Small zero i pipe sent h k =
      at_end-Small sent pipe i (exec (length sent) pipe) k (omega (arith, h))
  seed_from-Small (suc n) i pipe sent h k =
      let grown = pipe ++ commands spec value i in
      let fits : length grown ≤ 2 * (i % 100) + 2 =
        omega (arith, h, length-append pipe (commands spec value i), two_commands spec value i) in
      let small : Small grown = omega (arith, fits) in
      unless_cancelled-Small (ctx i) _ _
        (at_end-Small sent pipe i (exec (length sent) pipe) k (omega (arith, h)))
        (elim (Bool-cases (suc i % 100 == 0)) [
          | inl e ↦ rw e (
              or_stop-Small sent grown (exec (length sent) grown) _ k small (
                seed_from-Small n (suc i) [] (sent ++ grown ∷ []) (omega arith)
                  (All-append Small sent (grown ∷ []) k (small, tt))))
          | inr e ↦ rw e (seed_from-Small n (suc i) grown sent (still e fits) k)
        ])
    where
      still : {l : ℕ} → (suc i % 100 == 0) ≡ false → l ≤ 2 * (i % 100) + 2 → l ≤ 2 * (suc i % 100)
      still e f = ground (arith, f)

  -- Whatever fails and whenever the context is cancelled, no batch of Seed has more than 200 commands.
  pub seed-Small : All Small (seed spec value ctx exec).sent
  unfolding seed
  seed-Small = seed_from-Small spec.count 0 [] [] (omega arith) tt

  unless_cancelled-Complete :
      (c : Option Err) (stopped rest : Seeded) (all : List Command) (n : ℕ)
      → c ≡ none
      → Complete all n rest
      → Complete all n (unless_cancelled c stopped rest)
  unless_cancelled-Complete (some e) stopped rest all n h k = absurd (cc)
  unless_cancelled-Complete none stopped rest all n h k = k

  or_stop-Complete :
      (sent : List (List Command)) (pipe : List Command) (e : Option Err) (rest : Seeded)
      (all : List Command) (n : ℕ)
      → e ≡ none
      → Complete all n rest
      → Complete all n (or_stop sent pipe e rest)
  or_stop-Complete sent pipe (some e) rest all n h k = absurd (cc)
  or_stop-Complete sent pipe none rest all n h k = k

  at_end-Complete :
      (sent : List (List Command)) (pipe : List Command) (i : ℕ) (e : Option Err)
      → e ≡ none
      → Complete (flatten sent ++ pipe) i (at_end sent pipe i e)
  at_end-Complete sent pipe i (some e) h = absurd (cc)
  at_end-Complete sent pipe i none h = record {
    flat = flatten-append sent pipe;
    count = refl;
    no_error = refl;
  }

  seed_from-Complete :
      ((i : ℕ) → ctx i ≡ none)
      → ((n : ℕ) (b : List Command) → exec n b ≡ none)
      → (n i : ℕ) (pipe : List Command) (sent : List (List Command))
      → Complete
          (flatten sent ++ (pipe ++ commands_from spec value i n))
          (i + n)
          (seed_from spec value ctx exec n i pipe sent)
  unfolding seed_from commands_from
  seed_from-Complete running works zero i pipe sent =
      subst
        (λ l. Complete (flatten sent ++ l) (i + 0) (seed_from spec value ctx exec zero i pipe sent))
        (sym (append-nil pipe))
        (recount _ i (i + 0) _ (omega arith)
          (at_end-Complete sent pipe i (exec (length sent) pipe) (works (length sent) pipe)))
  seed_from-Complete running works (suc n) i pipe sent =
      let grown = pipe ++ commands spec value i in
      let rest = commands_from spec value (suc i) n in
      recount _ (suc i + n) (i + suc n) _ (omega arith) (
        unless_cancelled-Complete (ctx i) _ _ _ _ (running i)
          (elim (Bool-cases (suc i % 100 == 0)) [
            | inl e ↦ rw e (
                or_stop-Complete sent grown (exec (length sent) grown) _ _ _
                  (works (length sent) grown)
                  (rw (regroup sent pipe (commands spec value i) rest)
                    (seed_from-Complete running works n (suc i) [] (sent ++ grown ∷ []))))
            | inr e ↦ rw e (
                rw (← append_assoc pipe (commands spec value i) rest)
                  (seed_from-Complete running works n (suc i) grown sent))
          ]))
    where
      regroup :
          (bs : List (List Command)) (p c r : List Command)
          → flatten bs ++ (p ++ (c ++ r)) ≡ flatten (bs ++ (p ++ c) ∷ []) ++ r
      regroup bs p c r = rw (flatten-append bs (p ++ c)) (
          sym
            (append_assoc (flatten bs) (p ++ c) r ∙ ap (λ l. flatten bs ++ l) (append_assoc p c r)))

  -- Where the context is not cancelled and no batch fails, Seed creates as many keys as it was asked
  -- for: its batches are, one after the other, the commands of the keys in order, each key once.
  pub seed-Complete :
      ((i : ℕ) → ctx i ≡ none)
      → ((n : ℕ) (b : List Command) → exec n b ≡ none)
      → Complete (commands_from spec value 0 spec.count) spec.count (seed spec value ctx exec)
  unfolding seed
  seed-Complete running works =
      recount _ (0 + spec.count) spec.count _ (omega arith)
        (seed_from-Complete running works spec.count 0 [] [])
