-- ===== src/Api/Guards.antt =====
-- What the handlers do to the cluster only where the request confirms it.
use mathlib.Core.Path.{subst}
use redis_admin.Base.{
  ℕ, ◌≡◌, refl, ap, Bool, true, false, not, ◌&&◌, Option, none, some, List, [], pos, lt_int,
  if◌then◌else◌, All, Str,
}
use redis_admin.Errors.{Err}
use redis_admin.Config.{Config}
use redis_admin.Redis.{Redis}
use redis_admin.Operations.Failover
use redis_admin.Operations.Failover.{FailoverResult, Outcome, Wait, failover}
use redis_admin.Operations.Failover.Safety.{
  Ending, refused, previewed, attempted, switched, failover-Ending,
}
use redis_admin.Chaos.Seed.{Command, SeedSpec, with_defaults, Seeded, seed}
use redis_admin.Chaos.Seed.Batches.{Small, seed-Small}
use redis_admin.Api.{
  Response, err_response, confirm_required, invalid_request, trigger_failover, failover_done,
  SeedRequest, seed_data, seed_done, key_count_of,
}

-- nothing was done, or the request was a confirmed one for a real failover
pub data Guarded (dry_run confirm : Bool) (effects : List Failover.Effect) : Type 0 where
  untouched : effects ≡ [] → Guarded dry_run confirm effects
  confirmed : confirm ≡ true → dry_run ≡ false → Guarded dry_run confirm effects

real_run :
    (confirm : Bool) (effects : List Failover.Effect)
    → (not false && not confirm) ≡ false
    → Guarded false confirm effects
real_run true effects h = confirmed refl refl
real_run false effects h = absurd (cc)

no_effects :
    {o : Outcome} {res : FailoverResult}
    → o ≡ record { result = some res; error = none; effects = [] }
    → o.effects ≡ []
no_effects h = ap (λ (x : Outcome). x.effects) h

Ending-Guarded :
    (r : Redis) (cfg : Config) (dry_run confirm : Bool) (o : Outcome)
    → (not dry_run && not confirm) ≡ false
    → Ending r cfg dry_run o
    → Guarded dry_run confirm o.effects
Ending-Guarded r cfg true confirm o h (refused e x y) = untouched y
Ending-Guarded r cfg true confirm o h (previewed addrs best res d c e s) = untouched (no_effects e)
Ending-Guarded r cfg true confirm o h (attempted addrs best a e d c x y) = absurd (cc)
Ending-Guarded r cfg true confirm o h (switched addrs best a m res d c x s n k l) = absurd (cc)
Ending-Guarded r cfg false confirm o h e = real_run confirm o.effects h

-- The endpoint of the failover changes the cluster only where the request has confirm and is no dry
-- run; any other request does nothing to it.
pub trigger_failover-Guarded :
    (r : Redis) (cfg : Config) (w : Wait) (el : ℕ) (dry_run confirm : Bool)
    (q : Response FailoverResult) (effects : List Failover.Effect)
    → trigger_failover r cfg w el dry_run confirm ≡ some (q, effects)
    → Guarded dry_run confirm effects
unfolding trigger_failover
trigger_failover-Guarded r cfg w el dry_run confirm q effects h =
    go (not dry_run && not confirm) refl (failover r cfg w el dry_run) refl h
  where
    ran :
        (o : Outcome)
        → failover r cfg w el dry_run ≡ some o
        → (not dry_run && not confirm) ≡ false
        → o.effects ≡ effects
        → Guarded dry_run confirm effects
    ran o e n s =
        subst (Guarded dry_run confirm) s
          (Ending-Guarded r cfg dry_run confirm o n (failover-Ending r cfg w el dry_run o e))

    go :
        (b : Bool)
        → (not dry_run && not confirm) ≡ b
        → (o : Option Outcome) → failover r cfg w el dry_run ≡ o
        → ◌≡◌ {A = Option (Response FailoverResult × List Failover.Effect)}
            (if b then some (err_response 400 confirm_required, []) else failover_done o)
            (some (q, effects))
        → Guarded dry_run confirm effects
    go true n o e h =
        let s : [] ≡ effects = cc in subst (Guarded dry_run confirm) s (untouched refl)
    go false n none e h = absurd (cc)
    go false n (some o) e h = ran o e n (cc)

-- nothing was sent, or the request confirmed at most 100000 keys
pub data SeedGuarded (q : SeedRequest) (sent : List (List Command)) : Type 0 where
  nothing_sent : sent ≡ [] → SeedGuarded q sent
  within :
      q.confirm ≡ true
      → lt_int (pos 100000) (key_count_of q.key_count) ≡ false
      → All Small sent
      → SeedGuarded q sent

sent-seed_done : (s : Seeded) → (seed_done s).1 ≡ s.sent
sent-seed_done s = go s.error
  where
    go :
        (e : Option Err)
        → ◌≡◌ {A = List (List Command)} (seed_done (record s { error = e })).1 s.sent
    go (some e) = refl
    go none = refl

-- The endpoint that seeds keys writes nothing unless the request has confirm and asks for at most
-- 100000 keys; what it writes goes in batches of at most 200 commands, whatever fails.
pub seed_data-SeedGuarded :
    (value : ℕ → Str) (ctx : ℕ → Option Err) (exec : ℕ → List Command → Option Err)
    (q : SeedRequest)
    → SeedGuarded q (seed_data value ctx exec q).1
unfolding seed_data
seed_data-SeedGuarded value ctx exec q =
    decide q.confirm (lt_int (pos 100000) (key_count_of q.key_count)) _ refl refl (
      written
        (with_defaults q.key_prefix (key_count_of q.key_count) q.value_size q.key_type q.ttl_sec))
  where
    written : (spec : SeedSpec) → All Small (seed_done (seed spec value ctx exec)).1
    written spec = rw (sent-seed_done (seed spec value ctx exec)) (seed-Small spec value ctx exec)

    decide :
        (c over : Bool) (p : Response ℕ × List (List Command))
        → q.confirm ≡ c
        → lt_int (pos 100000) (key_count_of q.key_count) ≡ over
        → All Small p.1
        → SeedGuarded q
            (if not c
              then (err_response 400 confirm_required, [])
              else if over
              then (err_response 400 invalid_request, [])
              else p).1
    decide false over p h k l = nothing_sent refl
    decide true true p h k l = nothing_sent refl
    decide true false p h k l = within h k l
