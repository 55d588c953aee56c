-- ===== src/Operations/Failover/Termination.antt =====
-- Whether a call of Failover returns.
use redis_admin.Base.{
  ℕ, ◌≡◌, refl, Bool, true, false, Option, none, some, List, [], ◌∷◌, ◌++◌, Str, str, if◌then◌else◌,
}
use redis_admin.Errors.{Err, wrap, Result, ok, err}
use redis_admin.Config.{Config}
use redis_admin.Redis.{Redis}
use redis_admin.Sentinel.Topology.{NodeAddresses, get_node_addresses}
use redis_admin.Operations.Failover.{
  FailoverResult, Candidate, sent_failover, Outcome, quorum_checks, lag_checks, Wait,
  wait_for_new_master, finish, command, choose, started, checked, failover,
}
use redis_admin.Operations.Failover.Waiting.{Ticking, wait_for_new_master-Ends}

abbrev pub Returns : Option Outcome → Type 0
Returns o = (out : Outcome) × (o ≡ some out)

if_Returns :
    (t : Bool) (a b : Option Outcome) → Returns a → Returns b → Returns (if t then a else b)
if_Returns true a b h k = h
if_Returns false a b h k = k

command_ends :
    (r : Redis) (cfg : Config) (w : Wait) (el : ℕ) (res : FailoverResult) (s : Result Str)
    → Ticking w
    → Returns (command r cfg w el res s)
unfolding command
command_ends r cfg w el res (err e) t = (_, refl)
command_ends r cfg w el res (ok a) t =
    let (q, h) = wait_for_new_master-Ends w res.old_master t in
    go (r.sentinel_failover a cfg.master_name) (wait_for_new_master w res.old_master) q h
  where
    go :
        (f : Option Err) (p : Option (Result Str)) (q : Result Str)
        → p ≡ some q
        → Returns (elim f [
          | some e ↦ some (record {
            result = some res;
            error = some (wrap (str "SENTINEL FAILOVER") e);
            effects = sent_failover a cfg.master_name ∷ [];
          })
          | none ↦ elim p [ none ↦ none | some m ↦ some (finish res a cfg.master_name el m) ]
        ])
    go (some e) p q h = (_, refl)
    go none none q h = absurd (cc)
    go none (some m) q h = (_, refl)

choose_ends :
    (r : Redis) (cfg : Config) (w : Wait) (el : ℕ) (res : FailoverResult) (cs : List Candidate)
    → Ticking w
    → Returns (choose r cfg w el res cs)
unfolding choose
choose_ends r cfg w el res [] t = (_, refl)
choose_ends r cfg w el res (c ∷ cs) t =
    if_Returns res.dry_run _ _ (_, refl) (command_ends r cfg w el _ _ t)

checked_ends :
    (r : Redis) (cfg : Config) (w : Wait) (el : ℕ) (dry_run : Bool) (addrs : NodeAddresses)
    → Ticking w
    → Returns (checked r cfg w el dry_run addrs)
unfolding checked
checked_ends r cfg w el dry_run addrs t =
    let quorum = quorum_checks r cfg.master_name cfg.sentinel_addrs in
    let lags = lag_checks r addrs.master addrs.replicas in
    let res = started dry_run addrs.master (quorum.0 ++ lags.0) in
    if_Returns quorum.1 (choose r cfg w el res lags.1) _ (choose_ends r cfg w el res lags.1 t)
      (_, refl)

-- On a clock that moves by the second of each poll, every call of Failover returns.
pub failover_ends :
    (r : Redis) (cfg : Config) (w : Wait) (el : ℕ) (dry_run : Bool)
    → Ticking w
    → Returns (failover r cfg w el dry_run)
unfolding failover
failover_ends r cfg w el dry_run t = go (get_node_addresses r cfg)
  where
    go :
        (a : Result NodeAddresses)
        → Returns (elim a [
          | err e ↦ some (record {
            result = none;
            error = some (wrap (str "failover: resolve nodes") e);
            effects = [];
          })
          | ok addrs ↦ checked r cfg w el dry_run addrs
        ])
    go (err e) = (_, refl)
    go (ok addrs) = checked_ends r cfg w el dry_run addrs t
