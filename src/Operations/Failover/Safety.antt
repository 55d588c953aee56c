-- ===== src/Operations/Failover/Safety.antt =====
-- What a failover does to the cluster, and when.
use mathlib.Core.Path.{subst}
use redis_admin.Base.{
  ℕ, ◌≡◌, refl, sym, ◌≢◌, Bool, true, false, Option, none, some, List, [], ◌∷◌, ◌++◌, arith, Str,
  str, is_empty, if◌then◌else◌,
}
use redis_admin.Errors.{Err, other, wrap, Result, ok, err}
use redis_admin.Config.{Config}
use redis_admin.Redis.{Redis}
use redis_admin.Sentinel.Quorum.{check, check_addrs}
use redis_admin.Sentinel.Topology.{NodeAddresses, get_node_addresses}
use redis_admin.Operations.Failover.{
  Note, selected, FailoverResult, Candidate, sent_failover, notified, Outcome, quorum_checks,
  lag_checks, pick_best, reachable_sentinel_addr, Wait, wait_for_new_master, finish, command,
  choose, started, checked, failover,
}
use redis_admin.Operations.Failover.Choice.{Lowest, pick_best-Lowest}
use redis_admin.Operations.Failover.Waiting.{wait_for_new_master-Appeared}

-- The checks passed: the quorum is confirmed, and a candidate of the lowest lag is chosen.
pub record Cleared (r : Redis) (cfg : Config) (addrs : NodeAddresses) (best : Candidate)
    : Type 0 where
  pub resolved : get_node_addresses r cfg ≡ ok addrs
  pub quorum : check r cfg ≡ true
  pub lowest : Lowest (lag_checks r addrs.master addrs.replicas).1 best

quorum_checks-check :
    (r : Redis) (m : Str) (addrs : List Str) → (quorum_checks r m addrs).1 ≡ check_addrs r m addrs
unfolding quorum_checks check_addrs
quorum_checks-check r m [] = refl
quorum_checks-check r m (a ∷ addrs) = ground (arith, quorum_checks-check r m addrs)

check_found :
    (r : Redis) (cfg : Config)
    → check_addrs r cfg.master_name cfg.sentinel_addrs ≡ true
    → check r cfg ≡ true
unfolding check
check_found r cfg h = h

-- how a call of Failover may end
pub data Ending (r : Redis) (cfg : Config) (dry_run : Bool) (o : Outcome) : Type 0 where
  -- an error, before anything was sent
  refused : (e : Err) → o.error ≡ some e → o.effects ≡ [] → Ending r cfg dry_run o
  -- a dry run, which sends nothing
  previewed :
      (addrs : NodeAddresses) (best : Candidate) (res : FailoverResult)
      → dry_run ≡ true
      → Cleared r cfg addrs best
      → o ≡ record { result = some res; error = none; effects = [] }
      → res.selected_replica ≡ best.addr
      → Ending r cfg dry_run o
  -- the command was sent to a sentinel, and it or the wait failed
  attempted :
      (addrs : NodeAddresses) (best : Candidate) (sentinel : Str) (e : Err)
      → dry_run ≡ false
      → Cleared r cfg addrs best
      → o.error ≡ some e
      → o.effects ≡ sent_failover sentinel cfg.master_name ∷ []
      → Ending r cfg dry_run o
  -- the command was sent, another master appeared, and the webhook was notified
  switched :
      (addrs : NodeAddresses) (best : Candidate) (sentinel m : Str) (res : FailoverResult)
      → dry_run ≡ false
      → Cleared r cfg addrs best
      → o ≡ record {
        result = some res;
        error = none;
        effects = sent_failover sentinel cfg.master_name ∷ notified addrs.master m ∷ [];
      }
      → res.selected_replica ≡ best.addr
      → res.new_master ≡ m
      → is_empty m ≡ false
      → m ≢ addrs.master
      → Ending r cfg dry_run o

-- where the model ends
abbrev Ensures : (Outcome → Type 0) → Option Outcome → Type 0
Ensures P none = Unit
Ensures P (some o) = P o

module _ (r : Redis) (cfg : Config) (w : Wait) (el : ℕ) (addrs : NodeAddresses) (best : Candidate)
    (c : Cleared r cfg addrs best) where
  finish-Ending :
      (res : FailoverResult) (a : Str) (q : Result Str)
      → res.old_master ≡ addrs.master
      → res.selected_replica ≡ best.addr
      → wait_for_new_master w res.old_master ≡ some q
      → Ending r cfg false (finish res a cfg.master_name el q)
  unfolding finish
  finish-Ending res a (err e) om sel h = attempted addrs best a _ refl c refl refl
  finish-Ending res a (ok m) om sel h =
      let l = wait_for_new_master-Appeared w res.old_master m h in
      switched addrs best a m (record res { new_master = m; elapsed_ms = el }) refl c (cc) sel refl
        l.1 (λ e. l.2 (cc))

  command-Ending :
      (res : FailoverResult) (s : Result Str)
      → res.old_master ≡ addrs.master
      → res.selected_replica ≡ best.addr
      → Ensures (Ending r cfg false) (command r cfg w el res s)
  unfolding command
  command-Ending res (err e) om sel = refused _ refl refl
  command-Ending res (ok a) om sel =
      go (r.sentinel_failover a cfg.master_name) (wait_for_new_master w res.old_master) refl
    where
      go :
          (f : Option Err) (q : Option (Result Str))
          → wait_for_new_master w res.old_master ≡ q
          → Ensures (Ending r cfg false) (elim f [
            | some e ↦ some (record {
              result = some res;
              error = some (wrap (str "SENTINEL FAILOVER") e);
              effects = sent_failover a cfg.master_name ∷ [];
            })
            | none ↦ elim q [ none ↦ none | some m ↦ some (finish res a cfg.master_name el m) ]
          ])
      go (some e) q h = attempted addrs best a _ refl c refl refl
      go none none h = tt
      go none (some m) h = finish-Ending res a m om sel h

module _ (r : Redis) (cfg : Config) (w : Wait) (el : ℕ) (addrs : NodeAddresses) where
  choose-Ending :
      (res : FailoverResult) (cs : List Candidate)
      → get_node_addresses r cfg ≡ ok addrs
      → check r cfg ≡ true
      → (lag_checks r addrs.master addrs.replicas).1 ≡ cs
      → res.old_master ≡ addrs.master
      → Ensures (Ending r cfg res.dry_run) (choose r cfg w el res cs)
  unfolding choose
  choose-Ending res [] ha hq hc om = refused _ refl refl
  choose-Ending res (d ∷ cs) ha hq hc om = go res.dry_run refl
    where
      best : Candidate
      best = pick_best d cs

      cleared : Cleared r cfg addrs best
      cleared = record {
        resolved = ha;
        quorum = hq;
        lowest = subst (λ l. Lowest l (pick_best d cs)) (sym hc) (pick_best-Lowest d cs);
      }

      chosen : FailoverResult
      chosen = record res {
        selected_replica = best.addr;
        pre_checks = res.pre_checks ++ selected best.addr best.lag_bytes ∷ [];
      }

      go :
          (t : Bool)
          → res.dry_run ≡ t
          → Ensures (Ending r cfg t) (
              if t
              then some (record {
                result = some (record chosen { elapsed_ms = el });
                error = none;
                effects = [];
              })
              else command r cfg w el chosen (reachable_sentinel_addr r cfg.sentinel_addrs))
      go true d = previewed addrs best (record chosen { elapsed_ms = el }) refl cleared refl refl
      go false d =
          command-Ending r cfg w el addrs best cleared chosen
            (reachable_sentinel_addr r cfg.sentinel_addrs) om refl

  checked-Ending :
      (dry_run : Bool)
      → get_node_addresses r cfg ≡ ok addrs
      → Ensures (Ending r cfg dry_run) (checked r cfg w el dry_run addrs)
  unfolding checked
  checked-Ending dry_run ha =
      go (quorum_checks r cfg.master_name cfg.sentinel_addrs).1
        (sym (quorum_checks-check r cfg.master_name cfg.sentinel_addrs))
    where
      quorum : List Note × Bool
      quorum = quorum_checks r cfg.master_name cfg.sentinel_addrs

      lags : List Note × List Candidate
      lags = lag_checks r addrs.master addrs.replicas

      go :
          (q : Bool)
          → check_addrs r cfg.master_name cfg.sentinel_addrs ≡ q
          → Ensures (Ending r cfg dry_run) (
              if q
              then choose r cfg w el (started dry_run addrs.master (quorum.0 ++ lags.0)) lags.1
              else some (record {
                result = some (started dry_run addrs.master quorum.0);
                error = some (other (str "failover: quorum not met"));
                effects = [];
              }))
      go true h = choose-Ending _ lags.1 ha (check_found r cfg h) refl refl
      go false h = refused _ refl refl

failover-Ensures :
    (r : Redis) (cfg : Config) (w : Wait) (el : ℕ) (dry_run : Bool)
    → Ensures (Ending r cfg dry_run) (failover r cfg w el dry_run)
unfolding failover
failover-Ensures r cfg w el dry_run = go (get_node_addresses r cfg) refl
  where
    go :
        (a : Result NodeAddresses)
        → get_node_addresses r cfg ≡ a
        → Ensures (Ending r cfg dry_run) (elim a [
          | err e ↦ some (record {
            result = none;
            error = some (wrap (str "failover: resolve nodes") e);
            effects = [];
          })
          | ok addrs ↦ checked r cfg w el dry_run addrs
        ])
    go (err e) h = refused _ refl refl
    go (ok addrs) h = checked-Ending r cfg w el addrs dry_run h

-- A call of Failover ends in one of four ways. With an error it may have sent nothing. A dry run
-- sends nothing. SENTINEL FAILOVER is sent, once and to one sentinel, only in a real run whose
-- nodes were resolved, whose quorum was confirmed and which has a candidate; the selected replica
-- is then a candidate of the lowest lag. The webhook is notified, after the command, only of a
-- master that is not empty and not the old one, and such a call reports that master and no error.
pub failover-Ending :
    (r : Redis) (cfg : Config) (w : Wait) (el : ℕ) (dry_run : Bool) (o : Outcome)
    → failover r cfg w el dry_run ≡ some o
    → Ending r cfg dry_run o
failover-Ending r cfg w el dry_run o h =
    subst (Ensures (Ending r cfg dry_run)) h (failover-Ensures r cfg w el dry_run)
