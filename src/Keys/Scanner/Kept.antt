-- ===== src/Keys/Scanner/Kept.antt =====
-- A property of every key of a scan, over ScanBigKeys.
use mathlib.Core.Path.{subst}
use redis_admin.Base.{ℕ, ◌≡◌, refl, Option, none, some, List, [], ◌∷◌, Str, str, ℤ}
use redis_admin.Errors.{Err, wrap, Result, ok, err}
use redis_admin.Redis.{Redis}
use redis_admin.Config.{Config}
use redis_admin.Keys.Walk.{walk, walk_kept}
use redis_admin.Keys.Scanner.{Found, inspect_key, scan_node, scan_nodes, targets_of, scan_big_keys}
use redis_admin.Sentinel.Topology.{NodeAddresses, get_node_addresses}

-- no key yet
abbrev pub nothing_found : Found
nothing_found = record { reports = []; stats = [] }

module _ (r : Redis) (t : ℤ) (P : Found → Type 0)
    (kept : (addr key : Str) (f : Found) → P f → P (inspect_key r addr t key f))
    (ctx : ℕ → Option Err) (fuel : ℕ) where
  scan_nodes_kept :
      (addrs : List Str) (i : ℕ) (f g : Found)
      → scan_nodes r ctx fuel addrs t i f ≡ some g
      → P f
      → P g
  unfolding scan_nodes scan_node
  scan_nodes_kept [] i f g h a = subst P (cc) a
  scan_nodes_kept (addr ∷ addrs) i f g h a =
      go (walk ctx (r.scan addr (str "*")) (inspect_key r addr t) fuel 0 i f) refl h
        (λ j k. scan_nodes_kept addrs j k g)
    where
      go :
          (o : Option (Option Err × ℕ × Found))
          → walk ctx (r.scan addr (str "*")) (inspect_key r addr t) fuel 0 i f ≡ o
          → ◌≡◌ {A = Option Found}
              (elim o [ none ↦ none | some p ↦ scan_nodes r ctx fuel addrs t p.1 p.2 ])
              (some g)
          → ((j : ℕ) (k : Found) → scan_nodes r ctx fuel addrs t j k ≡ some g → P k → P g)
          → P g
      go none e h ih = absurd (cc)
      go (some p) e h ih = ih p.1 p.2 h (
          walk_kept ctx (r.scan addr (str "*")) (inspect_key r addr t) P (kept addr) fuel 0 i f p e
            a)

  pub scan_big_keys_kept :
      (cfg : Config) (f : Found)
      → scan_big_keys r cfg ctx fuel t ≡ some (ok f)
      → P nothing_found
      → P f
  unfolding scan_big_keys
  scan_big_keys_kept cfg f h start = go (get_node_addresses r cfg) h
    where
      scanned :
          (o : Option Found)
          → ((g : Found) → o ≡ some g → P g)
          → ◌≡◌ {A = Option (Result Found)}
              (elim o [ none ↦ none | some f ↦ some (ok f) ])
              (some (ok f))
          → P f
      scanned none all h = absurd (cc)
      scanned (some g) all h = let e : g ≡ f = cc in subst P e (all g refl)

      go :
          (a : Result NodeAddresses)
          → ◌≡◌ {A = Option (Result Found)}
              (elim a [
                | err e ↦ some (err (wrap (str "scan bigkeys") e))
                | ok addrs ↦ elim (scan_nodes r ctx fuel (targets_of addrs) t 0 nothing_found) [
                  | none ↦ none
                  | some f ↦ some (ok f)
                ]
              ])
              (some (ok f))
          → P f
      go (err e) h = absurd (cc)
      go (ok addrs) h =
          scanned (scan_nodes r ctx fuel (targets_of addrs) t 0 nothing_found)
            (λ g e. scan_nodes_kept (targets_of addrs) 0 nothing_found g e start) h
