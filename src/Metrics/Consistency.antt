-- ===== src/Metrics/Consistency.antt =====
-- What holds of the exported values after any collections.
use redis_admin.Base.{
  ℕ, ◌≡◌, refl, ◌⊎◌, inl, inr, Bool, true, false, Option, none, some, List, [], ◌∷◌, Str, str, ℤ,
  pos, Dict, lookup, insert, lookup-insert, eq_str, lookup_str, All, Bool-cases, if◌then◌else◌,
}
use redis_admin.Errors.{Err, Result, ok, err}
use redis_admin.Config.{Config}
use redis_admin.Redis.{Redis}
use redis_admin.Float.{Float64}
use redis_admin.Info.{parse_info_kv}
use redis_admin.Sentinel.Topology.{
  TopologySnapshot, NodeAddresses, get_topology, get_node_addresses,
}
use redis_admin.Replication.Tracker.{Samples, ReplicaLag, promotion_score, get_replication_lag}
use redis_admin.Replication.Tracker.Recency.{Recent-scored, Recent, get_replication_lag-Recent}
use redis_admin.Metrics.{
  Gauges, zero_value, new_gauges, set_topology, set_lags, lags_if, set_parsed, with_label,
  collect_node_memory, collect_memory, memory_if, collect,
}

module _ {F : Type 0} (fl : Float64 F) where
  -- the two gauges of a replica are unset, or are the lag and the score of one sample
  pub data Paired : Option F → Option F → Type 0 where
    unset : Paired none none
    of_sample : (l : ℤ) → Paired (some (fl.of_int l)) (some (promotion_score fl l))

  pub record IsConsistent (g : Gauges F) : Type 0 where
    pub quorum_bit : (g.quorum_ok ≡ fl.of_int (pos 1)) ⊎ (g.quorum_ok ≡ fl.of_int (pos 0))
    pub paired : (a : Str) → Paired (lookup a g.replica_lag) (lookup a g.promotion_score)
    pub none_evicted : All (λ e. e.1 ≡ zero_value fl) g.evicted_keys

  new_gauges-IsConsistent : IsConsistent (new_gauges fl)
  unfolding lookup
  new_gauges-IsConsistent = record { quorum_bit = inr refl; paired = λ a. unset; none_evicted = tt }

  set_topology-IsConsistent :
      (t : Result TopologySnapshot) (g : Gauges F)
      → IsConsistent g
      → IsConsistent (set_topology fl t g)
  unfolding set_topology
  set_topology-IsConsistent (err e) g c = c
  set_topology-IsConsistent (ok s) g c = record {
    quorum_bit = go s.quorum_ok;
    paired = c.paired;
    none_evicted = c.none_evicted;
  }
    where
      go :
          (b : Bool)
          → (fl.of_int (if b then pos 1 else pos 0) ≡ fl.of_int (pos 1))
            ⊎ (fl.of_int (if b then pos 1 else pos 0) ≡ fl.of_int (pos 0))
      go true = inl refl
      go false = inr refl

  set_lags-IsConsistent :
      (ls : List (ReplicaLag F)) (g : Gauges F)
      → All (Recent fl) ls
      → IsConsistent g
      → IsConsistent (set_lags fl ls g)
  unfolding set_lags
  set_lags-IsConsistent [] g s c = c
  set_lags-IsConsistent (l ∷ ls) g s c = set_lags-IsConsistent ls _ s.1 (record {
    quorum_bit = c.quorum_bit;
    paired = λ a. rw (lookup-insert l.node_addr a (fl.of_int l.lag_bytes) g.replica_lag) (
        rw (lookup-insert l.node_addr a l.promotion_score g.promotion_score)
          (go a (eq_str l.node_addr a)));
    none_evicted = c.none_evicted;
  })
    where
      go :
          (a : Str) (b : Bool)
          → Paired
              (if b then some (fl.of_int l.lag_bytes) else lookup a g.replica_lag)
              (if b then some l.promotion_score else lookup a g.promotion_score)
      go a true = rw (Recent-scored fl l s.0) (of_sample l.lag_bytes)
      go a false = c.paired a

  insert-none_evicted :
      (a : Str) (m : Dict F)
      → All (λ e. e.1 ≡ zero_value fl) m
      → All (λ e. e.1 ≡ zero_value fl) (insert a (zero_value fl) m)
  unfolding insert
  insert-none_evicted a [] h = (refl, tt)
  insert-none_evicted a ((j, v) ∷ m) h = elim (Bool-cases (eq_str j a)) [
    | inl e ↦ rw e ((refl, h.1))
    | inr e ↦ rw e ((h.0, insert-none_evicted a m h.1))
  ]

  with_label-none_evicted :
      (a : Str) (m : Dict F)
      → All (λ e. e.1 ≡ zero_value fl) m
      → All (λ e. e.1 ≡ zero_value fl) (with_label fl a m)
  unfolding with_label
  with_label-none_evicted a m h = go (lookup a m)
    where
      go :
          (o : Option F)
          → All
              (λ e. e.1 ≡ zero_value fl)
              (elim o [ none ↦ insert a (zero_value fl) m | some v ↦ m ])
      go none = insert-none_evicted a m h
      go (some v) = h

  collect_node_memory-IsConsistent :
      (r : Redis) (a : Str) (g : Gauges F)
      → IsConsistent g
      → IsConsistent (collect_node_memory fl r a g)
  unfolding collect_node_memory
  collect_node_memory-IsConsistent r a g c = go (r.info a (str "memory" ∷ str "stats" ∷ []))
    where
      counted :
          (b : Bool)
          → All
              (λ e. e.1 ≡ zero_value fl)
              (if b then with_label fl a g.evicted_keys else g.evicted_keys)
      counted true = with_label-none_evicted a g.evicted_keys c.none_evicted
      counted false = c.none_evicted

      go :
          (q : Result Str)
          → IsConsistent (elim q as (λ x. Gauges F) [
            | err e ↦ g
            | ok raw ↦
                let kv = parse_info_kv raw in
                record g {
                  used_memory = set_parsed fl a (lookup_str (str "used_memory") kv) g.used_memory;
                  frag_ratio =
                      set_parsed fl a (lookup_str (str "mem_fragmentation_ratio") kv) g.frag_ratio;
                  evicted_keys =
                      if fl.parses (lookup_str (str "evicted_keys") kv)
                      then with_label fl a g.evicted_keys
                      else g.evicted_keys;
                }
          ])
      go (err e) = c
      go (ok raw) = record {
        quorum_bit = c.quorum_bit;
        paired = c.paired;
        none_evicted = counted (fl.parses (lookup_str (str "evicted_keys") (parse_info_kv raw)));
      }

  collect_memory-IsConsistent :
      (r : Redis) (as' : List Str) (g : Gauges F)
      → IsConsistent g
      → IsConsistent (collect_memory fl r as' g)
  unfolding collect_memory
  collect_memory-IsConsistent r [] g c = c
  collect_memory-IsConsistent r (a ∷ as') g c =
      collect_memory-IsConsistent r as' _ (collect_node_memory-IsConsistent r a g c)

  collect-IsConsistent :
      (r : Redis) (cfg : Config) (now : ℕ) (clock : ℕ → ℕ) (g : Gauges F) (samples : Samples)
      → IsConsistent g
      → IsConsistent (collect fl r cfg now clock (g, samples)).0
  unfolding collect
  collect-IsConsistent r cfg now clock g samples c =
      let (lags, e, samples') = get_replication_lag fl r cfg clock samples in
      memory (get_node_addresses r cfg) _ (
        lagged e lags (get_replication_lag-Recent fl r cfg clock samples)
          (set_topology-IsConsistent (get_topology r cfg now) g c))
    where
      memory :
          (q : Result NodeAddresses) (h : Gauges F)
          → IsConsistent h
          → IsConsistent (memory_if fl r q h)
      memory (err e) h d = d
      memory (ok addrs) h d = collect_memory-IsConsistent r (addrs.master ∷ addrs.replicas) h d

      lagged :
          (e : Option Err) (ls : List (ReplicaLag F)) {h : Gauges F}
          → All (Recent fl) ls
          → IsConsistent h
          → IsConsistent (lags_if fl ls e h)
      lagged none ls {h} s d = set_lags-IsConsistent ls h s d
      lagged (some e) ls s d = d

-- one collection: the nodes, the time and the clock while it runs
pub record Collection : Type 0 where
  pub nodes : Redis
  pub now : ℕ
  pub clock : ℕ → ℕ

-- Start: one collection at each tick
unfoldable pub collect_all :
    {F : Type 0} → Float64 F → Config → List Collection → Gauges F × Samples → Gauges F × Samples
collect_all fl cfg [] s = s
collect_all fl cfg (c ∷ cs) s = collect_all fl cfg cs (collect fl c.nodes cfg c.now c.clock s)

-- After any collections of any nodes, the quorum gauge is 0 or 1; the lag and the promotion score of a
-- replica are both unset or both those of one sample, although the lags of a collection are published
-- only where every replica answered; and no evicted key has ever been counted.
pub collect_all-IsConsistent :
    {F : Type 0} (fl : Float64 F) (cfg : Config) (cs : List Collection) (samples : Samples)
    → IsConsistent fl (collect_all fl cfg cs (new_gauges fl, samples)).0
unfolding collect_all
collect_all-IsConsistent {F} fl cfg cs samples =
    from cs (new_gauges fl) samples (new_gauges-IsConsistent fl)
  where
    from :
        (ds : List Collection) (g : Gauges F) (s : Samples)
        → IsConsistent fl g
        → IsConsistent fl (collect_all fl cfg ds (g, s)).0
    from [] g s c = c
    from (d ∷ ds) g s c = from ds _ _ (collect-IsConsistent fl d.nodes cfg d.now d.clock g s c)
