-- ===== src/Sentinel/Topology/Laws.antt =====
-- GetTopology and GetNodeAddresses side by side, and their errors.
use redis_admin.Base.{
  ℕ, ◌≢◌, ◌≡◌, refl, ap, ◌∙◌, inl, inr, Option, none, some, List, [], ◌∷◌, ◌++◌, arith, Str, str,
  Dict, map, All, Bool-cases,
}
use redis_admin.Errors.{
  same_cause, Cause, Err, is, typed, wrap, node_unreachable, no_master, Result, ok, err, value_or,
}
use redis_admin.Config.{Config}
use redis_admin.Redis.{Redis}
use redis_admin.Sentinel.Topology.{
  TopologySnapshot, NodeAddresses, fetch_node_info, replica_node, map_addr, listed, has_addr,
  reachable_sentinel, master_of, get_topology, get_node_addresses, snapshot, addresses, Role,
  master,
}

abbrev pub addresses_of : TopologySnapshot → NodeAddresses
addresses_of s = record { master = s.master.addr; replicas = map (λ n. n.addr) s.replicas }

addr-fetch_node_info : (r : Redis) (a : Str) (role : Role) → (fetch_node_info r a role).addr ≡ a
unfolding fetch_node_info
addr-fetch_node_info r a role = ground arith

addr-replica_node : (r : Redis) (m : Dict Str) → (replica_node r m).addr ≡ map_addr m
unfolding replica_node
addr-replica_node r m = ground arith

map-listed :
    (r : Redis) (ms : List (Dict Str))
    → map (λ n. n.addr) (listed (replica_node r) ms) ≡ listed map_addr ms
unfolding listed
map-listed r [] = refl
map-listed r (m ∷ ms) = elim (Bool-cases (has_addr m)) [
  | inl e ↦ rw e (cc (addr-replica_node r m, map-listed r ms))
  | inr e ↦ rw e (map-listed r ms)
]

-- Both calls succeed with the same addresses, or both fail with errors that errors.Is cannot tell
-- apart.
pub data Agrees : Result TopologySnapshot → Result NodeAddresses → Type 0 where
  both_ok : (s : TopologySnapshot) {n : NodeAddresses} → n ≡ addresses_of s → Agrees (ok s) (ok n)
  both_err : (e f : Err) → ((c : Cause) → is c e ≡ is c f) → Agrees (err e) (err f)

wrap_same : (c : Cause) (s t : Str) (e : Err) → is c (wrap s e) ≡ is c (wrap t e)
unfolding is
wrap_same c s t e = refl

snapshot-Agrees :
    (r : Redis) (cfg : Config) (now : ℕ) (a : Str) (m : Result Str)
    → Agrees (snapshot r cfg now a m) (addresses r cfg a m)
snapshot-Agrees r cfg now a (err e) = both_err e e (λ c. refl)
snapshot-Agrees r cfg now a (ok x) = both_ok _ (
    cc (addr-fetch_node_info r x master, map-listed r (value_or [] (r.replicas a cfg.master_name))))

-- Against the same replies GetTopology and GetNodeAddresses agree: they return the same master and
-- the same replicas, in the same order, or both return an error with the same causes.
pub get_topology-Agrees :
    (r : Redis) (cfg : Config) (now : ℕ)
    → Agrees (get_topology r cfg now) (get_node_addresses r cfg)
unfolding get_topology get_node_addresses
get_topology-Agrees r cfg now =
    elim (reachable_sentinel r cfg.sentinel_addrs)
      as (λ q.
        Agrees
          (elim q [
            | err e ↦ err (wrap (str "get topology") (typed node_unreachable))
            | ok a ↦
                snapshot r cfg now a
                  (master_of (str "get master from sentinel") (r.get_master_addr a cfg.master_name))
          ])
          (elim q [
            | err e ↦ err (wrap (str "get node addresses") (typed node_unreachable))
            | ok a ↦
                addresses r cfg a
                  (master_of (str "get master from sentinel") (r.get_master_addr a cfg.master_name))
          ])) [
            | err e ↦ both_err _ _ (λ c. wrap_same c _ _ _)
            | ok a ↦ snapshot-Agrees r cfg now a _
          ]

-- the sentinel does not answer PING
abbrev pub Silent : Redis → Str → Type 0
Silent r a = (e : Err) × (r.ping a ≡ some e)

-- The sentinel that is chosen is the first of the list that answers PING.
pub record FirstReachable (r : Redis) (addrs : List Str) (a : Str) : Type 0 where
  pub before : List Str
  pub after : List Str
  pub split_at : addrs ≡ before ++ a ∷ after
  pub silent : All (Silent r) before
  pub answers : r.ping a ≡ none

pub FirstReachable-cons :
    (r : Redis) (b a : Str) (addrs : List Str)
    → Silent r b
    → FirstReachable r addrs a
    → FirstReachable r (b ∷ addrs) a
FirstReachable-cons r b a addrs h f = record {
  before = b ∷ f.before;
  after = f.after;
  split_at = ap (λ l. b ∷ l) f.split_at;
  silent = (h, f.silent);
  answers = f.answers;
}

reachable_first :
    (r : Redis) (addrs : List Str) (a : Str)
    → reachable_sentinel r addrs ≡ ok a
    → FirstReachable r addrs a
unfolding reachable_sentinel
reachable_first r [] a h = absurd (cc)
reachable_first r (b ∷ addrs) a h = go (r.ping b) refl h (reachable_first r addrs a)
  where
    go :
        (p : Option Err)
        → r.ping b ≡ p
        → ◌≡◌ {A = Result Str} (elim p [ none ↦ ok b | some e ↦ reachable_sentinel r addrs ]) (ok a)
        → (reachable_sentinel r addrs ≡ ok a → FirstReachable r addrs a)
        → FirstReachable r (b ∷ addrs) a
    go none e k rest = record {
      before = [];
      after = addrs;
      split_at = cc;
      silent = tt;
      answers = cc;
    }
    go (some x) e k rest = FirstReachable-cons r b a addrs (x, e) (rest k)

reachable-Silent :
    (r : Redis) (addrs : List Str) (e : Err)
    → reachable_sentinel r addrs ≡ err e
    → All (Silent r) addrs
unfolding reachable_sentinel
reachable-Silent r [] e h = tt
reachable-Silent r (b ∷ addrs) e h = go (r.ping b) refl h (reachable-Silent r addrs e)
  where
    go :
        (p : Option Err)
        → r.ping b ≡ p
        → ◌≡◌ {A = Result Str}
            (elim p [ none ↦ ok b | some e ↦ reachable_sentinel r addrs ])
            (err e)
        → (reachable_sentinel r addrs ≡ err e → All (Silent r) addrs)
        → All (Silent r) (b ∷ addrs)
    go none q k rest = absurd (cc)
    go (some x) q k rest = ((x, q), rest k)

-- the sentinel gives no address of a master: no reply, or one of fewer than two parts
abbrev pub NamesNone : Redis → Config → Str → Type 0
NamesNone r cfg a =
    (ip port : Str) (more : List Str) → r.get_master_addr a cfg.master_name ≢ ok (ip ∷ port ∷ more)

-- the address of the master that the sentinel gives
pub record Names (r : Redis) (cfg : Config) (a m : Str) : Type 0 where
  pub ip : Str
  pub port : Str
  pub more : List Str
  pub replied : r.get_master_addr a cfg.master_name ≡ ok (ip ∷ port ∷ more)
  pub joined : m ≡ ip ++ b':' ∷ port

-- what a failure of GetNodeAddresses means
pub data Failure (r : Redis) (cfg : Config) (e : Err) : Type 0 where
  -- no sentinel answered, and the error is ErrNodeUnreachable
  all_silent :
      All (Silent r) cfg.sentinel_addrs
      → ((c : Cause) → is c e ≡ same_cause c node_unreachable)
      → Failure r cfg e
  -- the first sentinel that answered did not name a master, and the error is ErrNoMaster
  unnamed :
      (a : Str)
      → FirstReachable r cfg.sentinel_addrs a
      → NamesNone r cfg a
      → ((c : Cause) → is c e ≡ same_cause c no_master)
      → Failure r cfg e

unnamed_cause :
    (r : Redis) (cfg : Config) (a l : Str) (m : Result (List Str)) (e : Err)
    → addresses r cfg a (master_of l m) ≡ err e
    → (e ≡ wrap l (typed no_master))
      × ((ip port : Str) (more : List Str) → m ≢ ok (ip ∷ port ∷ more))
unfolding master_of
unnamed_cause r cfg a l (ok (ip ∷ port ∷ more)) e h = absurd (cc)
unnamed_cause r cfg a l (ok (ip ∷ [])) e h = (cc, λ i p m k. cc k)
unnamed_cause r cfg a l (ok []) e h = (cc, λ i p m k. cc k)
unnamed_cause r cfg a l (err x) e h = (cc, λ i p m k. cc k)

wrapped_cause : (c d : Cause) (l : Str) → is c (wrap l (typed d)) ≡ same_cause c d
unfolding is
wrapped_cause c d l = refl

-- An error of GetNodeAddresses is ErrNodeUnreachable, and no other of the typed errors, where every configured sentinel is
-- silent, and ErrNoMaster alone where the first that answers PING names no master: no third way.
pub get_node_addresses-Failure :
    (r : Redis) (cfg : Config) (e : Err) → get_node_addresses r cfg ≡ err e → Failure r cfg e
unfolding get_node_addresses
get_node_addresses-Failure r cfg e h = go (reachable_sentinel r cfg.sentinel_addrs) refl h
  where
    go :
        (q : Result Str)
        → reachable_sentinel r cfg.sentinel_addrs ≡ q
        → ◌≡◌ {A = Result NodeAddresses}
            (elim q [
              | err e ↦ err (wrap (str "get node addresses") (typed node_unreachable))
              | ok a ↦
                  addresses r cfg a (
                    master_of
                      (str "get master from sentinel")
                      (r.get_master_addr a cfg.master_name))
            ])
            (err e)
        → Failure r cfg e
    go (err x) p k =
        let q : e ≡ wrap (str "get node addresses") (typed node_unreachable) = cc in
        all_silent (reachable-Silent r _ x p)
          (λ c. ap (is c) q ∙ wrapped_cause c node_unreachable _)
    go (ok a) p k =
        let (same, none_named) =
          unnamed_cause r cfg a _ (r.get_master_addr a cfg.master_name) e k in
        unnamed a (reachable_first r _ a p) none_named
          (λ c. ap (is c) same ∙ wrapped_cause c no_master _)

named_master :
    (r : Redis) (cfg : Config) (a l : Str) (m : Result (List Str)) (n : NodeAddresses)
    → r.get_master_addr a cfg.master_name ≡ m
    → addresses r cfg a (master_of l m) ≡ ok n
    → Names r cfg a n.master
unfolding master_of
named_master r cfg a l (ok (ip ∷ port ∷ more)) n h k = record {
  ip = ip;
  port = port;
  more = more;
  replied = h;
  joined = cc k;
}
named_master r cfg a l (ok (ip ∷ [])) n h k = absurd (cc)
named_master r cfg a l (ok []) n h k = absurd (cc)
named_master r cfg a l (err x) n h k = absurd (cc)

-- The master that GetNodeAddresses returns is the one that the first sentinel that answers PING names.
pub get_node_addresses-Names :
    (r : Redis) (cfg : Config) (n : NodeAddresses)
    → get_node_addresses r cfg ≡ ok n
    → (a : Str) × FirstReachable r cfg.sentinel_addrs a × Names r cfg a n.master
unfolding get_node_addresses
get_node_addresses-Names r cfg n h = go (reachable_sentinel r cfg.sentinel_addrs) refl h
  where
    go :
        (q : Result Str)
        → reachable_sentinel r cfg.sentinel_addrs ≡ q
        → ◌≡◌ {A = Result NodeAddresses}
            (elim q [
              | err e ↦ err (wrap (str "get node addresses") (typed node_unreachable))
              | ok a ↦
                  addresses r cfg a (
                    master_of
                      (str "get master from sentinel")
                      (r.get_master_addr a cfg.master_name))
            ])
            (ok n)
        → (a : Str) × FirstReachable r cfg.sentinel_addrs a × Names r cfg a n.master
    go (err x) p k = absurd (cc)
    go (ok a) p k = (
      a,
      reachable_first r _ a p,
      named_master r cfg a _ (r.get_master_addr a cfg.master_name) n refl k,
    )
