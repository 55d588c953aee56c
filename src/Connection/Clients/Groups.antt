-- ===== src/Connection/Clients/Groups.antt =====
-- The groups of one node's connections against a description by the whole list.
use mathlib.Core.Path.{ap₂}
use redis_admin.Base.{
  ℕ, suc, ◌+◌, ◌≡◌, refl, ap, ◌∙◌, inl, inr, Bool, true, false, Option, none, some, List, [], ◌∷◌,
  arith, Str, eq_str, eq_str_iff, Dict, lookup, insert, lookup-insert, ℤ, pos, length, map,
  if◌then◌else◌, Bool-cases,
}
use redis_admin.K8s.PodCache.{PodCache, PodInfo, lookup_enriched}
use redis_admin.Sentinel.Topology.{Role}
use redis_admin.Connection.Clients.{
  ClientInfo, Connection, max_int, touch, group, enrich_with_pod_info, total_of, values,
  node_connections, filled, source_ip,
}

-- the connections from one address
unfoldable pub from_ip : Str → List Connection → List Connection
unfolding eq_str
from_ip ip [] = []
from_ip ip (c ∷ cs) = let rest = from_ip ip cs in if eq_str c.ip ip then c ∷ rest else rest

-- the highest of the numbers and a start
unfoldable pub highest : ℤ → List ℤ → ℤ
highest top [] = top
highest top (x ∷ xs) = highest (max_int x top) xs

-- the group of an address, described by all connections from it
unfoldable pub summary : Str → List Connection → Option ClientInfo
unfolding highest
summary ip [] = none
summary ip (c ∷ cs) = some (record {
  source_addr = ip;
  pod_name = [];
  namespace = [];
  deployment = [];
  conn_count = length (c ∷ cs);
  max_idle_sec = highest (pos 0) (map (λ x. x.idle) (c ∷ cs));
  max_qbuf_bytes = highest (pos 0) (map (λ x. x.qbuf) (c ∷ cs));
})

unfoldable touch_all : Option ClientInfo → List Connection → Option ClientInfo
unfolding touch
touch_all o [] = o
touch_all o (c ∷ cs) = touch_all (some (touch c o)) cs

lookup-group :
    (ip : Str) (m : Dict ClientInfo) (cs : List Connection)
    → lookup ip (group m cs) ≡ touch_all (lookup ip m) (from_ip ip cs)
unfolding group from_ip touch_all
lookup-group ip m [] = refl
lookup-group ip m (c ∷ cs) =
    lookup-group ip (insert c.ip (touch c (lookup c.ip m)) m) cs
    ∙ ap (λ o. touch_all o (from_ip ip cs)) (lookup-insert c.ip ip (touch c (lookup c.ip m)) m)
    ∙ go (eq_str c.ip ip) refl
  where
    go :
        (t : Bool)
        → eq_str c.ip ip ≡ t
        → touch_all (if t then some (touch c (lookup c.ip m)) else lookup ip m) (from_ip ip cs)
          ≡ touch_all (lookup ip m) (if t then c ∷ from_ip ip cs else from_ip ip cs)
    go true e =
        ap (λ k. touch_all (some (touch c (lookup k m))) (from_ip ip cs)) ((eq_str_iff c.ip ip).0 e)
    go false e = refl

touch_all-some :
    (ci : ClientInfo) (cs : List Connection)
    → touch_all (some ci) cs
      ≡ some (record ci {
        conn_count = ci.conn_count + length cs;
        max_idle_sec = highest ci.max_idle_sec (map (λ x. x.idle) cs);
        max_qbuf_bytes = highest ci.max_qbuf_bytes (map (λ x. x.qbuf) cs);
      })
unfolding touch_all highest touch
touch_all-some ci [] = ap (λ n. some (record ci { conn_count = n })) (omega arith)
touch_all-some ci (c ∷ cs) =
    touch_all-some (touch c (some ci)) cs
    ∙ ap
        (λ n. some (record ci {
          conn_count = n;
          max_idle_sec = highest (max_int c.idle ci.max_idle_sec) (map (λ x. x.idle) cs);
          max_qbuf_bytes = highest (max_int c.qbuf ci.max_qbuf_bytes) (map (λ x. x.qbuf) cs);
        }))
        (omega arith)

same_ip : (ip : Str) (c : Connection) (cs ds : List Connection) → from_ip ip cs ≡ c ∷ ds → c.ip ≡ ip
unfolding from_ip
same_ip ip c [] ds h = absurd (cc)
same_ip ip c (d ∷ cs) ds h = ground (arith, eq_str_iff d.ip ip, same_ip ip c cs ds)

first_group :
    (ip : Str) (c : Connection) (l : List Connection)
    → c.ip ≡ ip
    → touch_all none (c ∷ l) ≡ summary ip (c ∷ l)
unfolding touch_all summary touch highest
first_group ip c l e =
    touch_all-some (touch c none) l
    ∙ ap₂
        (λ k n. some (record {
          source_addr = k;
          pod_name = [];
          namespace = [];
          deployment = [];
          conn_count = n;
          max_idle_sec = highest (max_int c.idle (pos 0)) (map (λ x. x.idle) l);
          max_qbuf_bytes = highest (max_int c.qbuf (pos 0)) (map (λ x. x.qbuf) l);
        }))
        e (omega arith)

touch_all-summary :
    (ip : Str) (cs l : List Connection) → from_ip ip cs ≡ l → touch_all none l ≡ summary ip l
unfolding touch_all summary
touch_all-summary ip cs [] h = refl
touch_all-summary ip cs (c ∷ l) h = first_group ip c l (same_ip ip c cs l h)

lookup_empty : (k : Str) → ◌≡◌ {A = Option ClientInfo} (lookup k []) none
unfolding lookup
lookup_empty k = refl

-- The group that fetchNodeConnections keeps for an address says of all connections from it how many
-- they are, and the highest idle time and input buffer among them, which are not below 0; there is
-- no group for an address without a connection.
pub group-summary :
    (ip : Str) (cs : List Connection) → lookup ip (group [] cs) ≡ summary ip (from_ip ip cs)
group-summary ip cs =
    lookup-group ip [] cs
    ∙ ap (λ o. touch_all o (from_ip ip cs)) (lookup_empty ip)
    ∙ touch_all-summary ip cs (from_ip ip cs) refl

abbrev pub count_of : Option ClientInfo → ℕ
count_of none = 0
count_of (some ci) = ci.conn_count

-- an assignment replaces the count that the address had
pub total_insert :
    (k : Str) (v : ClientInfo) (m : Dict ClientInfo)
    → total_of (values (insert k v m)) + count_of (lookup k m) ≡ total_of (values m) + v.conn_count
unfolding insert lookup
total_insert k v [] = omega arith
total_insert k v ((j, w) ∷ m) = elim (Bool-cases (eq_str j k)) [
  | inl e ↦ rw e (omega arith)
  | inr e ↦ rw e (omega (arith, total_insert k v m))
]

count_touch : (c : Connection) (o : Option ClientInfo) → (touch c o).conn_count ≡ suc (count_of o)
unfolding touch
count_touch c none = refl
count_touch c (some ci) = omega arith

total_touch :
    (c : Connection) (k : Str) (m : Dict ClientInfo)
    → total_of (values (insert k (touch c (lookup k m)) m)) ≡ suc (total_of (values m))
total_touch c k m =
    omega (arith, total_insert k (touch c (lookup k m)) m, count_touch c (lookup k m))

total_group :
    (m : Dict ClientInfo) (cs : List Connection)
    → total_of (values (group m cs)) ≡ total_of (values m) + length cs
unfolding group
total_group m [] = omega arith
total_group m (c ∷ cs) =
    omega (arith, total_group (insert c.ip (touch c (lookup c.ip m)) m) cs, total_touch c c.ip m)

count_enriched :
    (cache : Option PodCache) (ci : ClientInfo)
    → (enrich_with_pod_info cache ci).conn_count ≡ ci.conn_count
unfolding enrich_with_pod_info
count_enriched none ci = refl
count_enriched (some cache) ci = go (lookup_enriched cache (source_ip ci.source_addr))
  where
    go : (p : Option PodInfo) → (filled ci p).conn_count ≡ ci.conn_count
    go none = refl
    go (some p) = refl

total_enriched :
    (cache : Option PodCache) (cis : List ClientInfo)
    → total_of (map (enrich_with_pod_info cache) cis) ≡ total_of cis
total_enriched cache [] = refl
total_enriched cache (ci ∷ cis) = omega (arith, count_enriched cache ci, total_enriched cache cis)

-- No connection of a node is lost or counted twice: Total is the number of the connections that
-- the loop does not skip, and so is the sum over the clients that are returned.
node_connections_total :
    (cache : Option PodCache) (addr : Str) (role : Role) (cs : List Connection)
    → ((node_connections cache addr role cs).total ≡ length cs)
      × (total_of (node_connections cache addr role cs).clients ≡ length cs)
unfolding node_connections
node_connections_total cache addr role cs = (
  omega (arith, total_group [] cs),
  omega (arith, total_group [] cs, total_enriched cache (values (group [] cs))),
)
