-- ===== src/K8s/PodCache.antt =====
-- internal/k8s/informer.go: PodCache, the handlers of the informer, and deploymentName.
use redis_admin.Base.{
  ◌≡◌, refl, ap, ◌∙◌, inl, inr, true, false, Option, none, some, List, [], ◌∷◌, arith, Str, str,
  is_empty, eq_str, eq_str_iff, split, join_byte, Dict, lookup, insert, remove, lookup-insert,
  lookup-remove, if◌then◌else◌, Bool-cases,
}

pub record OwnerReference : Type 0 where
  pub kind : Str
  pub name : Str

pub record Pod : Type 0 where
  pub name : Str
  pub namespace : Str
  pub owner_references : List OwnerReference
  pub node_name : Str
  pub labels : Dict Str
  pub pod_ip : Str

pub record PodInfo : Type 0 where
  pub pod_name : Str
  pub namespace : Str
  pub deployment : Str
  pub node_name : Str
  pub labels : Dict Str

abbrev pub PodCache : Type 0
PodCache = Dict Pod

-- set
unfoldable pub set_pod : PodCache → Pod → PodCache
unfolding insert
set_pod cache pod = if is_empty pod.pod_ip then cache else insert pod.pod_ip pod cache

-- delete
unfoldable pub delete_pod : PodCache → Pod → PodCache
unfolding remove
delete_pod cache pod = remove pod.pod_ip cache

-- parts[:len(parts)-1]
abbrev pub without_last : List Str → List Str
without_last [] = []
without_last (p ∷ []) = []
without_last (p ∷ q ∷ ps) = p ∷ without_last (q ∷ ps)

abbrev deployment_from : List Str → Str → Str
deployment_from (p ∷ q ∷ ps) rest = join_byte b'-' (without_last (p ∷ q ∷ ps))
deployment_from _ rest = rest

-- deploymentName, by the references of the pod
unfoldable pub deployment_name : List OwnerReference → Str
unfolding eq_str split join_byte
deployment_name [] = []
deployment_name (o ∷ refs) =
    let rest = deployment_name refs in
    if eq_str o.kind (str "ReplicaSet") then deployment_from (split b'-' o.name) rest else rest

-- LookupEnriched
unfoldable pub lookup_enriched : PodCache → Str → Option PodInfo
unfolding lookup deployment_name
lookup_enriched cache ip = elim (lookup ip cache) [
  | none ↦ none
  | some pod ↦ some (record {
    pod_name = pod.name;
    namespace = pod.namespace;
    deployment = deployment_name pod.owner_references;
    node_name = pod.node_name;
    labels = pod.labels;
  })
]

-- the events of the informer
pub data PodEvent : Type 0 where
  added deleted : Pod → PodEvent
  updated : Pod → Pod → PodEvent

unfoldable pub handle : PodCache → PodEvent → PodCache
unfolding set_pod delete_pod
handle cache (added pod) = set_pod cache pod
handle cache (updated old pod) = set_pod cache pod
handle cache (deleted pod) = delete_pod cache pod

unfoldable pub handle_all : PodCache → List PodEvent → PodCache
unfolding handle
handle_all cache [] = cache
handle_all cache (e ∷ es) = handle_all (handle cache e) es

-- The reference: what the last event that has the address says of it. An update says nothing of
-- the address that the pod had before it.
unfoldable pub latest : Str → Option Pod → List PodEvent → Option Pod
unfolding eq_str
latest ip known [] = known
latest ip known (added pod ∷ es) = latest ip (if eq_str pod.pod_ip ip then some pod else known) es
latest ip known (updated old pod ∷ es) =
    latest ip (if eq_str pod.pod_ip ip then some pod else known) es
latest ip known (deleted pod ∷ es) = latest ip (if eq_str pod.pod_ip ip then none else known) es

lookup-set_pod :
    (ip : Str) (cache : PodCache) (pod : Pod)
    → is_empty ip ≡ false
    → lookup ip (set_pod cache pod) ≡ (if eq_str pod.pod_ip ip then some pod else lookup ip cache)
unfolding set_pod
lookup-set_pod ip cache pod h = elim (Bool-cases (is_empty pod.pod_ip)) [
  | inl e ↦ rw (e, nameless pod.pod_ip ip e h) refl
  | inr e ↦ rw e (lookup-insert pod.pod_ip ip pod cache)
]
  where
    nameless : (a b : Str) → is_empty a ≡ true → is_empty b ≡ false → eq_str a b ≡ false
    nameless a b e h = ground (arith, eq_str_iff a b)

-- After any events of the informer, the pod that the cache has for an address is the pod of the
-- last addition or update with that address, unless a pod with that address was deleted later.
-- In particular a pod whose address changed is still found under the old one, and the deletion of
-- a pod removes a newer pod that took over its address.
pub lookup-handle_all :
    (ip : Str) (cache : PodCache) (es : List PodEvent)
    → is_empty ip ≡ false
    → lookup ip (handle_all cache es) ≡ latest ip (lookup ip cache) es
unfolding handle_all latest
lookup-handle_all ip cache [] h = refl
lookup-handle_all ip cache (added pod ∷ es) h =
    lookup-handle_all ip (set_pod cache pod) es h
    ∙ ap (λ k. latest ip k es) (lookup-set_pod ip cache pod h)
lookup-handle_all ip cache (updated old pod ∷ es) h =
    lookup-handle_all ip (set_pod cache pod) es h
    ∙ ap (λ k. latest ip k es) (lookup-set_pod ip cache pod h)
lookup-handle_all ip cache (deleted pod ∷ es) h =
    lookup-handle_all ip (delete_pod cache pod) es h
    ∙ ap (λ k. latest ip k es) (unfold delete_pod in lookup-remove pod.pod_ip ip cache)
