-- ===== src/K8s.antt =====
-- internal/k8s/informer.go: the cache from the address of a pod to the pod, which the informer's
-- events keep. A pod is what the source reads of it.
pub mod PodCache
