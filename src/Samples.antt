-- ===== src/Samples.antt =====
-- Small inputs on which the definitions run, and the theorems at these inputs.
mod Cluster
mod Services
mod Endpoints
mod Streams
mod Handlers
mod EventStreams
mod Replicas
mod Start
mod Seeded
mod Listeners
