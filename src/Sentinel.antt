-- ===== src/Sentinel.antt =====
-- internal/sentinel: the quorum check, the topology, the event bus, the flapping detector and the listeners.
pub mod Quorum
pub mod Topology
pub mod EventBus
pub mod Flapping
pub mod Listener
