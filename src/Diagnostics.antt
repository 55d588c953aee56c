-- ===== src/Diagnostics.antt =====
-- internal/diagnostics: the slow commands, the stale locks, the memory and the pipelines of the nodes.
pub mod Slowlog
pub mod Locks
pub mod Memory
pub mod Pipeline
