-- ===== src/Replication.antt =====
-- internal/replication: the lag of the replicas with its history, and the replication backlog.
pub mod Tracker
pub mod Resync
