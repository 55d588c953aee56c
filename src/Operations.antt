-- ===== src/Operations.antt =====
-- internal/operations: the audit log, the configuration of the nodes, and the failover.
pub mod Audit
pub mod ConfigDiff
pub mod SetConfig
pub mod Failover
pub mod Notify
