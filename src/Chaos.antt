-- ===== src/Chaos.antt =====
-- internal/chaos: test keys on the master, and failovers without checks.
pub mod Seed
pub mod Flush
pub mod Trigger
