-- ===== src/Keys.antt =====
-- internal/keys: what is learnt of the keys of the nodes by SCAN.
pub mod Walk
pub mod Scanner
pub mod Ttl
pub mod Hotkey
pub mod Pages
