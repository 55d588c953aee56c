-- ===== src/Connection.antt =====
-- internal/connection: the connections of the nodes by client, what is suspicious among them, and
-- how the reads are spread over the replicas.
pub mod Clients
pub mod Analysis
pub mod Distribution
