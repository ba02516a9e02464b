-- ===== src/ClientState.antt =====
-- core/internal/clientstate: the state that a replica keeps for each client.
pub mod Seq
pub mod Reply
pub mod Provider
pub mod Tests
