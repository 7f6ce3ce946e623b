-- ===== src/Session.antt =====
-- The session reconstructor (rust-engine/session-reconstructor): the fold of a session's events
-- into its state, the verification of their hash chain, the cached reconstruction, and the Merkle
-- proof of one event.
pub mod State
pub mod Integrity
pub mod Merkle
pub mod Reconstruct
pub mod Grpc
