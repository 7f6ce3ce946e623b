-- ===== src/Audit.antt =====
-- The audit engine (rust-engine/audit).
pub mod Records
pub mod Repository
pub mod Handler
pub mod Merkle
