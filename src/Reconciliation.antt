-- ===== src/Reconciliation.antt =====
-- rust-engine/reconciliation-engine/src: the comparison of the platform's transactions with a
-- provider's statement.
pub mod Domain
pub mod Matching
pub mod Run
pub mod Schema
pub mod Store
pub mod Resolution
pub mod Listing
