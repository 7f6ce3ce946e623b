-- ===== src/Ledger.antt =====
-- rust-engine/ledger-query-service/src/domain/: the enumerations of the read models.
pub mod Inverse
pub mod AccountType
pub mod LiquidityPositionType
pub mod LiquidityPositionStatus
pub mod SettlementType
pub mod SettlementStatus
pub mod SuspenseCategory
pub mod SuspenseStatus
pub mod SuspenseResolutionType
pub mod TransactionType
pub mod VirtualAccountType
pub mod VirtualAccountStatus
pub mod Codes
