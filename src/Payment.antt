-- ===== src/Payment.antt =====
-- The payment engine (rust-engine/payment-engine): the life of a payment, its rows in the database,
-- and the two handlers that initiate a payment and process a provider's callback.
pub mod Provider
pub mod Domain
pub mod Store
pub mod Repository
pub mod Initiate
pub mod Callback
pub mod Grpc
