-- ===== src/Messaging.antt =====
-- rust-engine/messaging-engine/src: messages to subscribers through the operators' gateways.
pub mod Domain
pub mod Handler
pub mod RateLimit
pub mod DeliveryLog
