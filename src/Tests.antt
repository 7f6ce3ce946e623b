-- ===== src/Tests.antt =====
-- Runs of the models on concrete inputs, and the instances of the crates' interfaces that they take.
mod Common
mod Audit
mod AuditHandler
mod Session
mod SessionGrpc
mod Payment
mod PaymentGrpc
mod Reconciliation
mod ReconciliationStore
mod Messaging
mod DeliveryLog
