-- ===== src/Payments.antt =====
-- Payments: src/modules/payments.
pub mod Machine
pub mod Refunds
pub mod Rows
pub mod Verification
pub mod Repayment
pub mod Initialization
pub mod Webhook
