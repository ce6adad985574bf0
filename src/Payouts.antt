-- ===== src/Payouts.antt =====
-- Paying settlements out: src/modules/settlements.
pub mod Store
pub mod Client
pub mod Service
pub mod Runs
pub mod Withdrawals
