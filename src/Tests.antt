-- ===== src/Tests.antt =====
-- The theorems at concrete inputs, and the concrete databases and platforms that this takes.
pub mod Amounts
pub mod Orders
pub mod Access
pub mod Webhooks
pub mod Topups
pub mod Placing
pub mod Payouts
pub mod Refunds
pub mod Verified
pub mod Checkouts
pub mod Throttle
pub mod Pages
pub mod Worker
