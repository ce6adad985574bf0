-- ===== src/Wallets.antt =====
-- Wallets: src/modules/wallets.
pub mod Topup
