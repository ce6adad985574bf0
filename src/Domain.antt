-- ===== src/Domain.antt =====
-- The pure rules of the business: src/domain.
pub mod Money
pub mod Pricing
pub mod Refunds
pub mod Settlements
pub mod Spoons
pub mod Cutoffs
pub mod PaymentEvents
pub mod Authorization
pub mod AdminPermissions
pub mod Promotions
pub mod TopupFee
pub mod OrderStatus
pub mod Routes
