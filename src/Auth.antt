-- ===== src/Auth.antt =====
-- The guards in front of the controllers: src/modules/auth.
pub mod Guards
pub mod Throttle
