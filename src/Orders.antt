-- ===== src/Orders.antt =====
-- Orders of customers: src/modules/orders.
pub mod Rows
pub mod Service
