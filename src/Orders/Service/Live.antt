-- ===== src/Orders/Service/Live.antt =====
-- That an order is created when it can be: src/modules/orders/orders.service.ts, `createOrder`.
