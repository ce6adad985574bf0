-- ===== src/Worker.antt =====
-- The background worker: src/worker.
pub mod Outbox
pub mod Dispatch
