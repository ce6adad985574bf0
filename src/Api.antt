-- ===== src/Api.antt =====
-- What the controllers share: src/common/api.
pub mod Pagination
