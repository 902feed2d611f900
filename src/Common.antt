-- ===== src/Common.antt =====
-- What all routes share: src/common and the filters and interceptors around the handlers.
pub mod Idempotency
