-- ===== src/Storage.antt =====
-- src/storage: the access log.
pub mod Entry
pub mod Logger
