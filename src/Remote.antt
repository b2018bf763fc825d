-- ===== src/Remote.antt =====
-- src/remote: R2.
pub mod Client
pub mod Retention
pub mod Scan
