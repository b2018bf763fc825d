-- ===== src/History.antt =====
-- src/history: the sync history.
pub mod Retention
