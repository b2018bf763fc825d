-- ===== src/Local.antt =====
-- The Vault side: src/local.
pub mod Folders
pub mod Reading
pub mod Drift
