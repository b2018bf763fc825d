-- ===== src/Sync.antt =====
-- The decision layer of src/sync.
pub mod Types
pub mod Fingerprint
pub mod Planner
pub mod Text
pub mod Merge
pub mod RemoteDelta
