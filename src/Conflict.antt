-- ===== src/Conflict.antt =====
-- src/conflict: what becomes of a key on which both sides disagree.
pub mod Units
pub mod Decimal
pub mod Handoff
pub mod Identity
pub mod Types
pub mod Stores
pub mod Coordinator
pub mod MergeBase
