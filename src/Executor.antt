-- ===== src/Executor.antt =====
-- src/sync/executor.ts: one planned operation, carried out against the Vault, R2 and the baselines.
pub mod Result
pub mod Effects
pub mod Triples
pub mod Calls
pub mod Steps
pub mod Transfers
pub mod Downloads
pub mod Deletes
pub mod Resolutions
pub mod Execute
