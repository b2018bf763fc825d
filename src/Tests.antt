-- ===== src/Tests.antt =====
-- Runs of the model at concrete data, and the theorems at inputs that meet their hypotheses.
mod Plan
mod Runs
mod Cycles
mod Conflicts
mod Connections
mod History
mod Handoffs
mod Merges
mod Observations
mod Services
mod Views
mod Texts
