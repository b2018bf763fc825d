-- ===== src/Executor/Resolutions/Keeping.antt =====
-- What `resolveKeepLocal` of src/sync/executor.ts writes and commits.
