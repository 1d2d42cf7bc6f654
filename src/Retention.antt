-- ===== src/Retention.antt =====
-- The Retention Manager (internal/core/retention.go, and Retention, GFS, Artifact of model.go):
-- the policy, the partition that `Forget` computes, and pruning against a storage.
pub mod Policy
pub mod Periods
pub mod Forget
pub mod Prune
pub mod Orphans
