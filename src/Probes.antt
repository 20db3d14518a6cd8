-- ===== src/Probes.antt =====
-- The probes of the cluster: pkg/tasks/probes.go.
pub mod Investigate
pub mod Election
