-- ===== src/Apply.antt =====
-- `kubeone apply`: pkg/cmd/apply.go and pkg/confirmation.
pub mod Confirm
pub mod Reconcile
pub mod Decisions
pub mod Upgrade
pub mod Run
pub mod Safety
pub mod Leads
pub mod Plan
