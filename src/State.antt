-- ===== src/State.antt =====
-- The live state of the cluster: pkg/state.
pub mod Status
pub mod Host
pub mod Cluster
pub mod Versions
pub mod Health
pub mod Removal
pub mod Upgrade
pub mod Repair
pub mod Quorum
pub mod Context
pub mod Nodes
pub mod Parallel
pub mod Completed
