-- ===== src/Api.antt =====
-- The configuration API: pkg/apis/kubeone.
pub mod Host
pub mod Cloud
pub mod Network
pub mod Features
pub mod Cluster
pub mod Subnet
