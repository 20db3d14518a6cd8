-- ===== src/V1beta3.antt =====
-- The version v1beta3 of the configuration and its defaults: pkg/apis/kubeone/v1beta3.
pub mod Types
pub mod Hosts
pub mod Network
pub mod Defaults
pub mod Defaulted
pub mod Again
pub mod Canal
