-- ===== src/Tests.antt =====
-- Concrete clusters, hosts and libraries, and the theorems at them.
mod Samples
mod Library
pub mod Hosts
pub mod Runs
pub mod Applies
pub mod Repairs
pub mod Configs
pub mod Rotations
pub mod Servers
pub mod Documents
pub mod Secrets
pub mod Releases
pub mod Balancers
pub mod Defaulted
pub mod Providers
