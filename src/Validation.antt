-- ===== src/Validation.antt =====
-- The validation of a configuration: pkg/apis/kubeone/validation/validation.go.
pub mod Field
pub mod Hosts
pub mod Network
pub mod Features
pub mod Accepted
pub mod Endpoint
pub mod Machines
pub mod Gce
pub mod Provider
pub mod Single
pub mod Named
pub mod Creatable
pub mod Droplets
