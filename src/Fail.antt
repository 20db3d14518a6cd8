-- ===== src/Fail.antt =====
-- Errors and exit codes: pkg/fail.
mod Types
pub mod Codes
pub mod Outcome
pub mod Exec
pub use Types.{
  Error, plain, runtime, etcd, kube_client, ssh, exec, connection, config, credentials,
  machine_controller, cloud, fail_with, config_validation, new_config_error, unwrap,
}
unfoldable pub use Types.{own_code, exit_code}
