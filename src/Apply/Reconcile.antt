-- ===== src/Apply/Reconcile.antt =====
-- What `kubeone apply` decides once it has probed the cluster: `runApply` of pkg/cmd/apply.go.
use kubeone.Prelude.{Bool, true, not, none, some, any, if◌then◌else◌}
use kubeone.Fail.{Error, plain, runtime, config, new_config_error}
use kubeone.Semver.{SemverLib}
use kubeone.Api.Cluster.{non_empty}
use kubeone.State.Cluster.{Cluster, cluster_is_provisioned, cluster_healthy, broken_hosts}
use kubeone.State.Versions.{safe_to_repair}
use kubeone.State.Context.{State, encryption_enabled, custom_configured}

pub record ApplyOpts : Type 0 where
  pub auto_approve : Bool
  pub no_init : Bool
  pub force_install : Bool
  pub force_upgrade : Bool
  pub upgrade_machine_deployments : Bool
  pub prune_images : Bool
  pub create_machine_deployments : Bool
  pub rotate_encryption_key : Bool

-- How `runApply` ends: by one of the three functions that plan tasks, with an error, without
-- doing anything, or by reading through a nil pointer.
pub data Decision : Type 0 where
  install : Decision
  rotate_key : Decision
  upgrade_if_needed : Decision
  refuse : Error → Decision
  nothing : Decision
  nil_fault : Decision

abbrev pub needs_healthy : Error
needs_healthy = runtime (plain "cluster is not healthy") "checking encryption key rotation"

abbrev pub no_repair_with_upgrade : Error
no_repair_with_upgrade =
    config (plain "repair and upgrade are not supported at the same time") "validation"

abbrev pub broken_found : Error
broken_found = new_config_error "broken hosts check" "broken host(s) found, remove it manually"

abbrev pub encryption_not_enabled : Error
encryption_not_enabled = config (plain "encryption Providers support is not enabled") "validation"

abbrev pub custom_not_supported : Error
custom_not_supported =
    config (plain "key rotation of custom providers file is not supported") "validation"

module _ (lib : SemverLib) where
  open lib use {Version}

  -- The two loops that look for a host that is not in the cluster.
  unfoldable pub run_repair : Cluster Version → Bool
  run_repair c =
      if any (λ h. not h.is_in_cluster) c.control_plane
      then true
      else any (λ h. not h.is_in_cluster) c.static_workers

  -- The branch of an unhealthy cluster.
  unfoldable pub unhealthy_branch : ApplyOpts → State Version → Decision
  unhealthy_branch opts s =
      if opts.rotate_encryption_key
      then refuse needs_healthy
      else if not (safe_to_repair lib s.live_cluster s.cluster.kubernetes_version).0
      then refuse no_repair_with_upgrade
      else if run_repair s.live_cluster
      then install
      else if non_empty (broken_hosts s.live_cluster)
      then refuse broken_found
      else nothing

  unfoldable pub rotate_branch : State Version → Decision
  rotate_branch s = elim (encryption_enabled s) [
    | none ↦ nil_fault
    | some enabled ↦
        if not enabled
        then refuse encryption_not_enabled
        else if custom_configured s
        then refuse custom_not_supported
        else rotate_key
  ]

  unfoldable pub reconcile : ApplyOpts → State Version → Decision
  reconcile opts s =
      if not (cluster_is_provisioned s.live_cluster)
      then install
      else if not (cluster_healthy s.live_cluster)
      then unhealthy_branch opts s
      else if opts.rotate_encryption_key
      then rotate_branch s
      else upgrade_if_needed
