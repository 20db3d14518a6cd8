-- ===== src/State/Context.antt =====
-- The state that the tasks share, and what it says about encryption at rest:
-- pkg/state/context.go. Clients, connections and paths are left out.
use kubeone.Prelude.{
  String, Bool, true, false, not, ◌&&◌, ◌||◌, Option, none, some, is_empty, if◌then◌else◌,
}
use kubeone.Api.Cluster.{KubeOneCluster}
use kubeone.State.Cluster.{Cluster}

pub record State (V : Type 0) : Type 0 where
  pub cluster : KubeOneCluster
  pub live_cluster : Cluster V
  pub verbose : Bool
  pub remove_volumes : Bool
  pub remove_lb_services : Bool
  pub force_upgrade : Bool
  pub force_install : Bool
  pub prune_images : Bool
  pub upgrade_machine_deployments : Bool
  pub create_machine_deployments : Bool

-- A result that is `none` where the program reads through a nil pointer.
abbrev pub and_then : Bool → Option Bool → Option Bool
and_then true r = r
and_then false r = some false

module _ {V : Type 0} where
  -- `Features.EncryptionProviders != nil && Features.EncryptionProviders.Enable`
  unfoldable pub wants_encryption : State V → Bool
  wants_encryption s = elim s.cluster.features.encryption_providers [
    | none ↦ false
    | some e ↦ e.enable
  ]

  -- `LiveCluster.EncryptionConfiguration.Enable`, a read through a pointer.
  unfoldable pub live_encryption : State V → Option Bool
  live_encryption s = elim s.live_cluster.encryption_configuration [
    | none ↦ none
    | some e ↦ some e.enable
  ]

  unfoldable pub live_not_encrypted : State V → Option Bool
  live_not_encrypted s = elim s.live_cluster.encryption_configuration [
    | none ↦ none
    | some e ↦ some (not e.enable)
  ]

  unfoldable pub should_disable_encryption : State V → Option Bool
  should_disable_encryption s = and_then (not (wants_encryption s)) (live_encryption s)

  unfoldable pub should_enable_encryption : State V → Option Bool
  should_enable_encryption s = and_then (wants_encryption s) (live_not_encrypted s)

  unfoldable pub encryption_enabled : State V → Option Bool
  encryption_enabled s = and_then (wants_encryption s) (live_encryption s)

  unfoldable pub custom_configured : State V → Bool
  custom_configured s = elim s.cluster.features.encryption_providers [
    | none ↦ false
    | some e ↦ not (is_empty e.custom_encryption_configuration)
  ]

  unfoldable pub live_custom : State V → Option Bool
  live_custom s = elim s.live_cluster.encryption_configuration [
    | none ↦ none
    | some e ↦ some e.custom
  ]

  unfoldable pub get_encryption_provider_config_name : State V → Option String
  get_encryption_provider_config_name s = elim (should_enable_encryption s) [
    | none ↦ none
    | some enabling ↦ elim (live_custom s) [
      | none ↦ none
      | some custom ↦ some (
          if enabling && custom_configured s || custom
          then "custom-encryption-providers.yaml"
          else "encryption-providers.yaml")
    ]
  ]
