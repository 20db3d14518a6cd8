-- ===== src/Apply/Upgrade.antt =====
-- The plan of `runApplyUpgradeIfNeeded`: pkg/cmd/apply.go, with
-- `HasEtcdMemberCountExceededControlPlane` of pkg/clusterstatus/etcdstatus/etcdstatus.go. The
-- descriptions that are printed are left out.
use kubeone.Prelude.{
  ℕ, String, Bool, true, false, not, ◌&&◌, ◌||◌, Option, none, some, List, [], length, any, ltb,
  str_eq, if◌then◌else◌,
}
use kubeone.Fail.Outcome.{Outcome, ok, err, fault, ◌>>=◌, deref}
use kubeone.Semver.{SemverLib}
use kubeone.Api.Cluster.{followers}
use kubeone.State.Cluster.{custom_encryption_enabled, authentication_config_outdated}
use kubeone.State.Versions.{Verdict, needed, up_to_date, disallowed, nil_version, upgrade_needed}
use kubeone.State.Context.{
  State, should_disable_encryption, should_enable_encryption, custom_configured, live_custom,
}
use kubeone.Tasks.Common.{StateTask, with_remove_extra_etcd_members}
use kubeone.Tasks.Resources.{with_resources}
use kubeone.Tasks.Plans.{with_upgrade}
use kubeone.Tasks.Encryption.{
  with_disable_encryption_providers, with_rewrite_secrets, with_custom_encryption_config_updated,
  with_authentication_config_updated,
}

-- What the plan reads besides the state: how many members etcd lists, if it answers; the decoded
-- text of a custom encryption configuration, equal texts standing for equal configurations; the
-- file of the authentication configuration and its checksum.
pub record Readings (V : Type 0) : Type 0 where
  pub etcd_members : State V → Option ℕ
  pub unmarshal_encryption_config : String → Outcome String
  pub load_authentication_configuration : State V → Outcome String
  pub checksum : String → String

bool_eq : Bool → Bool → Bool
bool_eq true b = b
bool_eq false b = not b

module _ {V : Type 0} where
  -- The error of the query is dropped by the caller.
  unfoldable pub has_etcd_member_count_exceeded_control_plane : Readings V → State V → Bool
  has_etcd_member_count_exceeded_control_plane w s = elim (w.etcd_members s) [
    | none ↦ false
    | some n ↦ ltb (length s.cluster.control_plane.hosts) n
  ]

  unfoldable pub authentication_configuration_enabled : State V → Bool
  authentication_configuration_enabled s = elim s.cluster.features.authentication_configuration [
    | none ↦ false
    | some f ↦ f.enable
  ]

  -- The flag `authentication-config` among those of the API server.
  unfoldable pub manual_authentication_config : State V → Bool
  manual_authentication_config s = elim s.cluster.api_server_component [
    | none ↦ false
    | some c ↦ any (λ f. str_eq f.0 "authentication-config") c.flags
  ]

  unfoldable pub with_authentication_config_if_changed :
      Readings V → State V → List (StateTask V) → Outcome (List (StateTask V))
  unfolding bool_eq
  with_authentication_config_if_changed w s t =
      let enabled = authentication_configuration_enabled s in
      if not enabled && manual_authentication_config s
      then ok t
      else if not (bool_eq enabled s.live_cluster.authentication_config_enabled)
      then ok t
      else if not enabled
      then ok t
      else do
        config ← w.load_authentication_configuration s
        ok (
            if authentication_config_outdated s.live_cluster (w.checksum config)
            then with_authentication_config_updated t
            else t)

  -- The part of the upgrade that applies a changed custom encryption configuration.
  unfoldable pub with_changed_custom_config :
      Readings V → State V → List (StateTask V) → Outcome (List (StateTask V))
  with_changed_custom_config w s t = elim s.cluster.features.encryption_providers [
    | none ↦ ok t
    | some e ↦
        if not (custom_encryption_enabled s.live_cluster && custom_configured s) then ok t else do
          config ← w.unmarshal_encryption_config e.custom_encryption_configuration
          live ← deref s.live_cluster.encryption_configuration
          running ← deref live.config
          ok (if str_eq config running then t else with_custom_encryption_config_updated t)
  ]

-- Whether the nodes want an upgrade.
abbrev pub verdict_outcome : Verdict → Outcome Bool
verdict_outcome needed = ok true
verdict_outcome up_to_date = ok false
verdict_outcome (disallowed e) = err e
verdict_outcome nil_version = fault

module _ (lib : SemverLib) (now : ℕ) where
  open lib use {Version}

  -- Encryption is disabled ahead of the upgrade.
  unfoldable pub with_disabled_encryption :
      State Version → List (StateTask Version) → Outcome (List (StateTask Version))
  with_disabled_encryption s t = do
    disables ← deref (should_disable_encryption s)
    elim disables [
      | false ↦ ok t
      | true ↦ do custom ← deref (live_custom s); ok (with_disable_encryption_providers t custom)
    ]

  unfoldable pub extra_etcd_tasks : Readings Version → State Version → List (StateTask Version)
  extra_etcd_tasks w s =
      if has_etcd_member_count_exceeded_control_plane w s
      then with_remove_extra_etcd_members []
      else []

  -- The branch that upgrades.
  unfoldable pub upgrading_plan :
      Readings Version
      → State Version
      → List (StateTask Version)
      → Outcome (List (StateTask Version))
  upgrading_plan w s t = do
    prepared ← with_disabled_encryption s t
    let upgraded = with_upgrade lib now prepared (followers s.cluster) s.cluster.static_workers
    enables ← deref (should_enable_encryption s)
    with_changed_custom_config w s (if enables then with_rewrite_secrets upgraded else upgraded)

  -- The branch that only reconciles the resources.
  unfoldable pub resources_plan :
      Readings Version
      → State Version
      → List (StateTask Version)
      → Outcome (List (StateTask Version))
  resources_plan w s t = do
    configured ← with_authentication_config_if_changed w s t
    ok (with_resources now configured)

  unfoldable pub upgrade_plan :
      Readings Version → Bool → State Version → Outcome (List (StateTask Version))
  upgrade_plan w force_upgrade s = do
    upgrades ← verdict_outcome (upgrade_needed lib s.live_cluster)
    elim (upgrades || force_upgrade) [
      | true ↦ upgrading_plan w s (extra_etcd_tasks w s)
      | false ↦ resources_plan w s (extra_etcd_tasks w s)
    ]
