-- ===== src/Apply/Plan.antt =====
-- What the plan of an upgrade holds: `runApplyUpgradeIfNeeded` of pkg/cmd/apply.go.
use kubeone.Prelude.{
  ℕ, Bool, true, false, List, ◌≡◌, refl, ◌⊎◌, inl, inr, arith, Bool-cases, Option-cases,
}
use kubeone.Fail.{Error}
use kubeone.Fail.Outcome.{ok, Outcome-cases}
use kubeone.Semver.{SemverLib}
use kubeone.Api.Host.{HostConfig}
use kubeone.Api.Cluster.{followers}
use kubeone.State.Versions.{Verdict, needed, up_to_date, disallowed, nil_version, upgrade_needed}
use kubeone.State.Context.{State, should_disable_encryption, should_enable_encryption, live_custom}
use kubeone.Tasks.Common.{StateTask, with_remove_extra_etcd_members, kubernetes_config_files}
use kubeone.Tasks.Plans.{with_upgrade}
use kubeone.Tasks.Encryption.{with_rewrite_secrets}
use kubeone.Apply.Upgrade.{
  Readings, with_authentication_config_if_changed, with_disabled_encryption, upgrade_plan,
  extra_etcd_tasks, upgrading_plan, resources_plan,
}
use kubeone.Apply.Leads.{
  any-append, or_true, upgrades_leader, resources-quiet, rewrite-task, disable-quiet, custom-same,
  auth-same,
}

Verdict-cases :
    (v : Verdict)
    → (v ≡ needed) ⊎ (v ≡ up_to_date) ⊎ ((e : Error) × (v ≡ disallowed e)) ⊎ (v ≡ nil_version)
Verdict-cases needed = inl refl
Verdict-cases up_to_date = inr (inl refl)
Verdict-cases (disallowed e) = inr (inr (inl (e, refl)))
Verdict-cases nil_version = inr (inr (inr refl))

module _ (lib : SemverLib) (now : ℕ) where
  open lib use {Version}

  upgrade-leads :
      (t : List (StateTask Version)) (fs ws : List HostConfig)
      → upgrades_leader (with_upgrade lib now t fs ws) ≡ true
  unfolding with_upgrade kubernetes_config_files
  upgrade-leads t fs ws = simp (any-append, or_true)

  disabled-quiet :
      (s : State Version) (t plan : List (StateTask Version))
      → with_disabled_encryption lib now s t ≡ ok plan
      → upgrades_leader plan ≡ upgrades_leader t
  unfolding with_disabled_encryption
  disabled-quiet s t plan h = elim (Option-cases (should_disable_encryption s)) [
    | inl unread ↦ ground arith
    | inr (disables, read) ↦ elim (Option-cases (live_custom s)) [
      | inl unset ↦ ground arith
      | inr (custom, set) ↦ ground (arith, disable-quiet t custom)
    ]
  ]

  extra-quiet :
      (w : Readings Version) (s : State Version)
      → upgrades_leader {V = Version} (extra_etcd_tasks lib now w s) ≡ false
  unfolding extra_etcd_tasks with_remove_extra_etcd_members
  extra-quiet w s = ground arith

  upgrading-leads :
      (w : Readings Version) (s : State Version) (t plan : List (StateTask Version))
      → upgrading_plan lib now w s t ≡ ok plan
      → upgrades_leader plan ≡ true
  unfolding upgrading_plan
  upgrading-leads w s t plan h = elim (Outcome-cases (with_disabled_encryption lib now s t)) [
    | inr (inl (e, broken)) ↦ ground arith
    | inr (inr crashed) ↦ ground arith
    | inl (prepared, done) ↦
        let upgraded =
          with_upgrade lib now prepared (followers s.cluster) s.cluster.static_workers in
        let leads = upgrade-leads prepared (followers s.cluster) s.cluster.static_workers in
        elim (Option-cases (should_enable_encryption s)) [
          | inl unread ↦ ground arith
          | inr (true, read) ↦ ground (
            arith,
            leads,
            rewrite-task upgraded,
            custom-same w s (with_rewrite_secrets upgraded) plan (ground arith),
          )
          | inr (false, read) ↦ ground (arith, leads, custom-same w s upgraded plan (ground arith))
        ]
  ]

  resources-plan-quiet :
      (w : Readings Version) (s : State Version) (t plan : List (StateTask Version))
      → resources_plan lib now w s t ≡ ok plan
      → upgrades_leader plan ≡ upgrades_leader t
  unfolding resources_plan
  resources-plan-quiet w s t plan h =
      elim (Outcome-cases (with_authentication_config_if_changed w s t)) [
        | inr (inl (e, broken)) ↦ ground arith
        | inr (inr crashed) ↦ ground arith
        | inl (configured, done) ↦
            ground (arith, auth-same w s t configured done, resources-quiet now configured)
      ]

  -- A plan upgrades the leader's control plane if the hosts need an upgrade, and if they are up to
  -- date exactly if the upgrade is forced. Otherwise, as for a host that is newer than the expected
  -- version, there is no plan, even if the upgrade is forced.
  pub upgrade_plan-upgrades_leader :
      (w : Readings Version) (force : Bool) (s : State Version) (plan : List (StateTask Version))
      → upgrade_plan lib now w force s ≡ ok plan
      → ((upgrade_needed lib s.live_cluster ≡ needed) × (upgrades_leader plan ≡ true))
        ⊎ ((upgrade_needed lib s.live_cluster ≡ up_to_date) × (upgrades_leader plan ≡ force))
  unfolding upgrade_plan
  upgrade_plan-upgrades_leader w force s plan h =
      let t = extra_etcd_tasks lib now w s in
      elim (Verdict-cases (upgrade_needed lib s.live_cluster)) [
        | inl older ↦ inl (older, upgrading-leads w s t plan (ground arith))
        | inr (inr (inl (e, newer))) ↦ ground arith
        | inr (inr (inr unknown)) ↦ ground arith
        | inr (inl same) ↦ elim (Bool-cases force) [
          | inl forced ↦ inr (same, ground (arith, upgrading-leads w s t plan (ground arith)))
          | inr unforced ↦ inr (
            same,
            ground (arith, extra-quiet w s, resources-plan-quiet w s t plan (ground arith)),
          )
        ]
      ]
