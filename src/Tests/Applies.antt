-- ===== src/Tests/Applies.antt =====
-- The theorems on `kubeone apply` at concrete values.
use kubeone.Prelude.{ℕ, true, false, Option, none, some, List, [], ◌≡◌, ◌⊎◌, refl}
use kubeone.Fail.{Error}
use kubeone.Fail.Outcome.{ok}
use kubeone.State.Versions.{needed, up_to_date, upgrade_needed, compare_hosts}
use kubeone.State.Context.{
  State, should_disable_encryption, wants_encryption, live_encryption, should_enable_encryption,
}
use kubeone.Tasks.Task.{run_tasks}
use kubeone.Tasks.Action.{Action}
use kubeone.Tasks.Common.{StateTask}
use kubeone.Tasks.Plans.{with_upgrade}
use kubeone.Api.Cluster.{followers}
use kubeone.Apply.Confirm.{Terminal, approved}
use kubeone.Apply.Upgrade.{
  Readings, upgrade_plan, extra_etcd_tasks, has_etcd_member_count_exceeded_control_plane,
  upgrading_plan, with_disabled_encryption, with_changed_custom_config,
}
use kubeone.Apply.Leads.{upgrades_leader}
use kubeone.Apply.Plan.{upgrade_plan-upgrades_leader}
use kubeone.Apply.Run.{World, run_apply}
use kubeone.Apply.Safety.{probing, run_apply-refused}
use kubeone.Tests.Library.{minors, retrying}
use kubeone.Tests.Samples.{state, outdated, no_options, cluster}

abbrev readings : Readings ℕ
readings = record {
  etcd_members = λ _. some 3;
  unmarshal_encryption_config = λ t. ok t;
  load_authentication_configuration = λ _. ok "";
  checksum = λ t. t;
}

abbrev no : Terminal
no = record { is_terminal = true; line = some "no" }

abbrev world : World ℕ
world = record {
  provider_credentials = λ _ _. none;
  providers = [];
  first_answer = no;
  second_answer = no;
  readings = readings;
}

abbrev succeed : Action → State ℕ → Option Error × State ℕ
succeed a s = (none, s)

run_apply-refused_example :
    ((run_apply minors 0 succeed retrying world no_options (state outdated)).1 ≡ state outdated)
    ⊎ ((run_apply minors 0 succeed retrying world no_options (state outdated)).1
        ≡ (run_tasks succeed retrying (probing minors 0 succeed retrying) (state outdated)).1)
unfolding approved
run_apply-refused_example =
    run_apply-refused minors 0 succeed retrying world no_options (state outdated) refl refl

-- One minor version behind, three etcd members: the plan is the upgrade alone.
abbrev upgrade_only : List (StateTask ℕ)
upgrade_only = with_upgrade minors 0 [] (followers cluster) cluster.static_workers

upgrade_plan-upgrades_leader_example :
    ((upgrade_needed minors outdated ≡ needed) × (upgrades_leader upgrade_only ≡ true))
    ⊎ ((upgrade_needed minors outdated ≡ up_to_date) × (upgrades_leader upgrade_only ≡ false))
unfolding upgrade_plan upgrade_needed compare_hosts extra_etcd_tasks
    has_etcd_member_count_exceeded_control_plane upgrading_plan with_disabled_encryption
    should_disable_encryption wants_encryption live_encryption should_enable_encryption
    with_changed_custom_config
upgrade_plan-upgrades_leader_example =
    upgrade_plan-upgrades_leader minors 0 readings false (state outdated) upgrade_only refl
