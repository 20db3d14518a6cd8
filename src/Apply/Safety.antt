-- ===== src/Apply/Safety.antt =====
-- What `runApply` does without an approval: pkg/cmd/apply.go and pkg/confirmation/confirm.go.
use kubeone.Prelude.{
  ℕ, false, Option, none, some, List, [], ◌≡◌, refl, ◌⊎◌, inl, inr, arith, Bool-cases, Option-cases,
}
use kubeone.Fail.{Error}
use kubeone.Fail.Outcome.{Outcome-cases}
use kubeone.Semver.{SemverLib}
use kubeone.Api.Cluster.{non_empty}
use kubeone.State.Context.{State, encryption_enabled}
use kubeone.Tasks.Task.{Wait, run_tasks, descriptions}
use kubeone.Tasks.Action.{Action}
use kubeone.Tasks.Common.{StateTask, with_hostname_os, with_probes_and_safeguard}
use kubeone.Tasks.Encryption.{with_rotate_key}
use kubeone.Tasks.Machines.{with_ensure_control_plane}
use kubeone.Apply.Confirm.{Terminal, approved}
use kubeone.Apply.Reconcile.{
  ApplyOpts, Decision, install, rotate_key, upgrade_if_needed, refuse, nothing, nil_fault,
  reconcile,
}
use kubeone.Apply.Upgrade.{upgrade_plan}
use kubeone.Apply.Run.{
  World, when_approved, run_apply_install, run_apply_upgrade_if_needed, run_apply_rotate_key,
  carry_out, probe_and_reconcile, managed_then_probe, validate_credentials, run_apply,
}

module _ (lib : SemverLib) (now : ℕ)
    (perform : Action → State (lib.Version) → Option Error × State (lib.Version))
    (wait : Wait (State (lib.Version) × Option Error)) where
  open lib use {Version}

  when_approved-refused :
      (t : Terminal) (opts : ApplyOpts) (plan : List (StateTask Version)) (s : State Version)
      → (approved opts.auto_approve t).0 ≡ false
      → (when_approved lib now perform wait t opts plan s).1 ≡ s
  unfolding when_approved
  when_approved-refused t opts plan s h = elim (Option-cases (approved opts.auto_approve t).1) [
    | inl quiet ↦ ground arith
    | inr (e, broken) ↦ ground arith
  ]

  upgrade-refused :
      (w : World Version) (opts : ApplyOpts) (s : State Version)
      → (approved opts.auto_approve w.second_answer).0 ≡ false
      → (run_apply_upgrade_if_needed lib now perform wait w opts s).1 ≡ s
  unfolding run_apply_upgrade_if_needed
  upgrade-refused w opts s h =
      elim (Outcome-cases (upgrade_plan lib now w.readings opts.force_upgrade s)) [
        | inl (plan, planned) ↦ ground (arith, when_approved-refused w.second_answer opts plan s h)
        | inr (inl (e, broken)) ↦ ground arith
        | inr (inr crashed) ↦ ground arith
      ]

  rotate-refused :
      (w : World Version) (opts : ApplyOpts) (s : State Version)
      → (approved opts.auto_approve w.second_answer).0 ≡ false
      → (run_apply_rotate_key lib now perform wait w opts s).1 ≡ s
  unfolding run_apply_rotate_key
  rotate-refused w opts s h = elim (Option-cases (encryption_enabled s)) [
    | inl unread ↦ ground arith
    | inr (enabled, read) ↦
        ground (arith, when_approved-refused w.second_answer opts (with_rotate_key []) s h)
  ]

  -- Whatever the decision, a question that is not answered with yes leaves the state alone.
  carry_out-refused :
      (w : World Version) (opts : ApplyOpts) (d : Decision) (s : State Version)
      → (approved opts.auto_approve w.second_answer).0 ≡ false
      → (carry_out lib now perform wait w opts d s).1 ≡ s
  unfolding carry_out run_apply_install
  carry_out-refused w opts install s h = when_approved-refused w.second_answer opts _ s h
  carry_out-refused w opts rotate_key s h = rotate-refused w opts s h
  carry_out-refused w opts upgrade_if_needed s h = upgrade-refused w opts s h
  carry_out-refused w opts (refuse e) s h = refl
  carry_out-refused w opts nothing s h = refl
  carry_out-refused w opts nil_fault s h = refl

  -- The tasks that detect the hosts, probe the cluster and check the safeguards.
  abbrev pub probing : List (StateTask Version)
  probing = with_probes_and_safeguard (with_hostname_os [])

  probe-refused :
      (w : World Version) (opts : ApplyOpts) (s : State Version)
      → (approved opts.auto_approve w.second_answer).0 ≡ false
      → (probe_and_reconcile lib now perform wait w opts s).1 ≡ (run_tasks perform wait probing s).1
  unfolding probe_and_reconcile
  probe-refused w opts s h = elim (Option-cases (run_tasks perform wait probing s).0) [
    | inl done ↦ ground (
      arith,
      carry_out-refused w opts (reconcile lib opts (run_tasks perform wait probing s).1)
          (run_tasks perform wait probing s).1 h,
    )
    | inr (e, broken) ↦ ground arith
  ]

  -- A run whose questions are not answered with yes leaves the state as it was or as detecting the
  -- hosts, probing and checking the safeguards left it: no task that changes the cluster runs,
  -- whatever the options, the credentials, the live cluster and the error that the run ends with.
  pub run_apply-refused :
      (w : World Version) (opts : ApplyOpts) (s : State Version)
      → (approved opts.auto_approve w.first_answer).0 ≡ false
      → (approved opts.auto_approve w.second_answer).0 ≡ false
      → ((run_apply lib now perform wait w opts s).1 ≡ s)
        ⊎ ((run_apply lib now perform wait w opts s).1 ≡ (run_tasks perform wait probing s).1)
  unfolding run_apply managed_then_probe
  run_apply-refused w opts s no_first no_second =
      let probed = probe-refused w opts s no_second in
      elim (Outcome-cases (validate_credentials w s)) [
        | inr (inl (e, broken)) ↦ inl (ground arith)
        | inr (inr crashed) ↦ inl (ground arith)
        | inl (some e, missing) ↦ inl (ground arith)
        | inl (none, valid) ↦
            elim (Outcome-cases (with_ensure_control_plane w.providers [] s.cluster)) [
              | inr (inl (e, broken)) ↦ inl (ground arith)
              | inr (inr crashed) ↦ inl (ground arith)
              | inl (managed, planned) ↦ elim (Bool-cases (non_empty (descriptions managed s))) [
                | inl changes ↦ inl (ground arith)
                | inr nothing_to_do ↦ inr (ground arith)
              ]
            ]
      ]
