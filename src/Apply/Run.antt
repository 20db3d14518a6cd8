-- ===== src/Apply/Run.antt =====
-- `runApply` as a whole: pkg/cmd/apply.go, with `validateCredentials` of pkg/cmd/shared.go. What is
-- printed is left out.
use kubeone.Prelude.{ℕ, not, ◌&&◌, Option, none, some, List, [], is_some, if◌then◌else◌}
use kubeone.Fail.{Error, config_validation, plain, config}
use kubeone.Fail.Outcome.{Outcome, ok, err, fault, ◌>>=◌, deref}
use kubeone.Semver.{SemverLib}
use kubeone.Api.Cloud.{CloudProviderSpec}
use kubeone.Api.Cluster.{non_empty}
use kubeone.State.Context.{State, encryption_enabled}
use kubeone.Tasks.Task.{Wait, run_tasks, descriptions}
use kubeone.Tasks.Action.{Action}
use kubeone.Tasks.Common.{StateTask, with_hostname_os, with_probes_and_safeguard}
use kubeone.Tasks.Plans.{with_binaries_only, with_full_install}
use kubeone.Tasks.Encryption.{with_rotate_key}
use kubeone.Tasks.Machines.{ControlPlaneProvider, with_ensure_control_plane}
use kubeone.Apply.Confirm.{Terminal, approved}
use kubeone.Apply.Reconcile.{
  ApplyOpts, Decision, install, rotate_key, upgrade_if_needed, refuse, nothing, nil_fault,
  reconcile,
}
use kubeone.Apply.Upgrade.{Readings, upgrade_plan}

-- The three kinds of credentials that a provider can have.
pub data CredentialsType : Type 0 where
  universal : CredentialsType
  machine_controller : CredentialsType
  ccm : CredentialsType

-- What a run of the program meets: the credentials that the environment or the file has for a
-- provider, the registered providers of control plane machines, what the terminal answers to the
-- first and to the second question, and what the upgrade plan reads.
pub record World (V : Type 0) : Type 0 where
  pub provider_credentials : CloudProviderSpec → CredentialsType → Option Error
  pub providers : List (ControlPlaneProvider V)
  pub first_answer : Terminal
  pub second_answer : Terminal
  pub readings : Readings V

abbrev pub rotation_needs_force : Error
rotation_needs_force =
    config (plain "rotating encryption keys requires the --force-upgrade flag") "validation"

abbrev pub rotation_needs_encryption : Error
rotation_needs_encryption =
    config (plain "rotating encryption keys failed: Encryption Providers support is not enabled")
      "validation"

-- The switch with its three cases that fall through to one another.
abbrev pub credentials_error : Option Error → Option Error → Option Error → Option Error
credentials_error universal_err mc_err ccm_err =
    if is_some universal_err && is_some mc_err && is_some ccm_err
    then config_validation universal_err
    else if not (is_some mc_err) && is_some ccm_err && is_some universal_err
    then config_validation universal_err
    else if not (is_some ccm_err) && is_some mc_err && is_some universal_err
    then config_validation universal_err
    else none

module _ {V : Type 0} where
  unfoldable pub validate_credentials : World V → State V → Outcome (Option Error)
  validate_credentials w s = do
    mc ← deref s.cluster.machine_controller
    let found = w.provider_credentials s.cluster.cloud_provider
    let mc_err = if mc.deploy then found machine_controller else none
    ok (credentials_error (found universal) mc_err (found ccm))

module _ (lib : SemverLib) (now : ℕ)
    (perform : Action → State (lib.Version) → Option Error × State (lib.Version))
    (wait : Wait (State (lib.Version) × Option Error)) where
  open lib use {Version}

  abbrev pub run : List (StateTask Version) → State Version → Outcome (Unit {0}) × State Version
  run ts s =
      let (r, s') = run_tasks perform wait ts s in (elim r [ none ↦ ok tt | some e ↦ err e ], s')

  -- A plan that runs only if the question is answered with yes. The second part is the state that
  -- the command leaves, whatever its outcome.
  unfoldable pub when_approved :
      Terminal
      → ApplyOpts
      → List (StateTask Version)
      → State Version
      → Outcome (Unit {0}) × State Version
  when_approved t opts plan s =
      let (approval, e) = approved opts.auto_approve t in
      elim e [
        | some broken ↦ (err broken, s)
        | none ↦ if not approval then (ok tt, s) else run plan s
      ]

  unfoldable pub run_apply_install :
      World Version → ApplyOpts → State Version → Outcome (Unit {0}) × State Version
  run_apply_install w opts s =
      when_approved w.second_answer opts
        (if opts.no_init then with_binaries_only [] else with_full_install now []) s

  unfoldable pub run_apply_upgrade_if_needed :
      World Version → ApplyOpts → State Version → Outcome (Unit {0}) × State Version
  run_apply_upgrade_if_needed w opts s =
      elim (upgrade_plan lib now w.readings opts.force_upgrade s) [
        | fault ↦ (fault, s)
        | err e ↦ (err e, s)
        | ok plan ↦ when_approved w.second_answer opts plan s
      ]

  unfoldable pub run_apply_rotate_key :
      World Version → ApplyOpts → State Version → Outcome (Unit {0}) × State Version
  run_apply_rotate_key w opts s =
      if not opts.force_upgrade
      then (err rotation_needs_force, s)
      else elim (encryption_enabled s) [
        | none ↦ (fault, s)
        | some enabled ↦
            if not enabled
            then (err rotation_needs_encryption, s)
            else when_approved w.second_answer opts (with_rotate_key []) s
      ]

  -- The function that the decision calls.
  unfoldable pub carry_out :
      World Version → ApplyOpts → Decision → State Version → Outcome (Unit {0}) × State Version
  carry_out w opts install s = run_apply_install w opts s
  carry_out w opts rotate_key s = run_apply_rotate_key w opts s
  carry_out w opts upgrade_if_needed s = run_apply_upgrade_if_needed w opts s
  carry_out w opts (refuse e) s = (err e, s)
  carry_out w opts nothing s = (ok tt, s)
  carry_out w opts nil_fault s = (fault, s)

  abbrev pub run_reconcile :
      World Version → ApplyOpts → State Version → Outcome (Unit {0}) × State Version
  run_reconcile w opts s = carry_out w opts (reconcile lib opts s) s

  unfoldable pub probe_and_reconcile :
      World Version → ApplyOpts → State Version → Outcome (Unit {0}) × State Version
  probe_and_reconcile w opts s =
      let (r, s') = run_tasks perform wait (with_probes_and_safeguard (with_hostname_os [])) s in
      elim r [ some e ↦ (err e, s') | none ↦ run_reconcile w opts s' ]

  -- The changes of a managed control plane, if any task of it has a description. The error of the
  -- question is dropped: it counts as a no.
  unfoldable pub managed_then_probe :
      World Version
      → ApplyOpts
      → List (StateTask Version)
      → State Version
      → Outcome (Unit {0}) × State Version
  managed_then_probe w opts managed s =
      if not (non_empty (descriptions managed s))
      then probe_and_reconcile w opts s
      else if not (approved opts.auto_approve w.first_answer).0
      then (ok tt, s)
      else let (r, s') = run_tasks perform wait managed s in
        elim r [ some e ↦ (err e, s') | none ↦ probe_and_reconcile w opts s' ]

  unfoldable pub run_apply :
      World Version → ApplyOpts → State Version → Outcome (Unit {0}) × State Version
  run_apply w opts s = elim (validate_credentials w s) [
    | fault ↦ (fault, s)
    | err e ↦ (err e, s)
    | ok (some e) ↦ (err e, s)
    | ok none ↦ elim (with_ensure_control_plane w.providers [] s.cluster) [
      | fault ↦ (fault, s)
      | err e ↦ (err e, s)
      | ok managed ↦ managed_then_probe w opts managed s
    ]
  ]
