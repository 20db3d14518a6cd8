-- ===== src/Tests/Runs.antt =====
-- The theorems on tasks and plans at concrete values.
use kubeone.Prelude.{
  ℕ, suc, true, false, arith, Option, none, some, [], ◌∷◌, ◌≡◌, ◌≢◌, ◌⊎◌, refl, ◌==◌, if◌then◌else◌,
}
use kubeone.Fail.{Error, plain, exit_code}
use kubeone.Fail.Outcome.{ok}
use kubeone.State.Context.{State}
use kubeone.Tasks.Task.{Task, run_tasks}
use kubeone.Tasks.Runs.{exit_code-run_tasks}
use kubeone.Tasks.Action.{Action}
use kubeone.Tasks.Encryption.{with_rotate_key, with_disable_encryption_providers}
use kubeone.Tasks.Checks.{
  Checks, Rotation, rotate_key-rewritten, Disabling, disable_encryption-rewritten,
}
use kubeone.Tasks.Machines.{ControlPlaneProvider}
use kubeone.Tests.Library.{minors, retrying}
use kubeone.Tests.Samples.{state, degraded}

-- A function named `n` fails until the counter has reached `n`; each call adds one.
abbrev climb : ℕ → ℕ → Option Error × ℕ
climb n s = if n == s then (none, suc s) else (some (plain "not yet"), suc s)

abbrev climb_to : ℕ → Task ℕ ℕ
climb_to n = record {
  fn = n;
  predicate = none;
  description = "climb";
  operation = "climbing";
  retries = 3;
}

exit_code-run_tasks_example :
    (((run_tasks climb retrying (climb_to 9 ∷ []) 0).0 ≡ none)
      × (exit_code (run_tasks climb retrying (climb_to 9 ∷ []) 0).0 ≡ 0))
    ⊎ (((run_tasks climb retrying (climb_to 9 ∷ []) 0).0 ≢ none)
        × (exit_code (run_tasks climb retrying (climb_to 9 ∷ []) 0).0 ≡ 10))
exit_code-run_tasks_example = exit_code-run_tasks climb retrying (climb_to 9 ∷ []) 0

abbrev unsafe : Action → State ℕ → Option Error × State ℕ
unsafe Action.safeguard s = (some (plain "unsafe"), s)
unsafe a s = (none, s)

abbrev stage : State ℕ → ℕ
stage s = s.live_cluster.expected_kubernetes_version

abbrev to_stage : ℕ → State ℕ → Option Error × State ℕ
to_stage n s =
    (none, record s { live_cluster = record s.live_cluster { expected_kubernetes_version = n } })

-- The stages of a cluster whose encryption is changed: 34 at first, 1 with the new configuration
-- written, 2 with it read, 3 with the secrets rewritten, 9 with secrets that nobody can read.
abbrev encrypting : Action → State ℕ → Option Error × State ℕ
encrypting Action.upload_encryption_configuration_with_new_key s = to_stage 1 s
encrypting Action.upload_identity_first_encryption_configuration s = to_stage 1 s
encrypting Action.restart_kube_api_server s = to_stage (if stage s == 1 then 2 else stage s) s
encrypting Action.rewrite_cluster_secrets s = to_stage (if stage s == 2 then 3 else stage s) s
encrypting Action.upload_encryption_configuration_without_old_key s =
    to_stage (if stage s == 3 then 3 else 9) s
encrypting Action.remove_encryption_provider_file s = to_stage (if stage s == 3 then 3 else 9) s
encrypting a s = (none, s)

abbrev At : ℕ → State ℕ → Type 0
At n s = stage s ≡ n

harmless : Checks encrypting (At 34) (At 34)
harmless = record { hostname = λ s h. h; os = λ s h. h; probes = λ s h. h; safeguard = λ s h. h }

rotating : Rotation minors 0 encrypting retrying (At 34) (At 1) (At 2) (At 3)
rotating = record {
  checks = harmless;
  fetch = λ s h. h;
  add_key = λ s h. refl;
  restart = λ s h. ground (arith, h);
  rewrite = λ s h. ground (arith, h);
  remove_key = λ s h. ground (arith, h);
  restart_again = λ s h. ground (arith, h);
}

rotate_key-rewritten_example :
    let (r, s') = run_tasks encrypting retrying (with_rotate_key []) (state degraded) in
    (At 34 s' ⊎ (At 1 s' ⊎ (At 2 s' ⊎ At 3 s'))) × (r ≡ none → At 3 s')
rotate_key-rewritten_example =
    rotate_key-rewritten minors 0 encrypting retrying (At 34) (At 1) (At 2) (At 3) rotating
      (state degraded) refl

disabling : Disabling minors 0 encrypting retrying (At 34) (At 1) (At 2) (At 3)
disabling = record {
  checks = harmless;
  fetch = λ s h. h;
  plain_first = λ s h. refl;
  restart = λ s h. ground (arith, h);
  rewrite = λ s h. ground (arith, h);
  remove = λ s h. ground (arith, h);
}

disable_encryption-rewritten_example :
    let (r, s') =
      run_tasks encrypting retrying (with_disable_encryption_providers [] false) (state degraded) in
    (At 34 s' ⊎ (At 1 s' ⊎ (At 2 s' ⊎ At 3 s'))) × (r ≡ none → At 3 s')
disable_encryption-rewritten_example =
    disable_encryption-rewritten minors 0 encrypting retrying (At 34) (At 1) (At 2) (At 3) disabling
      (state degraded) refl

abbrev two_machines : ControlPlaneProvider ℕ
two_machines = record {
  name = "sample";
  enabled = λ _. true;
  matches_config = λ _. true;
  generate_machines = λ _ _ _. ok ("pool-0" ∷ "pool-1" ∷ []);
  preflight = true;
  has_load_balancer = none;
}
