-- ===== src/Tasks/Checks.antt =====
-- What a plan of tasks does before what: pkg/tasks/tasks.go.
use kubeone.Prelude.{ℕ, Bool, ◌⊎◌, inl, inr, false, Option, none, some, List, [], ◌++◌, ◌≡◌, arith}
use kubeone.Semver.{SemverLib}
use kubeone.Fail.{Error}
use kubeone.Api.Host.{HostConfig}
use kubeone.State.Context.{State}
use kubeone.Tasks.Task.{Wait, run_tasks}
use kubeone.Tasks.Stages.{Outcome, Moves, run_tasks-step}
use kubeone.Tasks.Action.{Action}
use kubeone.Tasks.Common.{
  StateTask, with_hostname_os, with_probes_and_safeguard, with_hostname_os_and_probes,
}
use kubeone.Tasks.Plans.{with_binaries_only, with_full_install, with_upgrade}
use kubeone.Tasks.Encryption.{with_disable_encryption_providers, with_rotate_key}

-- The plans that change a cluster, each started from no other tasks.
pub data Plan : Type 0 where
  binaries_only : Plan
  full_install : Plan
  upgrade : List HostConfig → List HostConfig → Plan
  disable_encryption : Bool → Plan
  rotate_key : Plan

-- What the functions of the tasks ahead of each plan make of a property: the detection of the hosts
-- and the probes keep it, and the safeguard leads on to another.
pub record Checks {S : Type 0} (perform : Action → S → Option Error × S) (P Q : S → Type 0)
    : Type 0 where
  pub hostname : Moves perform P P Action.determine_hostname
  pub os : Moves perform P P Action.determine_os
  pub probes : Moves perform P P Action.run_probes
  pub safeguard : Moves perform P Q Action.safeguard

module _ (lib : SemverLib) (now : ℕ) where
  open lib use {Version}

  unfoldable pub tasks_of : Plan → List (StateTask Version)
  tasks_of binaries_only = with_binaries_only []
  tasks_of full_install = with_full_install now []
  tasks_of (upgrade followers workers) = with_upgrade lib now [] followers workers
  tasks_of (disable_encryption custom) = with_disable_encryption_providers [] custom
  tasks_of rotate_key = with_rotate_key []

  module _ (perform : Action → State Version → Option Error × State Version)
      (wait : Wait (State Version × Option Error)) where
    -- The tasks ahead of each plan, and what follows them.
    checked :
        (F P Q R : State Version → Type 0) (ts : List (StateTask Version))
        → Checks perform P Q
        → ((s : State Version) → P s → F s)
        → ((s : State Version) → Q s → Outcome F R (run_tasks perform wait ts s))
        → (s : State Version) → P s
        → Outcome F R (run_tasks perform wait (with_hostname_os_and_probes [] ++ ts) s)
    unfolding with_hostname_os_and_probes with_hostname_os with_probes_and_safeguard
    checked F P Q R ts laws weaken rest =
        run_tasks-step perform wait F P P R _ _ _ _ _ laws.hostname weaken (
          run_tasks-step perform wait F P P R _ _ _ _ _ laws.os weaken (
            run_tasks-step perform wait F P P R _ _ _ _ _ laws.probes weaken
              (run_tasks-step perform wait F P Q R _ _ _ _ ts laws.safeguard weaken rest)))

    ended :
        (F R : State Version → Type 0) (x : Option Error × State Version)
        → ((s' : State Version) → R s' → F s')
        → Outcome F R x
        → F x.1 × (x.0 ≡ none → R x.1)
    ended F R (none, s) weaken h = (weaken s h, λ _. h)
    ended F R (some e, s) weaken h = (h, λ ok. ground (arith, ok))

    empty_run :
        (F R : State Version → Type 0) (s : State Version)
        → R s
        → Outcome F R (run_tasks perform wait [] s)
    unfolding run_tasks
    empty_run F R s h = h

    -- A rotation passes these stages: the new key is written to the configuration, the API servers
    -- have read it, and the secrets are rewritten with it. Nothing is said of the removal of the
    -- old key at a stage before the last.
    pub record Rotation (Old Written Served Rewritten : State Version → Type 0) : Type 0 where
      pub checks : Checks perform Old Old
      pub fetch : Moves perform Old Old Action.fetch_encryption_providers_file
      pub add_key : Moves perform Old Written Action.upload_encryption_configuration_with_new_key
      pub restart : Moves perform Written Served Action.restart_kube_api_server
      pub rewrite : Moves perform Served Rewritten Action.rewrite_cluster_secrets
      pub remove_key :
          Moves perform Rewritten Rewritten Action.upload_encryption_configuration_without_old_key
      pub restart_again : Moves perform Rewritten Rewritten Action.restart_kube_api_server

    -- A rotation ends in one of its stages, and in the last one if it succeeds: it removes the old
    -- key only after the new key has been uploaded, the API servers restarted and the secrets
    -- rewritten, each without an error.
    pub rotate_key-rewritten :
        (Old Written Served Rewritten : State Version → Type 0)
        → Rotation Old Written Served Rewritten
        → (s : State Version) → Old s
        → let (r, s') = run_tasks perform wait (with_rotate_key []) s in
          (Old s' ⊎ (Written s' ⊎ (Served s' ⊎ Rewritten s'))) × (r ≡ none → Rewritten s')
    unfolding with_rotate_key
    rotate_key-rewritten Old Written Served Rewritten laws s old =
        let F = λ (s' : State Version). Old s' ⊎ (Written s' ⊎ (Served s' ⊎ Rewritten s')) in
        ended F Rewritten _ (λ s' h. inr (inr (inr h)))
          (checked F Old Old Rewritten _ laws.checks (λ _ h. inl h)
            (run_tasks-step perform wait F Old Old Rewritten _ _ _ _ _ laws.fetch (λ _ h. inl h)
              (run_tasks-step perform wait F Old Written Rewritten _ _ _ _ _ laws.add_key
                (λ _ h. inl h)
                (run_tasks-step perform wait F Written Served Rewritten _ _ _ _ _ laws.restart
                  (λ _ h. inr (inl h))
                  (run_tasks-step perform wait F Served Rewritten Rewritten _ _ _ _ _ laws.rewrite
                    (λ _ h. inr (inr (inl h)))
                    (run_tasks-step perform wait F Rewritten Rewritten Rewritten _ _ _ _ _
                      laws.remove_key (λ _ h. inr (inr (inr h)))
                      (run_tasks-step perform wait F Rewritten Rewritten Rewritten _ _ _ _ []
                        laws.restart_again (λ _ h. inr (inr (inr h))) (empty_run F Rewritten)))))))
            s old)

    -- Disabling passes these stages: the configuration writes plain text first, the API servers
    -- have read it, and the secrets are rewritten in plain text. Nothing is said of the removal of
    -- the file with the keys at a stage before the last.
    pub record Disabling (Encrypted Written Served Plain : State Version → Type 0) : Type 0 where
      pub checks : Checks perform Encrypted Encrypted
      pub fetch : Moves perform Encrypted Encrypted Action.fetch_encryption_providers_file
      pub plain_first :
          Moves perform Encrypted Written Action.upload_identity_first_encryption_configuration
      pub restart : Moves perform Written Served Action.restart_kube_api_server
      pub rewrite : Moves perform Served Plain Action.rewrite_cluster_secrets
      pub remove : Moves perform Plain Plain Action.remove_encryption_provider_file

    -- Disabling an encryption that KubeOne configured ends in one of its stages, and in the last
    -- one if it succeeds: it removes the file with the keys only after the configuration that
    -- writes plain text first has been uploaded, the API servers restarted and the secrets
    -- rewritten, each without an error.
    pub disable_encryption-rewritten :
        (Encrypted Written Served Plain : State Version → Type 0)
        → Disabling Encrypted Written Served Plain
        → (s : State Version) → Encrypted s
        → let (r, s') = run_tasks perform wait (with_disable_encryption_providers [] false) s in
          (Encrypted s' ⊎ (Written s' ⊎ (Served s' ⊎ Plain s'))) × (r ≡ none → Plain s')
    unfolding with_disable_encryption_providers
    disable_encryption-rewritten Encrypted Written Served Plain laws s encrypted =
        let F = λ (s' : State Version). Encrypted s' ⊎ (Written s' ⊎ (Served s' ⊎ Plain s')) in
        ended F Plain _ (λ s' h. inr (inr (inr h)))
          (checked F Encrypted Encrypted Plain _ laws.checks (λ _ h. inl h)
            (run_tasks-step perform wait F Encrypted Encrypted Plain _ _ _ _ _ laws.fetch
              (λ _ h. inl h)
              (run_tasks-step perform wait F Encrypted Written Plain _ _ _ _ _ laws.plain_first
                (λ _ h. inl h)
                (run_tasks-step perform wait F Written Served Plain _ _ _ _ _ laws.restart
                  (λ _ h. inr (inl h))
                  (run_tasks-step perform wait F Served Plain Plain _ _ _ _ _ laws.rewrite
                    (λ _ h. inr (inr (inl h)))
                    (run_tasks-step perform wait F Plain Plain Plain _ _ _ _ [] laws.remove
                      (λ _ h. inr (inr (inr h))) (empty_run F Plain))))))
            s encrypted)
