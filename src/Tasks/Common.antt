-- ===== src/Tasks/Common.antt =====
-- The shapes that the lists of tasks are built of: pkg/tasks/tasks.go.
use kubeone.Prelude.{String, Bool, none, some, List, [], ◌∷◌, ◌++◌}
use kubeone.State.Context.{State}
use kubeone.Tasks.Task.{Task}
use kubeone.Tasks.Action.{
  Action, determine_hostname, determine_os, run_probes, safeguard, generate_kubeadm,
  generate_configuration_files, upload_configuration_files, repair_cluster_if_needed,
}

abbrev pub StateTask : Type 0 → Type 0
StateTask V = Task Action (State V)

module _ {V : Type 0} where
  -- A task literal with a function and an operation; the other fields are zero.
  abbrev pub task : Action → String → StateTask V
  task fn operation = record {
    fn = fn;
    predicate = none;
    description = "";
    operation = operation;
    retries = 0;
  }

  abbrev pub described : Action → String → String → StateTask V
  described fn operation description = record {
    fn = fn;
    predicate = none;
    description = description;
    operation = operation;
    retries = 0;
  }

  abbrev pub only_if : (State V → Bool) → StateTask V → StateTask V
  only_if p t = record t { predicate = some p }

  unfoldable pub with_hostname_os : List (StateTask V) → List (StateTask V)
  with_hostname_os t =
      (task determine_hostname "detecting hostname" ∷ task determine_os "detecting OS" ∷ []) ++ t

  unfoldable pub with_probes : List (StateTask V) → List (StateTask V)
  with_probes t = t ++ (task run_probes "running probes" ∷ [])

  unfoldable pub with_probes_and_safeguard : List (StateTask V) → List (StateTask V)
  with_probes_and_safeguard t =
      t ++ (task run_probes "running probes" ∷ task safeguard "checking safeguards" ∷ [])

  unfoldable pub with_hostname_os_and_probes : List (StateTask V) → List (StateTask V)
  with_hostname_os_and_probes t = with_probes_and_safeguard (with_hostname_os t)

  unfoldable pub kubernetes_config_files : List (StateTask V)
  kubernetes_config_files =
      described generate_kubeadm "" "Generating kubeadm config files"
      ∷ described generate_configuration_files "" "Generating config files"
      ∷ described upload_configuration_files "" "Uploading config files"
      ∷ []

  unfoldable pub with_remove_extra_etcd_members : List (StateTask V) → List (StateTask V)
  with_remove_extra_etcd_members t = t ++ (task repair_cluster_if_needed "repairing cluster" ∷ [])
