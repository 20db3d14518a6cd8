-- ===== src/Tasks/Machines.antt =====
-- The control plane machines that KubeOne creates itself: pkg/tasks/cloud_resources_provision.go and
-- `MachineNodeSets` of pkg/cloudprovider/provider.go.
use kubeone.Prelude.{
  ℕ, zero, suc, String, Bool, not, Option, none, some, List, [], ◌∷◌, ◌++◌, length, get_elem?, join,
  ◌==◌, if◌then◌else◌,
}
use kubeone.Prelude.Int.{pos_part}
use kubeone.Fail.{plain, config}
use kubeone.Fail.Outcome.{Outcome, ok, err, ◌>>=◌, deref}
use kubeone.Api.Cluster.{KubeOneCluster, NodeSet}
use kubeone.State.Context.{State}
use kubeone.Tasks.Action
use kubeone.Tasks.Common.{StateTask, task, described, only_if}
use kubeone.Tasks.Resources.{has_node_sets}

-- The interfaces ControlPlaneCloudProvider, Preflighter and LoadBalancerProvider, with the last two
-- present if the provider has them. A machine is its name here.
pub record ControlPlaneProvider (V : Type 0) : Type 0 where
  pub name : String
  pub enabled : State V → Bool
  pub matches_config : KubeOneCluster → Bool
  pub generate_machines : String → List NodeSet → String → Outcome (List String)
  pub preflight : Bool
  pub has_load_balancer : Option (State V → Bool)

abbrev pub replicate : {A : Type 0} → ℕ → A → List A
replicate zero a = []
replicate (suc n) a = a ∷ replicate n a

-- Each node set as many times as it has replicas.
unfoldable pub replica_slots : List NodeSet → List NodeSet
replica_slots [] = []
replica_slots (n ∷ ns) = replicate (pos_part n.replicas) n ++ replica_slots ns

unfoldable pub machine_node_sets : List String → List NodeSet → Outcome (List NodeSet)
machine_node_sets machines node_sets =
    let out = replica_slots node_sets in
    if not (length out == length machines)
    then err (config (plain "generated machines") "mapping machines to nodeSets")
    else ok out

module _ {V : Type 0} where
  unfoldable pub preflight_tasks : ControlPlaneProvider V → List (StateTask V)
  preflight_tasks p =
      if not p.preflight
      then []
      else (record (only_if p.enabled (
            task (Action.provider_preflight p.name)
              (join "checking existing " (join p.name " resources")))) { retries = 3 }
          ∷ [])

  unfoldable pub load_balancer_tasks : ControlPlaneProvider V → List (StateTask V)
  load_balancer_tasks p = elim p.has_load_balancer [
    | none ↦ []
    | some has ↦
        only_if has (
          described (Action.ensure_provider_load_balancer p.name) ""
            (join "Ensure " (join p.name " load balancer")))
        ∷ []
  ]

  abbrev pub vm_task : ControlPlaneProvider V → NodeSet → String → StateTask V
  vm_task p node_set machine = only_if p.enabled (
      described (Action.ensure_vm p.name node_set machine) ""
        (join "Ensure " (join p.name (join " control-plane " (join machine " VM")))))

  -- The loop over the machines, from index `i`; an index out of range is a fault.
  unfoldable pub vm_tasks :
      ControlPlaneProvider V → List NodeSet → ℕ → List String → Outcome (List (StateTask V))
  vm_tasks p node_sets i [] = ok []
  vm_tasks p node_sets i (m ∷ ms) = do
    node_set ← deref (get_elem? node_sets i)
    rest ← vm_tasks p node_sets (suc i) ms
    ok (vm_task p node_set m ∷ rest)

  unfoldable pub provider_tasks :
      ControlPlaneProvider V → KubeOneCluster → Outcome (List (StateTask V))
  provider_tasks p cluster = do
    machines ←
        p.generate_machines cluster.name cluster.control_plane.node_sets cluster.kubernetes_version
    node_sets ← machine_node_sets machines cluster.control_plane.node_sets
    vms ← vm_tasks p node_sets 0 machines
    ok (preflight_tasks p ++ load_balancer_tasks p ++ vms)

  -- The loop ends after the first provider that matches.
  unfoldable pub matching_tasks :
      List (ControlPlaneProvider V) → KubeOneCluster → Outcome (List (StateTask V))
  matching_tasks [] cluster = ok []
  matching_tasks (p ∷ ps) cluster =
      if not (p.matches_config cluster) then matching_tasks ps cluster else provider_tasks p cluster

  unfoldable pub with_ensure_control_plane :
      List (ControlPlaneProvider V)
      → List (StateTask V)
      → KubeOneCluster
      → Outcome (List (StateTask V))
  with_ensure_control_plane providers steps cluster = do
    machines ← matching_tasks providers cluster
    ok (
        steps
        ++ machines
        ++ (only_if has_node_sets (task Action.default_cluster "defaulting cluster hosts") ∷ []))
