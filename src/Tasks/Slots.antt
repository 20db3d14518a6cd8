-- ===== src/Tasks/Slots.antt =====
-- The machines and the node sets that they come from: pkg/tasks/cloud_resources_provision.go.
use kubeone.Prelude.{
  ℕ, String, length-append, zero, suc, ◌+◌, ◌<◌, ◌≤◌, some, List, [], ◌∷◌, ◌++◌, length, get_elem?,
  ◌≡◌, sym, ◌≢◌, ◌⊎◌, inl, inr, arith, Bool-cases, ◌==◌, drop, ap, refl,
}
use kubeone.Fail.Outcome.{ok, err}
use kubeone.Api.Cluster.{KubeOneCluster, NodeSet}
use kubeone.Tasks.Common.{StateTask}
use kubeone.Prelude.Int.{pos_part}
use kubeone.Fail.{plain, config}
use kubeone.Tasks.Machines.{
  replicate, ControlPlaneProvider, replica_slots, machine_node_sets, vm_task, vm_tasks,
  provider_tasks, preflight_tasks, load_balancer_tasks,
}

get_elem?-drop :
    (xs : List NodeSet) (i : ℕ)
    → i < length xs
    → (n : NodeSet) × (get_elem? xs i ≡ some n) × (drop i xs ≡ n ∷ drop (suc i) xs)
get_elem?-drop [] i lt = elim lt [ ]
get_elem?-drop (x ∷ xs) zero lt = (x, refl, refl)
get_elem?-drop (x ∷ xs) (suc i) lt = get_elem?-drop xs i (omega arith)

-- The replicas of all node sets, a negative number counting as none.
pub total_replicas : List NodeSet → ℕ
total_replicas [] = 0
total_replicas (n ∷ ns) = pos_part n.replicas + total_replicas ns

length-replicate : (k : ℕ) (n : NodeSet) → length (replicate k n) ≡ k
length-replicate zero n = refl
length-replicate (suc k) n = ap suc (length-replicate k n)

length-replica_slots : (ns : List NodeSet) → length (replica_slots ns) ≡ total_replicas ns
unfolding replica_slots total_replicas
length-replica_slots [] = refl
length-replica_slots (n ∷ ns) = omega (
  arith,
  length-append (replicate (pos_part n.replicas) n) (replica_slots ns),
  length-replicate (pos_part n.replicas) n,
  length-replica_slots ns,
)

module _ {V : Type 0} where
  -- The machines and the slots, pair by pair.
  pub paired : ControlPlaneProvider V → List NodeSet → List String → List (StateTask V)
  paired p [] ms = []
  paired p (n ∷ ns) [] = []
  paired p (n ∷ ns) (m ∷ ms) = vm_task p n m ∷ paired p ns ms

  paired-nil : (p : ControlPlaneProvider V) (ns : List NodeSet) → paired p ns [] ≡ []
  unfolding paired
  paired-nil p [] = refl
  paired-nil p (n ∷ ns) = refl

  vm_tasks-paired :
      (p : ControlPlaneProvider V) (ns : List NodeSet) (i : ℕ) (ms : List String)
      → i + length ms ≤ length ns
      → vm_tasks p ns i ms ≡ ok (paired p (drop i ns) ms)
  unfolding vm_tasks paired
  vm_tasks-paired p ns i [] le = ap ok (sym (paired-nil p (drop i ns)))
  vm_tasks-paired p ns i (m ∷ ms) le =
      let (n, at, split) = get_elem?-drop ns i (omega arith) in
      ground (arith, vm_tasks-paired p ns (suc i) ms (omega arith))

  -- Each machine that the provider generates gets one task, with the node set whose replica it is,
  -- in order, after the provider's preflight check and its load balancer. If the provider does not
  -- generate as many machines as the node sets have replicas, there is no task but a configuration
  -- error. The index into the node sets is never out of range.
  provider_tasks-paired :
      (p : ControlPlaneProvider V) (c : KubeOneCluster) (ms : List String)
      → p.generate_machines c.name c.control_plane.node_sets c.kubernetes_version ≡ ok ms
      → ((length ms ≡ total_replicas c.control_plane.node_sets)
          × (provider_tasks p c
              ≡ ok (
                  preflight_tasks p
                  ++ load_balancer_tasks p
                  ++ paired p (replica_slots c.control_plane.node_sets) ms)))
        ⊎ ((length ms ≢ total_replicas c.control_plane.node_sets)
            × (provider_tasks p c
                ≡ err (config (plain "generated machines") "mapping machines to nodeSets")))
  unfolding provider_tasks machine_node_sets
  provider_tasks-paired p c ms h =
      let slots = replica_slots c.control_plane.node_sets in
      let count = length-replica_slots c.control_plane.node_sets in
      elim (Bool-cases (length slots == length ms)) [
        | inl same ↦
            inl (ground (arith, count), ground (arith, vm_tasks-paired p slots 0 ms (ground arith)))
        | inr other ↦ inr (ground (arith, count), ground arith)
      ]
