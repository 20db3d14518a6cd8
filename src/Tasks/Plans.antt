-- ===== src/Tasks/Plans.antt =====
-- The lists of tasks of an installation, an upgrade and a reset: pkg/tasks/tasks.go,
-- pkg/tasks/upgrade_follower.go and pkg/tasks/upgrade_static_workers.go.
use kubeone.Prelude.{ℕ, Bool, false, not, ◌&&◌, none, some, List, [], ◌∷◌, ◌++◌, map, join, ◌==◌}
use kubeone.Semver.{SemverLib}
use kubeone.Api.Host.{HostConfig}
use kubeone.State.Cluster.{cluster_is_provisioned}
use kubeone.State.Context.{State}
use kubeone.Tasks.Action
use kubeone.Tasks.Common.{
  StateTask, task, described, only_if, with_hostname_os_and_probes, kubernetes_config_files,
}
use kubeone.Tasks.Resources.{has_node_sets, is_external, with_resources}

module _ {V : Type 0} where
  unfoldable pub with_binaries_only : List (StateTask V) → List (StateTask V)
  with_binaries_only t =
      with_hostname_os_and_probes t
      ++ (task Action.install_prerequisites "installing prerequisites" ∷ [])

  -- From the prerequisites to the kubeadm configuration.
  abbrev pub prepare : List (StateTask V)
  prepare =
      task Action.disable_nm_cloud_setup "disabling nm-cloud-setup"
      ∷ task Action.install_prerequisites "installing prerequisites"
      ∷ []

  -- From the preflight checks to the joined control plane.
  abbrev pub bootstrap : List (StateTask V)
  bootstrap =
      task Action.kubeadm_preflight_checks "kubeadm preflight checks"
      ∷ task Action.pre_pull_images "pre-pull images"
      ∷ task Action.leader_certs "provisioning certificates on the leader"
      ∷ task Action.download_kube_pki "downloading Kubernetes PKI from the leader"
      ∷ task Action.upload_kube_pki "uploading Kubernetes PKI"
      ∷ task Action.follower_certs "provisioning certificates on the followers"
      ∷ task Action.init_kubernetes_leader "initializing kubernetes on leader"
      ∷ task Action.build_kubernetes_clientset "building kubernetes clientset"
      ∷ task Action.approve_leader_csr "approving leader's kubelet CSR"
      ∷ task Action.repair_cluster_if_needed "repairing cluster"
      ∷ only_if has_node_sets (
          task Action.remove_joining_load_balancer_members
            "removing joining control plane nodes from the load balancer")
      ∷ task Action.join_controlplane_node "joining followers control plane nodes"
      ∷ task Action.restart_kube_api_server "restarting unhealthy kube-apiserver"
      ∷ []

  unfoldable pub with_full_install : ℕ → List (StateTask V) → List (StateTask V)
  with_full_install now t =
      with_hostname_os_and_probes t
      ++ prepare
      ++ kubernetes_config_files
      ++ bootstrap
      ++ with_resources now []
      ++ (only_if is_external (
            task Action.restart_kubelets_and_approve_csrs
              "removing old and approving new kubelet CSRs")
          ∷ only_if (λ s. not (cluster_is_provisioned s.live_cluster))
              (task Action.create_machine_deployments "creating worker machines")
          ∷ [])

  unfoldable pub generate_upgrade_followers_tasks : List HostConfig → List (StateTask V)
  generate_upgrade_followers_tasks hosts =
      map
        (λ h.
          described (Action.upgrade_follower h) "upgrading follower control plane"
            (join "upgrading " (join h.private_address " follower control plane")))
        hosts

  unfoldable pub generate_upgrade_static_workers_tasks : List HostConfig → List (StateTask V)
  generate_upgrade_static_workers_tasks hosts =
      map
        (λ h.
          described (Action.upgrade_static_worker h) "upgrading static worker nodes"
            (join "upgrading " (join h.private_address " static worker node")))
        hosts

  unfoldable pub with_reset : List (StateTask V) → List (StateTask V)
  with_reset t =
      t
      ++ (only_if (λ s. s.remove_lb_services)
            (task Action.remove_lb_services "remove load balancer services")
          ∷ only_if (λ s. s.remove_volumes)
              (task Action.remove_volumes "remove dynamically provisioned and unretained volumes")
          ∷ task Action.destroy_workers "destroying workers"
          ∷ task Action.destroy_control_plane_machines "destroying control plane machines"
          ∷ task Action.destroy_control_plane_load_balancer "destroying control plane load balancer"
          ∷ task Action.reset_all_nodes "resetting all nodes"
          ∷ task Action.remove_binaries_all_nodes "removing kubernetes binaries from nodes"
          ∷ [])

module _ (lib : SemverLib) where
  open lib use {Version, new_version, minor}

  -- A target version that does not parse panics here. It never gets here: the probes, which run
  -- before in the same list, fail on it.
  unfoldable pub migrates_pvcs : State Version → Bool
  migrates_pvcs s = elim (new_version s.cluster.kubernetes_version) [
    | none ↦ false
    | some target ↦ elim s.live_cluster.control_plane [
      | [] ↦ false
      | h ∷ _ ↦ elim h.kubelet.version [
        | none ↦ false
        | some v ↦ minor target == 31 && minor v == 30
      ]
    ]
  ]

  unfoldable pub with_upgrade :
      ℕ → List (StateTask Version) → List HostConfig → List HostConfig → List (StateTask Version)
  with_upgrade now t followers static_workers =
      with_hostname_os_and_probes t
      ++ kubernetes_config_files
      ++ (task Action.build_kubernetes_clientset "building kubernetes clientset"
          ∷ task Action.upload_kubeadm_to_config_maps "updating kubeadm configmaps"
          ∷ record (task Action.run_preflight_checks "checking preflight safetynet") { retries = 1 }
          ∷ task Action.upgrade_leader "upgrading leader control plane"
          ∷ [])
      ++ generate_upgrade_followers_tasks followers
      ++ (task Action.download_kube_pki "downloading Kubernetes PKI from the leader" ∷ [])
      ++ with_resources now []
      ++ (task Action.restart_kube_api_server "restarting unhealthy kube-apiserver" ∷ [])
      ++ generate_upgrade_static_workers_tasks static_workers
      ++ (task Action.update_all_kubelets "upgrading kubelets"
          ∷ only_if migrates_pvcs (
              described Action.migrate_pvc_allocated_resource_status "migrating PVCs"
                "migrate PVCs with AllocatedResourceStatuses")
          ∷ only_if (λ s. s.prune_images)
              (described Action.prune_images_on_all_nodes "deleting unused container images"
                "delete unused container images")
          ∷ described Action.cleanup_kubernetes_tmp "cleanup /etc/kubernetes/tmp"
              "delete temporary files from /etc/kubernetes/tmp"
          ∷ [])
