-- ===== src/Tasks/Resources.antt =====
-- `WithResources` of pkg/tasks/tasks.go: what every reconciliation ends with.
use kubeone.Prelude.{ℕ, Bool, not, ◌&&◌, List, [], ◌∷◌, ◌++◌, is_empty, is_some}
use kubeone.Api.Cluster.{non_empty}
use kubeone.State.Cluster.{certs_to_expire_in_less_then_90_days}
use kubeone.State.Context.{State}
use kubeone.Tasks.Action
use kubeone.Tasks.Common.{StateTask, task, described, only_if}

module _ {V : Type 0} where
  abbrev pub has_node_sets : State V → Bool
  has_node_sets s = non_empty s.cluster.control_plane.node_sets

  abbrev pub has_ca_bundle : State V → Bool
  has_ca_bundle s = not (is_empty s.cluster.ca_bundle)

  abbrev pub is_external : State V → Bool
  is_external s = s.cluster.cloud_provider.external

  abbrev pub needs_vsphere_csi_ca_bundle : State V → Bool
  needs_vsphere_csi_ca_bundle s =
      has_ca_bundle s
      && is_some s.cluster.cloud_provider.vsphere
      && s.cluster.cloud_provider.external
      && not s.cluster.cloud_provider.disable_bundled_csi_drivers

  -- The tasks, `now` being the time at which the certificates are looked at.
  unfoldable pub resources : ℕ → List (StateTask V)
  resources now =
      only_if has_node_sets
        (task Action.ensure_load_balancer_members "adding control plane nodes to the load balancer")
      ∷ only_if has_ca_bundle (task Action.save_ca_bundle "")
      ∷ task Action.determine_pause_image "determining the pause image"
      ∷ task Action.patch_static_pods "patching static pods"
      ∷ only_if (λ s. certs_to_expire_in_less_then_90_days now s.live_cluster)
          (described Action.renew_control_plane_certs "renewing certificates"
            "renew all certificates")
      ∷ task Action.save_kubeconfig "saving kubeconfig"
      ∷ task Action.remove_super_kubeconfig "removing /etc/kubernetes/super-admin.conf"
      ∷ task Action.download_kube_pki "downloading Kubernetes PKI from the leader"
      ∷ task Action.activate_features "activating features"
      ∷ task Action.patch_core_dns "patching CoreDNS"
      ∷ only_if (λ s. is_empty s.cluster.cloud_provider.secret_provider_class_name)
          (described Action.ensure_credentials "ensuring credentials secret" "ensure credential")
      ∷ only_if has_ca_bundle (
          described Action.ensure_ca_bundle_config_map "ensuring caBundle configMap"
            "ensure caBundle configMap")
      ∷ described Action.label_nodes "labeling control-plane nodes" "labeling control-plane nodes"
      ∷ described Action.annotate_nodes "annotating control-plane nodes"
          "annotating control-plane nodes"
      ∷ described Action.cleanup_stale_objects "cleaning up any leftovers from addons"
          "clean up any leftovers from addons"
      ∷ described Action.ensure_addons "applying addons" "ensure embedded addons"
      ∷ only_if (λ s. is_some s.cluster.addons)
          (described Action.ensure_user_addons "applying addons" "ensure custom addons")
      ∷ task Action.deploy_helm "releasing core helm charts"
      ∷ only_if is_external
          (described Action.ensure_external_ccm "ensuring external CCM" "ensure external CCM")
      ∷ only_if needs_vsphere_csi_ca_bundle (
          described Action.ensure_vsphere_csi_ca_bundle_config_map
            "ensure vSphere CSI caBundle configMap" "ensure vSphere CSI caBundle configMap")
      ∷ task Action.join_static_worker_nodes "joining static worker nodes to the cluster"
      ∷ described Action.label_nodes "labeling nodes" "labeling nodes"
      ∷ described Action.annotate_nodes "annotating nodes" "annotating nodes"
      ∷ task Action.fix_file_permissions "Fix permissions of system files"
      ∷ task Action.wait_machine_controller "waiting for machine-controller"
      ∷ only_if (λ s. s.cluster.operating_system_manager.deploy)
          (task Action.wait_operating_system_manager "waiting for operating-system-manager")
      ∷ only_if (λ s. s.upgrade_machine_deployments)
          (described Action.upgrade_machine_deployments "upgrading MachineDeployments"
            "upgrade MachineDeployments")
      ∷ []

  unfoldable pub with_resources : ℕ → List (StateTask V) → List (StateTask V)
  unfolding resources
  with_resources now t = t ++ resources now
