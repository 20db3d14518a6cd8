-- ===== src/Tasks/Action.antt =====
-- The functions that the tasks of pkg/tasks/tasks.go, upgrade_follower.go and
-- upgrade_static_workers.go run, by name: those of pkg/tasks and of other packages under their own
-- names, the function literals under what they do.
use kubeone.Prelude.{String}
use kubeone.Api.Host.{HostConfig}
use kubeone.Api.Cluster.{NodeSet}

pub data Action : Type 0 where
  determine_hostname determine_os run_probes safeguard : Action
  install_prerequisites disable_nm_cloud_setup : Action
  generate_kubeadm generate_configuration_files upload_configuration_files : Action
  kubeadm_preflight_checks pre_pull_images : Action
  leader_certs download_kube_pki upload_kube_pki follower_certs : Action
  init_kubernetes_leader build_kubernetes_clientset approve_leader_csr : Action
  repair_cluster_if_needed remove_joining_load_balancer_members join_controlplane_node : Action
  restart_kube_api_server restart_kubelets_and_approve_csrs create_machine_deployments : Action
  ensure_load_balancer_members save_ca_bundle determine_pause_image patch_static_pods : Action
  renew_control_plane_certs save_kubeconfig remove_super_kubeconfig activate_features : Action
  patch_core_dns ensure_credentials ensure_ca_bundle_config_map label_nodes : Action
  annotate_nodes cleanup_stale_objects ensure_addons ensure_user_addons deploy_helm : Action
  ensure_external_ccm ensure_vsphere_csi_ca_bundle_config_map join_static_worker_nodes : Action
  fix_file_permissions wait_machine_controller wait_operating_system_manager : Action
  upgrade_machine_deployments upload_kubeadm_to_config_maps run_preflight_checks : Action
  upgrade_leader update_all_kubelets migrate_pvc_allocated_resource_status : Action
  prune_images_on_all_nodes cleanup_kubernetes_tmp : Action
  remove_lb_services remove_volumes destroy_workers destroy_control_plane_machines : Action
  destroy_control_plane_load_balancer reset_all_nodes remove_binaries_all_nodes : Action
  remove_encryption_provider_file rewrite_cluster_secrets fetch_encryption_providers_file : Action
  upload_identity_first_encryption_configuration : Action
  upload_encryption_configuration_with_new_key : Action
  upload_encryption_configuration_without_old_key : Action
  update_authentication_config : Action
  upgrade_follower : HostConfig → Action
  upgrade_static_worker : HostConfig → Action
  default_cluster : Action
  -- The methods of the provider with this name, `EnsureVM` of the machine with the second name.
  provider_preflight : String → Action
  ensure_provider_load_balancer : String → Action
  ensure_vm : String → NodeSet → String → Action
