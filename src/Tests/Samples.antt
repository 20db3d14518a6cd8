-- ===== src/Tests/Samples.antt =====
-- Concrete hosts and clusters: three control plane hosts, one of which may have a failed API
-- server, and a static worker.
use kubeone.Prelude.{ℕ, String, Bool, true, false, none, some, [], ◌∷◌}
use kubeone.Prelude.Int.{pos}
use kubeone.Api.Host.{HostConfig, KubeletConfig, ubuntu}
use kubeone.Api.Cloud.{CloudProviderSpec}
use kubeone.Api.Network.{ClusterNetworkConfig, ipv4}
use kubeone.Api.Features.{Features}
use kubeone.Api.Cluster.{KubeOneCluster, NodeSet}
use kubeone.State.Status.{ComponentStatus, ContainerStatus}
use kubeone.State.Host.{Host}
use kubeone.State.Cluster.{Cluster}
use kubeone.State.Context.{State}
use kubeone.Apply.Reconcile.{ApplyOpts}

abbrev pub kubelet_config : KubeletConfig
kubelet_config = record {
  system_reserved = [];
  kube_reserved = [];
  eviction_hard = [];
  max_pods = none;
  pod_pids_limit = none;
  image_gc_high_threshold_percent = none;
  image_gc_low_threshold_percent = none;
  image_minimum_gc_age = pos 0;
  image_maximum_gc_age = pos 0;
}

abbrev pub host_config : String → Bool → HostConfig
host_config name is_leader = record {
  id = pos 0;
  public_address = name;
  ipv6_addresses = [];
  private_address = name;
  ssh_port = pos 22;
  ssh_username = "root";
  ssh_private_key_file = "key";
  ssh_cert_file = "";
  ssh_host_public_key = [];
  ssh_agent_socket = "";
  bastion = "";
  bastion_port = pos 22;
  bastion_user = "";
  bastion_host_public_key = [];
  bastion_private_key_file = "";
  hostname = name;
  is_leader = is_leader;
  taints = [];
  labels = [];
  annotations = [];
  kubelet = kubelet_config;
  operating_system = ubuntu;
}

-- Installed, active, running and initialized at a version.
abbrev pub component : String → ℕ → ComponentStatus ℕ
component name version = record { version = some version; status = 120; name = name }

abbrev pub container : Bool → ContainerStatus
container true = record { status = 128 }
container false = record { status = 0 }

-- A host by its name, whether its API server and its etcd member run, and its version.
abbrev pub live_host : String → Bool → Bool → Bool → ℕ → Host ℕ
live_host name is_leader api etcd version = record {
  config = host_config name is_leader;
  kernel_release = component "kernel" version;
  containerd = component "containerd" version;
  kubelet = component "kubelet" version;
  api_server = container api;
  etcd = container etcd;
  earliest_cert_expiry = none;
  authentication_config_checksum = "";
  is_in_cluster = true;
  kubeconfig = [];
}

abbrev pub live : Bool → ℕ → Cluster ℕ
live third_api version = record {
  expected_kubernetes_version = 34;
  control_plane =
      live_host "a" true true true version
      ∷ live_host "b" false true true version
      ∷ live_host "c" false third_api true version
      ∷ [];
  static_workers = live_host "w" false false false version ∷ [];
  encryption_configuration = some (record { enable = false; config = none; custom = false });
  ccm_cluster_name = "";
  authentication_config_enabled = false;
}

-- The third API server has failed.
abbrev pub degraded : Cluster ℕ
degraded = live false 34

-- Healthy, and one minor version behind.
abbrev pub outdated : Cluster ℕ
outdated = live true 33

abbrev pub provider : CloudProviderSpec
provider = record {
  external = true;
  disable_bundled_csi_drivers = false;
  cloud_config = "";
  csi_config = "";
  secret_provider_class_name = "";
  aws = none;
  azure = none;
  digital_ocean = none;
  gce = none;
  hetzner = some (record { network_id = ""; control_plane = none });
  kubevirt = none;
  nutanix = none;
  openstack = none;
  equinix_metal = none;
  vmware_cloud_director = none;
  vsphere = none;
  none_spec = none;
}

abbrev pub network : ClusterNetworkConfig
network = record {
  pod_subnet = "10.244.0.0/16";
  pod_subnet_ipv6 = "";
  service_subnet = "10.96.0.0/12";
  service_subnet_ipv6 = "";
  service_domain_name = "cluster.local";
  node_port_range = "30000-32767";
  cni = none;
  kube_proxy = none;
  ip_family = ipv4;
  node_cidr_mask_size_ipv4 = some (pos 24);
  node_cidr_mask_size_ipv6 = none;
  cluster_dns = [];
}

abbrev pub features : Features
features = record {
  core_dns = none;
  event_rate_limit = none;
  pod_node_selector = none;
  static_audit_log = none;
  webhook_audit_log = none;
  openid_connect = none;
  authentication_configuration = none;
  encryption_providers = none;
  node_local_dns = none;
}

abbrev pub node_set : NodeSet
node_set = record {
  name = "pool";
  replicas = pos 2;
  generation = pos 0;
  operating_system = ubuntu;
  cloud_provider_spec = "";
}

abbrev pub cluster : KubeOneCluster
cluster = record {
  name = "sample";
  control_plane = record {
    hosts = host_config "a" true ∷ host_config "b" false ∷ host_config "c" false ∷ [];
    node_sets = node_set ∷ [];
  };
  api_endpoint = record { host = "a"; port = pos 6443; alternative_names = [] };
  cloud_provider = provider;
  kubernetes_version = "1.34.0";
  cluster_network = network;
  static_workers = host_config "w" false ∷ [];
  dynamic_workers = [];
  machine_controller = some (record { deploy = true });
  operating_system_manager = record { deploy = true };
  ca_bundle = "";
  features = features;
  addons = none;
  registry_configuration = none;
  api_server_component = none;
}

abbrev pub state : Cluster ℕ → State ℕ
state live_cluster = record {
  cluster = cluster;
  live_cluster = live_cluster;
  verbose = false;
  remove_volumes = false;
  remove_lb_services = false;
  force_upgrade = false;
  force_install = false;
  prune_images = false;
  upgrade_machine_deployments = false;
  create_machine_deployments = true;
}

abbrev pub no_options : ApplyOpts
no_options = record {
  auto_approve = false;
  no_init = false;
  force_install = false;
  force_upgrade = false;
  upgrade_machine_deployments = false;
  prune_images = false;
  create_machine_deployments = true;
  rotate_encryption_key = false;
}
