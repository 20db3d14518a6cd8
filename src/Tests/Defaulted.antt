-- ===== src/Tests/Defaulted.antt =====
-- The theorems on defaults at a configuration with two hosts and a worker.
use kubeone.Prelude.{String, Bool, false, none, some, [], ◌∷◌, ◌++◌, map, ◌+◌, ◌≡◌, ◌≢◌, All}
use kubeone.Prelude.Int.{pos}
use kubeone.Api.Host.{OperatingSystemName}
use kubeone.Tests.Samples
use kubeone.V1beta3.Types.{HostConfig, KubeOneCluster}
use kubeone.V1beta3.Hosts.{leads, set_defaults_hosts}
use kubeone.V1beta3.Network.{default_cni, set_defaults_cluster_network}
use kubeone.V1beta3.Defaulted.{Reachable, ids, count_up, leaders, set_defaults_hosts-Reachable}
use kubeone.V1beta3.Again.{set_defaults_hosts-again}
use kubeone.V1beta3.Canal.{set_defaults_cluster_network-mtu}

abbrev host : String → Bool → HostConfig
host address leader = record {
  id = pos 0;
  public_address = address;
  ipv6_addresses = [];
  private_address = "";
  ssh_port = pos 0;
  ssh_username = "";
  ssh_private_key_file = "";
  ssh_cert_file = "";
  ssh_host_public_key = [];
  ssh_agent_socket = "";
  bastion = "";
  bastion_port = pos 0;
  bastion_user = "";
  bastion_host_public_key = [];
  bastion_private_key_file = "";
  hostname = address;
  is_leader = leader;
  taints = none;
  labels = [];
  annotations = [];
  kubelet = Samples.kubelet_config;
  operating_system = OperatingSystemName.unknown;
}

abbrev given : KubeOneCluster
given = record {
  name = "c";
  control_plane = record { hosts = host "a" false ∷ host "b" false ∷ []; node_sets = none };
  api_endpoint = record { host = ""; port = pos 0; alternative_names = [] };
  cloud_provider = record Samples.provider {
    aws = some (record { region = ""; control_plane = none });
  };
  kubernetes_version = "v1.35.0";
  containerd = none;
  cluster_network = record Samples.network { cni = none };
  proxy = record { http = ""; https = ""; no_proxy = "" };
  static_workers = host "w" false ∷ [];
  machine_controller = none;
  operating_system_manager = none;
  ca_bundle = "";
  certificate_authority_bundle = "";
  features = record {
    core_dns = none;
    metrics_server = none;
    static_audit_log = none;
    openid_connect = none;
    node_local_dns = none;
  };
  addons = none;
  system_packages = none;
  logging_config = record { container_log_max_size = ""; container_log_max_files = pos 0 };
  journald_system_max_use = "";
  tls_cipher_suites = record { api_server = none; etcd = none; kubelet = none };
}

abbrev done : KubeOneCluster
done = set_defaults_hosts given

some_host : given.control_plane.hosts ≢ []
some_host e = cc e

set_defaults_hosts-Reachable_example :
    (ids (done.control_plane.hosts ++ done.static_workers) ≡ count_up 0 (2 + 1))
    × All Reachable done.control_plane.hosts
    × All Reachable done.static_workers
    × (map leads done.control_plane.hosts ≡ leaders (false ∷ false ∷ []))
set_defaults_hosts-Reachable_example = set_defaults_hosts-Reachable given some_host

set_defaults_hosts-again_example : set_defaults_hosts done ≡ done
set_defaults_hosts-again_example = set_defaults_hosts-again given

set_defaults_cluster_network-mtu_example :
    (set_defaults_cluster_network given).cluster_network.cni ≡ default_cni (pos 1450) none
set_defaults_cluster_network-mtu_example = set_defaults_cluster_network-mtu given
