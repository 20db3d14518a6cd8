-- ===== src/V1beta3/Types.antt =====
-- The types that defaulting reads or writes: pkg/apis/kubeone/v1beta3/types.go. A slice that is
-- tested against nil is an option. Types with the same fields as in pkg/apis/kubeone/types.go are
-- taken from there, and fields that defaulting does not touch are left out.
use kubeone.Prelude.{ℕ, String, Bool, Option, List}
use kubeone.Prelude.Int.{ℤ}
use kubeone.Api.Host.{KubeletConfig, OperatingSystemName}
use kubeone.Api.Cloud.{CloudProviderSpec}
use kubeone.Api.Network.{ClusterNetworkConfig}
use kubeone.Api.Features.{CoreDns, StaticAuditLog, NodeLocalDns}
use kubeone.Api.Cluster.{
  ApiEndpoint, HelmRelease, MachineControllerConfig, OperatingSystemManagerConfig,
}

pub record Taint : Type 0 where
  pub key : String
  pub effect : String

pub record HostConfig : Type 0 where
  pub id : ℤ
  pub public_address : String
  pub ipv6_addresses : List String
  pub private_address : String
  pub ssh_port : ℤ
  pub ssh_username : String
  pub ssh_private_key_file : String
  pub ssh_cert_file : String
  pub ssh_host_public_key : List ℕ
  pub ssh_agent_socket : String
  pub bastion : String
  pub bastion_port : ℤ
  pub bastion_user : String
  pub bastion_host_public_key : List ℕ
  pub bastion_private_key_file : String
  pub hostname : String
  pub is_leader : Bool
  pub taints : Option (List Taint)
  pub labels : List (String × String)
  pub annotations : List (String × String)
  pub kubelet : KubeletConfig
  pub operating_system : OperatingSystemName

pub record SshSpec : Type 0 where
  pub public_keys : List String
  pub port : ℤ
  pub username : String
  pub private_key_file : String
  pub cert_file : String
  pub host_public_key : List ℕ
  pub agent_socket : String
  pub bastion : String
  pub bastion_port : ℤ
  pub bastion_user : String
  pub bastion_host_public_key : List ℕ

-- The taints are those of the node settings.
pub record NodeSet : Type 0 where
  pub name : String
  pub replicas : ℤ
  pub generation : ℤ
  pub taints : Option (List Taint)
  pub operating_system : OperatingSystemName
  pub ssh : SshSpec
  pub cloud_provider_spec : String

pub record ControlPlaneConfig : Type 0 where
  pub hosts : List HostConfig
  pub node_sets : Option (List NodeSet)

pub record ProxyConfig : Type 0 where
  pub http : String
  pub https : String
  pub no_proxy : String

pub record LoggingConfig : Type 0 where
  pub container_log_max_size : String
  pub container_log_max_files : ℤ

pub record MetricsServer : Type 0 where
  pub enable : Bool

pub record SystemPackages : Type 0 where
  pub configure_repositories : Bool

-- `Enable` and the fields of the configuration.
pub record OpenIdConnect : Type 0 where
  pub enable : Bool
  pub issuer_url : String
  pub client_id : String
  pub username_claim : String
  pub username_prefix : String
  pub groups_claim : String
  pub groups_prefix : String
  pub required_claim : String
  pub signing_algs : String
  pub ca_file : String

pub record Features : Type 0 where
  pub core_dns : Option CoreDns
  pub metrics_server : Option MetricsServer
  pub static_audit_log : Option StaticAuditLog
  pub openid_connect : Option OpenIdConnect
  pub node_local_dns : Option NodeLocalDns

-- A release and its timeout in nanoseconds.
pub record TimedRelease : Type 0 where
  pub release : HelmRelease
  pub wait_timeout : ℤ

-- An addon is its release, if it has one.
pub record Addons : Type 0 where
  pub path : String
  pub addons : List (Option TimedRelease)

pub record TlsCipherSuites : Type 0 where
  pub api_server : Option (List String)
  pub etcd : Option (List String)
  pub kubelet : Option (List String)

-- `containerd` is `DeviceOwnershipFromSecurityContext` of a runtime that is configured.
pub record KubeOneCluster : Type 0 where
  pub name : String
  pub control_plane : ControlPlaneConfig
  pub api_endpoint : ApiEndpoint
  pub cloud_provider : CloudProviderSpec
  pub kubernetes_version : String
  pub containerd : Option (Option Bool)
  pub cluster_network : ClusterNetworkConfig
  pub proxy : ProxyConfig
  pub static_workers : List HostConfig
  pub machine_controller : Option MachineControllerConfig
  pub operating_system_manager : Option OperatingSystemManagerConfig
  pub ca_bundle : String
  pub certificate_authority_bundle : String
  pub features : Features
  pub addons : Option Addons
  pub system_packages : Option SystemPackages
  pub logging_config : LoggingConfig
  pub journald_system_max_use : String
  pub tls_cipher_suites : TlsCipherSuites
