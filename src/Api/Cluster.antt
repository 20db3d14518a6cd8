-- ===== src/Api/Cluster.antt =====
-- The KubeOneCluster configuration: pkg/apis/kubeone/types.go and pkg/apis/kubeone/helpers.go.
use kubeone.Prelude.{
  String, Bool, true, false, not, ◌||◌, Option, none, some, List, [], ◌∷◌, ◌++◌, any, keep, str_eq,
  is_empty, if◌then◌else◌,
}
use kubeone.Prelude.Int.{ℤ}
use kubeone.Fail.{Error, plain, config}
use kubeone.Api.Host.{HostConfig, OperatingSystemName}
use kubeone.Api.Cloud.{CloudProviderSpec}
use kubeone.Api.Network.{ClusterNetworkConfig, IpFamily}
use kubeone.Api.Features.{Features}

-- The raw JSON of the provider is a text here.
pub record NodeSet : Type 0 where
  pub name : String
  pub replicas : ℤ
  pub generation : ℤ
  pub operating_system : OperatingSystemName
  pub cloud_provider_spec : String

pub record ControlPlaneConfig : Type 0 where
  pub hosts : List HostConfig
  pub node_sets : List NodeSet

pub record ApiEndpoint : Type 0 where
  pub host : String
  pub port : ℤ
  pub alternative_names : List String

pub record DynamicWorkerConfig : Type 0 where
  pub name : String
  pub replicas : Option ℤ
  pub network_ip_family : Option (Option IpFamily)

pub record MachineControllerConfig : Type 0 where
  pub deploy : Bool

pub record OperatingSystemManagerConfig : Type 0 where
  pub deploy : Bool

pub record RegistryConfiguration : Type 0 where
  pub overwrite_registry : String
  pub insecure_registry : Bool

pub record Addon : Type 0 where
  pub name : String
  pub params : List (String × String)
  pub disable_templating : Bool
  pub delete : Bool

pub record HelmRelease : Type 0 where
  pub chart : String
  pub repo_url : String
  pub chart_url : String
  pub version : String
  pub release_name : String
  pub namespace : String

pub record AddonRef : Type 0 where
  pub addon : Option Addon
  pub helm_release : Option HelmRelease

pub record Addons : Type 0 where
  pub path : String
  pub addons : List AddonRef

pub record ControlPlaneComponentConfig : Type 0 where
  pub flags : List (String × String)
  pub feature_gates : List (String × Bool)

-- Defaulting and the validation read through the pointer `OperatingSystemManager` without a check,
-- so it is no option here. The fields that only templates print are left out.
pub record KubeOneCluster : Type 0 where
  pub name : String
  pub control_plane : ControlPlaneConfig
  pub api_endpoint : ApiEndpoint
  pub cloud_provider : CloudProviderSpec
  pub kubernetes_version : String
  pub cluster_network : ClusterNetworkConfig
  pub static_workers : List HostConfig
  pub dynamic_workers : List DynamicWorkerConfig
  pub machine_controller : Option MachineControllerConfig
  pub operating_system_manager : OperatingSystemManagerConfig
  pub ca_bundle : String
  pub features : Features
  pub addons : Option Addons
  pub registry_configuration : Option RegistryConfiguration
  pub api_server_component : Option ControlPlaneComponentConfig

-- The first host that is marked as the leader.
unfoldable pub find_leader : List HostConfig → Option HostConfig
find_leader [] = none
find_leader (h ∷ hs) = if h.is_leader then some h else find_leader hs

unfoldable pub leader : KubeOneCluster → Option HostConfig × Option Error
unfolding find_leader
leader c = elim (find_leader c.control_plane.hosts) [
  | none ↦ (none, some (config (plain "not found") "leader"))
  | some h ↦ (some h, none)
]

unfoldable pub followers : KubeOneCluster → List HostConfig
followers c = keep (λ h. not h.is_leader) c.control_plane.hosts

unfoldable pub is_managed_node : KubeOneCluster → String → Bool
is_managed_node c name =
    any (λ h. str_eq h.hostname name) (c.control_plane.hosts ++ c.static_workers)

abbrev pub non_empty : {A : Type 0} → List A → Bool
non_empty [] = false
non_empty (x ∷ xs) = true

unfoldable pub addons_enabled : Option Addons → Bool
addons_enabled none = false
addons_enabled (some ads) = not (is_empty ads.path) || non_empty ads.addons

unfoldable pub declared_addons_only : List AddonRef → List Addon
declared_addons_only [] = []
declared_addons_only (r ∷ rs) =
    let rest = declared_addons_only rs in elim r.addon [ none ↦ rest | some a ↦ a ∷ rest ]

unfoldable pub only_helm_releases : List AddonRef → List HelmRelease
only_helm_releases [] = []
only_helm_releases (r ∷ rs) =
    let rest = only_helm_releases rs in elim r.helm_release [ none ↦ rest | some a ↦ a ∷ rest ]

unfoldable pub image_registry : Option RegistryConfiguration → String → String
image_registry none default_registry = default_registry
image_registry (some r) default_registry =
    if not (is_empty r.overwrite_registry) then r.overwrite_registry else default_registry

unfoldable pub insecure_registry_address : Option RegistryConfiguration → String
insecure_registry_address none = ""
insecure_registry_address (some r) = if r.insecure_registry then r.overwrite_registry else ""
