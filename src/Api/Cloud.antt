-- ===== src/Api/Cloud.antt =====
-- The cloud provider and its names: pkg/apis/kubeone/types.go and pkg/apis/kubeone/helpers.go.
use kubeone.Prelude.{ℕ, String, Bool, Option, List, is_some, if◌then◌else◌}

pub record AwsLoadBalancer : Type 0 where
  pub name : String
  pub internal : Option Bool
  pub security_group_ids : List String
  pub tags : List (String × String)

pub record AwsSpec : Type 0 where
  pub region : String
  pub control_plane : Option AwsLoadBalancer

pub record AzureLoadBalancer : Type 0 where
  pub name : String
  pub resource_group : String
  pub location : String
  pub sku : String
  pub public_ip_name : String

pub record AzureSpec : Type 0 where
  pub control_plane : Option AzureLoadBalancer

pub record DigitalOceanLoadBalancer : Type 0 where
  pub id : String
  pub name : String
  pub region : String
  pub size_unit : ℕ

pub record DigitalOceanSpec : Type 0 where
  pub control_plane : Option DigitalOceanLoadBalancer

pub record GceLoadBalancer : Type 0 where
  pub project_id : String
  pub region : String
  pub network : String
  pub name : String
  pub allowed_source_ranges : List String

pub record GceSpec : Type 0 where
  pub control_plane : Option GceLoadBalancer

pub record HetznerLoadBalancer : Type 0 where
  pub name : String
  pub type : String
  pub location : String
  pub public_ip : Option Bool
  pub labels : List (String × String)

pub record HetznerSpec : Type 0 where
  pub network_id : String
  pub control_plane : Option HetznerLoadBalancer

pub record KubevirtLoadBalancer : Type 0 where
  pub name : String
  pub service_type : String
  pub annotations : List (String × String)

pub record KubevirtSpec : Type 0 where
  pub infra_namespace : String
  pub zone_and_region_enabled : Bool
  pub load_balancer_enabled : Bool
  pub control_plane : Option KubevirtLoadBalancer

pub record OpenstackLoadBalancer : Type 0 where
  pub name : String
  pub pool_id : String

pub record OpenstackSpec : Type 0 where
  pub control_plane : Option OpenstackLoadBalancer

pub record VmwareCloudDirectorSpec : Type 0 where
  pub v_app : String
  pub storage_profile : String

-- The specs without fields.
pub record EmptySpec : Type 0 where
  pub empty : Unit {0}

-- A control plane struct holds its load balancer alone, and is written as that.
pub record CloudProviderSpec : Type 0 where
  pub external : Bool
  pub disable_bundled_csi_drivers : Bool
  pub cloud_config : String
  pub csi_config : String
  pub secret_provider_class_name : String
  pub aws : Option AwsSpec
  pub azure : Option AzureSpec
  pub digital_ocean : Option DigitalOceanSpec
  pub gce : Option GceSpec
  pub hetzner : Option HetznerSpec
  pub kubevirt : Option KubevirtSpec
  pub nutanix : Option EmptySpec
  pub openstack : Option OpenstackSpec
  pub equinix_metal : Option EmptySpec
  pub vmware_cloud_director : Option VmwareCloudDirectorSpec
  pub vsphere : Option EmptySpec
  pub none_spec : Option EmptySpec

-- The cases of the switch, in its order.
unfoldable pub cloud_provider_name : CloudProviderSpec → String
cloud_provider_name p =
    if is_some p.aws
    then "aws"
    else if is_some p.azure
    then "azure"
    else if is_some p.digital_ocean
    then "digitalocean"
    else if is_some p.gce
    then "gce"
    else if is_some p.hetzner
    then "hetzner"
    else if is_some p.kubevirt
    then "kubevirt"
    else if is_some p.nutanix
    then "nutanix"
    else if is_some p.openstack
    then "openstack"
    else if is_some p.equinix_metal
    then "equinixmetal"
    else if is_some p.vsphere
    then "vsphere"
    else if is_some p.vmware_cloud_director
    then "vmwareCloudDirector"
    else if is_some p.none_spec
    then "none"
    else ""

unfoldable pub machine_controller_cloud_provider : CloudProviderSpec → String
machine_controller_cloud_provider p =
    if is_some p.vmware_cloud_director then "vmware-cloud-director" else cloud_provider_name p
