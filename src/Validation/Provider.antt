-- ===== src/Validation/Provider.antt =====
-- The cloud provider: `ValidateCloudProviderSpec` of
-- pkg/apis/kubeone/validation/validation.go, and the functions that it calls for AWS, Azure,
-- Hetzner, KubeVirt and OpenStack.
use kubeone.Prelude.{
  String, Bool, false, not, ◌&&◌, ◌||◌, Option, none, some, List, [], ◌∷◌, ◌++◌, ltb, str_eq,
  is_empty, is_some,
}
use kubeone.Prelude.Runes.{runes, byte_len}
use kubeone.Api.Network.{is_dualstack}
use kubeone.Api.Cloud.{AwsSpec, AzureSpec, HetznerSpec, KubevirtSpec, OpenstackSpec}
use kubeone.Api.Cluster.{KubeOneCluster, MachineControllerConfig, non_empty}
use kubeone.Validation.Field.{FieldError, required, invalid, forbidden, error_if}
use kubeone.Validation.Machines.{DropletConfig, validate_digital_ocean_spec}
use kubeone.Validation.Gce.{GceConfig, Cidr, validate_gce_spec}

unfoldable pub validate_aws_spec : AwsSpec → List FieldError
validate_aws_spec s = elim s.control_plane [
  | none ↦ []
  | some lb ↦
      error_if (is_empty s.region) required "region"
      ++ error_if (ltb 32 (byte_len (runes lb.name))) invalid "name"
]

unfoldable pub validate_hetzner_spec : HetznerSpec → List FieldError
validate_hetzner_spec s =
    error_if (is_some s.control_plane && is_empty s.network_id) required "networkID"

unfoldable pub validate_openstack_spec : OpenstackSpec → List FieldError
validate_openstack_spec s = elim s.control_plane [
  | none ↦ []
  | some lb ↦ error_if (is_empty lb.name) required "name"
]

-- `field.NotSupported` is an error of its own kind there, and an invalid value here.
unfoldable pub validate_azure_spec : AzureSpec → List FieldError
validate_azure_spec s = elim s.control_plane [
  | none ↦ []
  | some lb ↦
      error_if
        (not (is_empty lb.sku) && not (str_eq lb.sku "Basic") && not (str_eq lb.sku "Standard"))
        invalid "sku"
]

unfoldable pub validate_kubevirt_spec : KubevirtSpec → List FieldError
validate_kubevirt_spec s = error_if (is_empty s.infra_namespace) required "infraNamespace"

abbrev pub deploys_machine_controller : Option MachineControllerConfig → Bool
deploys_machine_controller none = false
deploys_machine_controller (some m) = m.deploy

-- One `if providerSpec.X != nil` of the function: the name of X, whether it is set, and what is
-- checked then beside that it is the only one.
pub record Branch : Type 0 where
  pub field : String
  pub set : Bool
  pub errors : List FieldError

abbrev pub branch : {A : Type 0} → String → Option A → (A → List FieldError) → Branch
branch field s check = record {
  field = field;
  set = is_some s;
  errors = elim s [ none ↦ [] | some a ↦ check a ];
}

-- The errors of the branches, and whether a provider was found, after them.
unfoldable pub validate_branches : Bool → List Branch → List FieldError × Bool
validate_branches found [] = ([], found)
validate_branches found (b ∷ bs) =
    let (errs, last) = validate_branches (b.set || found) bs in
    (error_if (b.set && found) forbidden b.field ++ b.errors ++ errs, last)

module _ (decode_droplet : String → Option DropletConfig) (decode_gce : String → Option GceConfig)
    (parse_cidr : String → Cidr) where
  abbrev pub branches : KubeOneCluster → List Branch
  branches c =
      let p = c.cloud_provider in
      let node_sets = c.control_plane.node_sets in
      let cloud_config = error_if (is_empty p.cloud_config) required "cloudConfig" in
      branch "aws" p.aws (λ s.
        error_if (is_dualstack c.cluster_network.ip_family && p.external && is_empty p.cloud_config)
          required "cloudConfig"
        ++ validate_aws_spec s)
      ∷ branch "azure" p.azure (λ s. cloud_config ++ validate_azure_spec s)
      ∷ branch "digitalocean" p.digital_ocean
          (λ s. validate_digital_ocean_spec decode_droplet s c.name node_sets)
      ∷ branch "gce" p.gce (λ s. validate_gce_spec decode_gce parse_cidr s c.name node_sets)
      ∷ branch "hetzner" p.hetzner validate_hetzner_spec
      ∷ branch "kubevirt" p.kubevirt (λ s.
        validate_kubevirt_spec s
        ++ error_if
            (non_empty node_sets && not (is_some s.control_plane) && is_empty c.api_endpoint.host)
            required "host")
      ∷ branch "nutanix" p.nutanix (λ _. [])
      ∷ branch "openstack" p.openstack (λ s. cloud_config ++ validate_openstack_spec s)
      ∷ branch "equinixmetal" p.equinix_metal (λ _. [])
      ∷ branch "vmwareCloudDirector" p.vmware_cloud_director
          (λ _. error_if p.external forbidden "external")
      ∷ branch "vsphere" p.vsphere (λ _.
        cloud_config
        ++ error_if (p.external && not p.disable_bundled_csi_drivers && is_empty p.csi_config)
            required "csiConfig")
      ∷ branch "none" p.none_spec (λ _.
        error_if (deploys_machine_controller c.machine_controller) forbidden "none"
        ++ error_if c.operating_system_manager.deploy forbidden "none")
      ∷ []

  unfoldable pub validate_cloud_provider_spec : KubeOneCluster → List FieldError
  unfolding validate_branches
  validate_cloud_provider_spec c =
      let p = c.cloud_provider in
      let (errs, found) = validate_branches false (branches c) in
      errs
      ++ error_if (not found) invalid "cloudProvider"
      ++ error_if (p.disable_bundled_csi_drivers && not (is_empty p.csi_config)) forbidden
          "csiConfig"
      ++ error_if (not (is_some p.vsphere) && not (is_empty p.csi_config)) forbidden "csiConfig"
