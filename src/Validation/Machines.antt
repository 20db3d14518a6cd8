-- ===== src/Validation/Machines.antt =====
-- The node sets that KubeOne creates machines for: `validateDigitalOceanSpec` of
-- pkg/apis/kubeone/validation/validation.go, and `MachineName` of pkg/apis/kubeone/helpers.go. The
-- decoder of machine-controller's raw configuration is a parameter.
use kubeone.Prelude.{
  ℕ, String, Bool, true, false, not, ◌&&◌, ◌||◌, Option, none, some, List, [], ◌∷◌, ◌++◌, any,
  length, ltb, str_eq, is_empty, ◌==◌, if◌then◌else◌,
}
use kubeone.Prelude.Int.{pos_part, minus_ℕ}
use kubeone.Prelude.Runes.{runes, byte_len, decimal}
use kubeone.Api.Host.{OperatingSystemName, ubuntu, rockylinux}
use kubeone.Api.Cloud.{DigitalOceanLoadBalancer, DigitalOceanSpec}
use kubeone.Api.Cluster.{NodeSet, non_empty}
use kubeone.Validation.Field.{FieldError, required, invalid, forbidden, error_if, one}

-- `"%s-%s-%d"`
unfoldable pub machine_name : NodeSet → String → ℕ → List ℕ
machine_name ns cluster_name i = runes cluster_name ++ b'-' ∷ runes ns.name ++ b'-' ∷ decimal i

-- `max(ns.Replicas-1, 0)`
abbrev pub last_index : NodeSet → ℕ
last_index ns = pos_part (minus_ℕ ns.replicas 1)

-- A text that can also come from a secret or a config map.
pub record ConfigVar : Type 0 where
  pub value : String
  pub secret_key_ref_name : String
  pub config_map_key_ref_name : String

abbrev pub is_given : ConfigVar → Bool
is_given v =
    not (is_empty v.value)
    || not (is_empty v.secret_key_ref_name)
    || not (is_empty v.config_map_key_ref_name)

-- The fields that the validation reads.
pub record DropletConfig : Type 0 where
  pub token : ConfigVar
  pub region : String
  pub size : String
  pub private_networking : Option Bool

abbrev pub supported_on_digital_ocean : OperatingSystemName → Bool
supported_on_digital_ocean ubuntu = true
supported_on_digital_ocean rockylinux = true
supported_on_digital_ocean _ = false

abbrev pub turned_off : Option Bool → Bool
turned_off none = false
turned_off (some b) = not b

unfoldable pub validate_droplet : DropletConfig → List FieldError
validate_droplet d =
    error_if (is_given d.token) forbidden "token"
    ++ error_if (is_empty d.region) required "region"
    ++ error_if (is_empty d.size) required "size"
    ++ error_if (turned_off d.private_networking) invalid "private_networking"

-- `regions.Insert`
abbrev pub insert_region : String → List String → List String
insert_region r regions = if any (str_eq r) regions then regions else r ∷ regions

-- One turn of the loop: its errors, and the regions after it.
unfoldable pub validate_droplet_node_set :
    Option DropletConfig → String → NodeSet → List String → List FieldError × List String
validate_droplet_node_set config cluster_name ns regions =
    let before =
      error_if (ltb 63 (byte_len (machine_name ns cluster_name (last_index ns)))) invalid "nodeSets"
      ++ error_if (not (supported_on_digital_ocean ns.operating_system)) invalid
          "operatingSystem" in
    elim config [
      | none ↦ (before ++ one invalid "cloudProviderSpec", regions)
      | some d ↦ (
        before ++ validate_droplet d,
        if is_empty d.region then regions else insert_region d.region regions,
      )
    ]

unfoldable pub validate_droplet_node_sets :
    (String → Option DropletConfig)
    → String
    → List NodeSet
    → List String
    → List FieldError × List String
validate_droplet_node_sets decode cluster_name [] regions = ([], regions)
validate_droplet_node_sets decode cluster_name (ns ∷ rest) regions =
    let (errs, regions') =
      validate_droplet_node_set (decode ns.cloud_provider_spec) cluster_name ns regions in
    let (more, last) = validate_droplet_node_sets decode cluster_name rest regions' in
    (errs ++ more, last)

-- The struct that `var lb` declares.
abbrev pub droplet_balancer : DigitalOceanSpec → DigitalOceanLoadBalancer
droplet_balancer s = elim s.control_plane [
  | none ↦ record { id = ""; name = ""; region = ""; size_unit = 0 }
  | some lb ↦ lb
]

unfoldable pub validate_digital_ocean_spec :
    (String → Option DropletConfig) → DigitalOceanSpec → String → List NodeSet → List FieldError
validate_digital_ocean_spec decode spec cluster_name node_sets =
    let lb = droplet_balancer spec in
    let (errs, regions) = validate_droplet_node_sets decode cluster_name node_sets [] in
    if not (non_empty node_sets)
    then []
    else error_if (ltb 255 (byte_len (runes lb.name))) invalid "name"
      ++ error_if (ltb 100 lb.size_unit) invalid "sizeUnit"
      ++ errs
      ++ error_if (ltb 1 (length regions)) invalid "nodeSets"
      ++ error_if
          (not (is_empty lb.region) && length regions == 1 && not (any (str_eq lb.region) regions))
          invalid "region"
