-- ===== src/Validation/Gce.antt =====
-- The node sets on GCE: `validateGCESpec` and `isGCEResourceName` of
-- pkg/apis/kubeone/validation/validation.go. The decoder of machine-controller's raw configuration
-- and `net.ParseCIDR` are parameters.
use kubeone.Prelude.{
  ℕ, String, Bool, true, false, not, ◌&&◌, ◌||◌, Option, none, some, List, [], ◌∷◌, ◌++◌, leb,
  str_eq, is_empty, join, ◌==◌, if◌then◌else◌,
}
use kubeone.Prelude.Runes.{runes, byte_len, has_prefix}
use kubeone.Api.Cloud.{GceLoadBalancer, GceSpec}
use kubeone.Api.Cluster.{NodeSet, non_empty}
use kubeone.Validation.Field.{FieldError, required, invalid, forbidden, error_if, one}
use kubeone.Validation.Machines.{ConfigVar, is_given, machine_name, last_index}

-- The characters after the first: `([-a-z0-9]*[a-z0-9])?$`.
abbrev pub is_lower_or_digit : ℕ → Bool
is_lower_or_digit c = (leb b'a' c && leb c b'z') || (leb b'0' c && leb c b'9')

abbrev pub matches_rest : List ℕ → Bool
matches_rest [] = true
matches_rest (c ∷ []) = is_lower_or_digit c
matches_rest (c ∷ d ∷ s) = (is_lower_or_digit c || c == b'-') && matches_rest (d ∷ s)

unfoldable pub is_gce_resource_name : List ℕ → Bool
is_gce_resource_name [] = false
is_gce_resource_name (c ∷ s) =
    leb (byte_len (c ∷ s)) 63 && leb b'a' c && leb c b'z' && matches_rest s

pub record GceConfig : Type 0 where
  pub service_account : ConfigVar
  pub project_id : String
  pub zone : String

-- What `net.ParseCIDR` makes of a text.
pub data Cidr : Type 0 where
  no_cidr ipv4 ipv6 : Cidr

unfoldable pub validate_source_ranges : (String → Cidr) → List String → List FieldError
validate_source_ranges parse [] = []
validate_source_ranges parse (cidr ∷ cidrs) =
    let rest = validate_source_ranges parse cidrs in
    elim (parse cidr) [
      | no_cidr ↦ one invalid "allowedSourceRanges" ++ rest
      | ipv6 ↦ one invalid "allowedSourceRanges" ++ rest
      | ipv4 ↦ rest
    ]

unfoldable pub validate_zone : GceLoadBalancer → String → List FieldError
unfolding is_gce_resource_name
validate_zone lb zone =
    if is_empty zone
    then one required "zone"
    else if not (is_empty lb.region) && not (has_prefix (runes zone) (runes lb.region ++ b'-' ∷ []))
    then one invalid "zone"
    else error_if
        (not (is_empty lb.name) && not (is_gce_resource_name (runes lb.name ++ b'-' ∷ runes zone)))
        invalid "name"

unfoldable pub validate_gce_config : GceLoadBalancer → GceConfig → List FieldError
unfolding validate_zone
validate_gce_config lb c =
    error_if (is_given c.service_account) forbidden "serviceAccount"
    ++ error_if
        (not (is_empty c.project_id)
          && not (is_empty lb.project_id)
          && not (str_eq c.project_id lb.project_id))
        invalid "projectID"
    ++ validate_zone lb c.zone

unfoldable pub validate_gce_node_sets :
    (String → Option GceConfig) → GceLoadBalancer → String → List NodeSet → List FieldError
unfolding is_gce_resource_name machine_name validate_gce_config
validate_gce_node_sets decode lb cluster_name [] = []
validate_gce_node_sets decode lb cluster_name (ns ∷ rest) =
    error_if (not (is_gce_resource_name (machine_name ns cluster_name (last_index ns)))) invalid
      "nodeSets"
    ++ elim (decode ns.cloud_provider_spec) [
      | none ↦ one invalid "cloudProviderSpec"
      | some c ↦ validate_gce_config lb c
    ]
    ++ validate_gce_node_sets decode lb cluster_name rest

abbrev pub gce_balancer : GceSpec → GceLoadBalancer
gce_balancer s = elim s.control_plane [
  | none ↦ record {
    project_id = "";
    region = "";
    network = "";
    name = "";
    allowed_source_ranges = [];
  }
  | some lb ↦ lb
]

unfoldable pub validate_balancer_name : String → List FieldError
unfolding is_gce_resource_name
validate_balancer_name name =
    if is_empty name
    then []
    else error_if (not (is_gce_resource_name (runes name))) invalid "name"
      ++ error_if (not (is_gce_resource_name (runes (join name "-6443")))) invalid "name"
      ++ error_if (not (is_gce_resource_name (runes (join name "-6443-hc")))) invalid "name"

unfoldable pub validate_gce_spec :
    (String → Option GceConfig)
    → (String → Cidr)
    → GceSpec
    → String
    → List NodeSet
    → List FieldError
unfolding is_gce_resource_name validate_balancer_name validate_source_ranges validate_gce_node_sets
validate_gce_spec decode parse spec cluster_name node_sets =
    let lb = gce_balancer spec in
    if not (non_empty node_sets)
    then []
    else error_if (not (is_gce_resource_name (runes cluster_name))) invalid "name"
      ++ validate_balancer_name lb.name
      ++ error_if (not (is_gce_resource_name (runes (join cluster_name "-control-plane")))) invalid
          "name"
      ++ validate_source_ranges parse lb.allowed_source_ranges
      ++ validate_gce_node_sets decode lb cluster_name node_sets
