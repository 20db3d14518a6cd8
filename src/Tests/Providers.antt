-- ===== src/Tests/Providers.antt =====
-- The theorems on the cloud provider at concrete configurations.
use kubeone.Prelude.{
  String, true, false, Option, none, some, [], ◌∷◌, All, ◌≡◌, ◌⊎◌, refl, is_empty, if◌then◌else◌,
  str_eq,
}
use kubeone.Api.Host.{rockylinux}
use kubeone.Api.Cloud.{DigitalOceanSpec, cloud_provider_name}
use kubeone.Api.Cluster.{KubeOneCluster, NodeSet}
use kubeone.DigitalOcean.Tags.{sanitize_tag}
use kubeone.DigitalOcean.Valid.{IsTag, sanitize_tag-IsTag}
use kubeone.Validation.Field.{invalid, forbidden, one}
use kubeone.Validation.Machines.{
  DropletConfig, machine_name, validate_droplet, validate_droplet_node_set,
  validate_droplet_node_sets, validate_digital_ocean_spec, droplet_balancer,
}
use kubeone.Validation.Gce.{GceConfig, Cidr, ipv4, is_gce_resource_name}
use kubeone.Validation.Provider.{
  branches, validate_cloud_provider_spec, validate_branches, validate_hetzner_spec,
}
use kubeone.Validation.Single.{providers}
use kubeone.Validation.Named.{validate_cloud_provider_spec-named}
use kubeone.Validation.Creatable.{Creatable}
use kubeone.Validation.Droplets.{validate_digital_ocean_spec-Creatable}
use kubeone.Tests.Samples.{cluster, provider, node_set}
use kubeone.Prelude.Runes.{runes}

abbrev droplet_in : String → DropletConfig
droplet_in region = record {
  token = record { value = ""; secret_key_ref_name = ""; config_map_key_ref_name = "" };
  region = region;
  size = "s-4vcpu-8gb";
  private_networking = none;
}

-- Two raw configurations: one in fra1 and one in ams3.
abbrev decode_droplet : String → Option DropletConfig
decode_droplet raw =
    if str_eq raw "{fra1}"
    then some (droplet_in "fra1")
    else if str_eq raw "{ams3}"
    then some (droplet_in "ams3")
    else none

abbrev decode_gce : String → Option GceConfig
decode_gce raw = none

abbrev parse_cidr : String → Cidr
parse_cidr cidr = ipv4

abbrev balanced : DigitalOceanSpec
balanced = record {
  control_plane = some (record { id = ""; name = "lb"; region = "fra1"; size_unit = 1 });
}

abbrev in_fra1 : NodeSet
in_fra1 = record node_set { cloud_provider_spec = "{fra1}" }

abbrev also_in_fra1 : NodeSet
also_in_fra1 = record node_set {
  name = "other";
  operating_system = rockylinux;
  cloud_provider_spec = "{fra1}";
}

abbrev in_ams3 : NodeSet
in_ams3 = record node_set { cloud_provider_spec = "{ams3}" }

abbrev on_digital_ocean : KubeOneCluster
on_digital_ocean = record cluster {
  control_plane = record { hosts = []; node_sets = in_fra1 ∷ also_in_fra1 ∷ [] };
  cloud_provider = record provider { hetzner = none; digital_ocean = some balanced };
}

validate_cloud_provider_spec-named_example :
    (providers on_digital_ocean.cloud_provider ≡ 1)
    × All
        (λ b. b.set ≡ true → b.field ≡ cloud_provider_name on_digital_ocean.cloud_provider)
        (branches decode_droplet decode_gce parse_cidr on_digital_ocean)
unfolding validate_cloud_provider_spec validate_branches validate_digital_ocean_spec
    validate_droplet_node_sets validate_droplet_node_set validate_droplet machine_name
validate_cloud_provider_spec-named_example =
    validate_cloud_provider_spec-named decode_droplet decode_gce parse_cidr on_digital_ocean refl

validate_digital_ocean_spec-Creatable_example :
    (region : String) × (is_empty region ≡ false)
    × All (Creatable decode_droplet "sample" region) (in_fra1 ∷ also_in_fra1 ∷ [])
    × ((is_empty (droplet_balancer balanced).region ≡ true)
        ⊎ ((droplet_balancer balanced).region ≡ region))
unfolding validate_digital_ocean_spec validate_droplet_node_sets validate_droplet_node_set
    validate_droplet machine_name
validate_digital_ocean_spec-Creatable_example =
    validate_digital_ocean_spec-Creatable decode_droplet "sample" balanced in_fra1
      (also_in_fra1 ∷ []) refl

sanitize_tag-IsTag_example :
    IsTag (sanitize_tag "kubeone-cluster:a.b")
    × (IsTag "kubeone-cluster:a.b" → sanitize_tag "kubeone-cluster:a.b" ≡ "kubeone-cluster:a.b")
sanitize_tag-IsTag_example = sanitize_tag-IsTag "kubeone-cluster:a.b"

-- Node sets in two regions, the second of which is also not that of the load balancer.
two_regions :
    validate_digital_ocean_spec decode_droplet balanced "sample" (in_fra1 ∷ in_ams3 ∷ [])
    ≡ one invalid "nodeSets"
unfolding validate_digital_ocean_spec validate_droplet_node_sets validate_droplet_node_set
    validate_droplet machine_name
two_regions = refl

-- Two providers; the second one is reported under its own name.
two_providers :
    validate_cloud_provider_spec decode_droplet decode_gce parse_cidr (record on_digital_ocean {
      cloud_provider = record provider { digital_ocean = some balanced };
    })
    ≡ one forbidden "hetzner"
unfolding validate_cloud_provider_spec validate_branches validate_digital_ocean_spec
    validate_hetzner_spec validate_droplet_node_sets validate_droplet_node_set validate_droplet
    machine_name
two_providers = refl

third_machine : machine_name node_set "sample" 12 ≡ runes "sample-pool-12"
unfolding machine_name
third_machine = refl

good_name : is_gce_resource_name (runes "sample-kubeapi-6443-hc") ≡ true
unfolding is_gce_resource_name
good_name = refl

name_ends_with_dash : is_gce_resource_name (runes "sample-") ≡ false
unfolding is_gce_resource_name
name_ends_with_dash = refl
