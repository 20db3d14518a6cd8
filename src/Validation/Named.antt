-- ===== src/Validation/Named.antt =====
-- The name of an accepted cloud provider: `ValidateCloudProviderSpec` of
-- pkg/apis/kubeone/validation/validation.go and `CloudProviderName` of
-- pkg/apis/kubeone/helpers.go.
use kubeone.Prelude.{String, true, Option, [], is_some, All, ◌≡◌, arith}
use kubeone.Api.Cloud.{CloudProviderSpec, cloud_provider_name}
use kubeone.Api.Cluster.{KubeOneCluster}
use kubeone.Validation.Machines.{DropletConfig}
use kubeone.Validation.Gce.{GceConfig, Cidr}
use kubeone.Validation.Provider.{branches, validate_cloud_provider_spec}
use kubeone.Validation.Single.{providers, validate_cloud_provider_spec_iff}

module _ (p : CloudProviderSpec) (single : providers p ≡ 1) where
  -- Each provider that is set gives the name, since no other one is set.
  set-name :
      (is_some p.aws ≡ true → "aws" ≡ cloud_provider_name p)
      × (is_some p.azure ≡ true → "azure" ≡ cloud_provider_name p)
      × (is_some p.digital_ocean ≡ true → "digitalocean" ≡ cloud_provider_name p)
      × (is_some p.gce ≡ true → "gce" ≡ cloud_provider_name p)
      × (is_some p.hetzner ≡ true → "hetzner" ≡ cloud_provider_name p)
      × (is_some p.kubevirt ≡ true → "kubevirt" ≡ cloud_provider_name p)
      × (is_some p.nutanix ≡ true → "nutanix" ≡ cloud_provider_name p)
      × (is_some p.openstack ≡ true → "openstack" ≡ cloud_provider_name p)
      × (is_some p.equinix_metal ≡ true → "equinixmetal" ≡ cloud_provider_name p)
      × (is_some p.vmware_cloud_director ≡ true → "vmwareCloudDirector" ≡ cloud_provider_name p)
      × (is_some p.vsphere ≡ true → "vsphere" ≡ cloud_provider_name p)
      × (is_some p.none_spec ≡ true → "none" ≡ cloud_provider_name p)
  unfolding cloud_provider_name
  set-name = (
    (λ e. ground (arith, single, e)),
    (λ e. ground (arith, single, e)),
    (λ e. ground (arith, single, e)),
    (λ e. ground (arith, single, e)),
    (λ e. ground (arith, single, e)),
    (λ e. ground (arith, single, e)),
    (λ e. ground (arith, single, e)),
    (λ e. ground (arith, single, e)),
    (λ e. ground (arith, single, e)),
    (λ e. ground (arith, single, e)),
    (λ e. ground (arith, single, e)),
    (λ e. ground (arith, single, e)),
  )

module _ (decode_droplet : String → Option DropletConfig) (decode_gce : String → Option GceConfig)
    (parse_cidr : String → Cidr) where
  -- In a configuration whose cloud provider is accepted exactly one provider is set, and the name of
  -- the cloud provider is the name of that one.
  pub validate_cloud_provider_spec-named :
      (c : KubeOneCluster)
      → validate_cloud_provider_spec decode_droplet decode_gce parse_cidr c ≡ []
      → (providers c.cloud_provider ≡ 1)
        × All
            (λ b. b.set ≡ true → b.field ≡ cloud_provider_name c.cloud_provider)
            (branches decode_droplet decode_gce parse_cidr c)
  validate_cloud_provider_spec-named c e =
      let single =
        ((validate_cloud_provider_spec_iff decode_droplet decode_gce parse_cidr c).0 e).0 in
      let (a, b, d, f, g, h, i, j, k, l, m, n) = set-name c.cloud_provider single in
      (single, (a, (b, (d, (f, (g, (h, (i, (j, (k, (l, (m, (n, tt)))))))))))))
