-- ===== src/V1beta3/Canal.antt =====
-- The MTU of Canal that defaulting sets: pkg/apis/kubeone/v1beta3/defaults.go.
use kubeone.Prelude.{◌≡◌, refl, ap, ◌∙◌, arith}
use kubeone.Prelude.Int.{pos}
use kubeone.Api.Cloud.{CloudProviderSpec}
use kubeone.Api.Network.{ClusterNetworkConfig, IpFamily}
use kubeone.V1beta3.Types.{KubeOneCluster}
use kubeone.V1beta3.Network.{
  default_ip_family, default_subnets, provider_canal_mtu, default_cni, set_defaults_cluster_network,
}

provider_canal_mtu-same : (p : CloudProviderSpec) → provider_canal_mtu p ≡ pos 1450
unfolding provider_canal_mtu
provider_canal_mtu-same p = ground arith

subnets_keep_cni : (f : IpFamily) (n : ClusterNetworkConfig) → (default_subnets f n).cni ≡ n.cni
subnets_keep_cni IpFamily.ipv4 n = refl
subnets_keep_cni IpFamily.ipv6 n = refl
subnets_keep_cni IpFamily.ipv4_ipv6 n = refl
subnets_keep_cni IpFamily.ipv6_ipv4 n = refl
subnets_keep_cni (IpFamily.other _) n = refl

-- On every provider, the network plugins after the defaults are those of before with 1450 as the MTU
-- of Canal where it is not set, and Canal with that MTU if there are none: the numbers 8951, 1410 and
-- 1400 for AWS, GCE, Hetzner and OpenStack are never used.
pub set_defaults_cluster_network-mtu :
    (c : KubeOneCluster)
    → (set_defaults_cluster_network c).cluster_network.cni
      ≡ default_cni (pos 1450) c.cluster_network.cni
unfolding set_defaults_cluster_network
set_defaults_cluster_network-mtu c =
    let family = default_ip_family c.cluster_network.ip_family in
    let kept = subnets_keep_cni family (record c.cluster_network { ip_family = family }) in
    ap (default_cni (provider_canal_mtu c.cloud_provider)) kept
    ∙ ap (λ m. default_cni m c.cluster_network.cni) (provider_canal_mtu-same c.cloud_provider)
