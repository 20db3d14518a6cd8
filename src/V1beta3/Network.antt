-- ===== src/V1beta3/Network.antt =====
-- The defaults of the cluster network and the proxy: pkg/apis/kubeone/v1beta3/defaults.go.
use kubeone.Prelude.{String, ◌&&◌, Option, none, some, [], join, is_some, is_empty, if◌then◌else◌}
use kubeone.Prelude.Int.{ℤ, pos}
use kubeone.Api.Cloud.{
  CloudProviderSpec, AwsSpec, GceSpec, HetznerSpec, OpenstackSpec, DigitalOceanSpec,
}
use kubeone.Api.Network.{ClusterNetworkConfig, IpFamily, Cni}
use kubeone.V1beta3.Types.{KubeOneCluster}
use kubeone.V1beta3.Hosts.{default_text, default_number, or_default}

abbrev pub default_canal_mtu : ℤ
default_canal_mtu = pos 1450

-- `IPFamily` is "" if it is not set.
abbrev pub default_ip_family : IpFamily → IpFamily
default_ip_family (IpFamily.other text) =
    if is_empty text then IpFamily.ipv4 else IpFamily.other text
default_ip_family family = family

abbrev pub default_ipv4 : ClusterNetworkConfig → ClusterNetworkConfig
default_ipv4 n = record n {
  pod_subnet = default_text n.pod_subnet "10.244.0.0/16";
  service_subnet = default_text n.service_subnet "10.96.0.0/12";
  node_cidr_mask_size_ipv4 = or_default n.node_cidr_mask_size_ipv4 (pos 24);
}

abbrev pub default_ipv6 : ClusterNetworkConfig → ClusterNetworkConfig
default_ipv6 n = record n {
  pod_subnet_ipv6 = default_text n.pod_subnet_ipv6 "fd01::/48";
  service_subnet_ipv6 = default_text n.service_subnet_ipv6 "fd02::/120";
  node_cidr_mask_size_ipv6 = or_default n.node_cidr_mask_size_ipv6 (pos 64);
}

-- The switch over the families.
abbrev pub default_subnets : IpFamily → ClusterNetworkConfig → ClusterNetworkConfig
default_subnets IpFamily.ipv4 n = default_ipv4 n
default_subnets IpFamily.ipv6 n = default_ipv6 n
default_subnets IpFamily.ipv4_ipv6 n = default_ipv6 (default_ipv4 n)
default_subnets IpFamily.ipv6_ipv4 n = default_ipv6 (default_ipv4 n)
default_subnets (IpFamily.other _) n = n

-- The MTU of `defaultCanal` after the switch over the providers, which starts from 1450.
unfoldable pub provider_canal_mtu : CloudProviderSpec → ℤ
provider_canal_mtu p =
    if is_some p.aws
    then default_number default_canal_mtu (pos 8951)
    else if is_some p.gce
    then default_number default_canal_mtu (pos 1410)
    else if is_some p.hetzner
    then default_number default_canal_mtu (pos 1400)
    else if is_some p.openstack
    then default_number default_canal_mtu (pos 1400)
    else default_canal_mtu

abbrev pub default_aws : AwsSpec → AwsSpec
default_aws d = record d {
  control_plane =
      or_default d.control_plane
        (record { name = ""; internal = none; security_group_ids = []; tags = [] });
}

abbrev pub default_gce : GceSpec → GceSpec
default_gce d = record d {
  control_plane = or_default d.control_plane (record {
    project_id = "";
    region = "";
    network = "";
    name = "";
    allowed_source_ranges = [];
  });
}

abbrev pub default_hetzner : HetznerSpec → HetznerSpec
default_hetzner d = record d {
  control_plane =
      or_default d.control_plane
        (record { name = ""; type = ""; location = ""; public_ip = none; labels = [] });
}

abbrev pub default_openstack : OpenstackSpec → OpenstackSpec
default_openstack d = record d {
  control_plane = or_default d.control_plane (record { name = ""; pool_id = "" });
}

abbrev pub default_digital_ocean : DigitalOceanSpec → DigitalOceanSpec
default_digital_ocean d = record d {
  control_plane =
      or_default d.control_plane (record { id = ""; name = ""; region = ""; size_unit = 0 });
}

-- The control plane that the switch adds to the spec of the first provider.
unfoldable pub default_provider : CloudProviderSpec → CloudProviderSpec
default_provider p = elim p.aws [
  | some d ↦ record p { aws = some (default_aws d) }
  | none ↦ elim p.gce [
    | some d ↦ record p { gce = some (default_gce d) }
    | none ↦ elim p.hetzner [
      | some d ↦ record p { hetzner = some (default_hetzner d) }
      | none ↦ elim p.openstack [
        | some d ↦ record p { openstack = some (default_openstack d) }
        | none ↦ elim p.digital_ocean [
          | some d ↦ record p { digital_ocean = some (default_digital_ocean d) }
          | none ↦ p
        ]
      ]
    ]
  ]
]

unfoldable pub default_cni : ℤ → Option Cni → Option Cni
default_cni mtu none = some (record {
  canal = some (record { mtu = mtu });
  cilium = none;
  weave_net = none;
  external = none;
})
default_cni mtu (some c) = some (record c {
  canal = elim c.canal [
    | none ↦ none
    | some s ↦ some (record s { mtu = default_number s.mtu mtu })
  ];
})

unfoldable pub set_defaults_cluster_network : KubeOneCluster → KubeOneCluster
unfolding provider_canal_mtu default_provider default_cni
set_defaults_cluster_network c =
    let family = default_ip_family c.cluster_network.ip_family in
    let network = default_subnets family (record c.cluster_network { ip_family = family }) in
    record c {
      cluster_network = record network {
        service_domain_name = default_text network.service_domain_name "cluster.local";
        node_port_range = default_text network.node_port_range "30000-32767";
        cni = default_cni (provider_canal_mtu c.cloud_provider) network.cni;
      };
      cloud_provider =
          if is_some c.control_plane.node_sets
          then default_provider c.cloud_provider
          else c.cloud_provider;
    }

-- `strings.Join(noproxy, ",")` of the four texts and the one that may follow.
unfoldable pub no_proxy_list : ClusterNetworkConfig → String → String
no_proxy_list n last =
    let fixed = join "127.0.0.1/8,localhost" (
      join ","
        (join n.service_domain_name (join "," (join n.pod_subnet (join "," n.service_subnet))))) in
    if is_empty last then fixed else join fixed (join "," last)

unfoldable pub set_defaults_proxy : KubeOneCluster → KubeOneCluster
unfolding no_proxy_list
set_defaults_proxy c = if is_empty c.proxy.http && is_empty c.proxy.https then c else record c {
  proxy = record c.proxy { no_proxy = no_proxy_list c.cluster_network c.proxy.no_proxy };
}
