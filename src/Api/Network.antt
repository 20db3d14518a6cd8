-- ===== src/Api/Network.antt =====
-- The cluster network and its addresses: pkg/apis/kubeone/types.go and
-- pkg/apis/kubeone/helpers.go.
use kubeone.Prelude.{
  ℕ, ◌+◌, ◌/◌, ◌%◌, String, Bool, true, false, Option, none, some, List, [], ◌∷◌, reverse,
  if◌then◌else◌,
}
use kubeone.Prelude.Int.{ℤ}

-- A string type: `other` holds a text that is none of the declared constants.
pub data IpFamily : Type 0 where
  ipv4 ipv6 ipv4_ipv6 ipv6_ipv4 : IpFamily
  other : String → IpFamily

abbrev pub is_dualstack : IpFamily → Bool
is_dualstack ipv4_ipv6 = true
is_dualstack ipv6_ipv4 = true
is_dualstack _ = false

abbrev pub is_ipv6_primary : IpFamily → Bool
is_ipv6_primary ipv6 = true
is_ipv6_primary ipv6_ipv4 = true
is_ipv6_primary _ = false

pub record CiliumSpec : Type 0 where
  pub kube_proxy_replacement : Bool
  pub enable_hubble : Bool
  pub enable_l2_announcements : Bool
  pub enable_gateway_api : Bool
  pub enable_local_redirect_policy : Bool

pub record CanalSpec : Type 0 where
  pub mtu : ℤ

pub record WeaveNetSpec : Type 0 where
  pub encrypted : Bool

pub record ExternalCniSpec : Type 0 where
  pub empty : Unit {0}

pub record Cni : Type 0 where
  pub canal : Option CanalSpec
  pub cilium : Option CiliumSpec
  pub weave_net : Option WeaveNetSpec
  pub external : Option ExternalCniSpec

pub record IpvsConfig : Type 0 where
  pub scheduler : String
  pub exclude_cidrs : List String
  pub strict_arp : Bool
  pub tcp_timeout : ℤ
  pub tcp_fin_timeout : ℤ
  pub udp_timeout : ℤ

pub record IpTables : Type 0 where
  pub empty : Unit {0}

pub record KubeProxyConfig : Type 0 where
  pub skip_installation : Bool
  pub ipvs : Option IpvsConfig
  pub iptables : Option IpTables

pub record ClusterNetworkConfig : Type 0 where
  pub pod_subnet : String
  pub pod_subnet_ipv6 : String
  pub service_subnet : String
  pub service_subnet_ipv6 : String
  pub service_domain_name : String
  pub node_port_range : String
  pub cni : Option Cni
  pub kube_proxy : Option KubeProxyConfig
  pub ip_family : IpFamily
  pub node_cidr_mask_size_ipv4 : Option ℤ
  pub node_cidr_mask_size_ipv6 : Option ℤ
  pub cluster_dns : List String

unfoldable pub has_ipv4 : ClusterNetworkConfig → Bool
has_ipv4 c = elim c.ip_family [ ipv4 ↦ true | ipv4_ipv6 ↦ true | ipv6_ipv4 ↦ true | _ ↦ false ]

unfoldable pub has_ipv6 : ClusterNetworkConfig → Bool
has_ipv6 c = elim c.ip_family [ ipv6 ↦ true | ipv4_ipv6 ↦ true | ipv6_ipv4 ↦ true | _ ↦ false ]

-- The loop of `NthServiceSubnetIP` from the last byte to the first, on the bytes in that order:
-- it adds the carry to each byte, keeps the low 8 bits and hands on the rest.
unfoldable pub add_carry : List ℕ → ℕ → List ℕ
add_carry [] carry = []
add_carry (b ∷ bs) carry = let val = b + carry in val % 256 ∷ add_carry bs (val / 256)

-- What `net` does for the function, over byte lists: `ParseCIDR` gives the network address, `To4`
-- the four bytes of an IPv4 address, `String` the text.
pub record IpLib : Type 0 where
  pub parse_cidr : String → Option (List ℕ)
  pub to4 : List ℕ → Option (List ℕ)
  pub text : List ℕ → String

unfoldable pub primary_service_subnet : ClusterNetworkConfig → String
primary_service_subnet c =
    if is_ipv6_primary c.ip_family then c.service_subnet_ipv6 else c.service_subnet

abbrev pub ip_bytes : IpLib → List ℕ → List ℕ
ip_bytes lib ip = elim (lib.to4 ip) [ none ↦ ip | some v4 ↦ v4 ]

unfoldable pub nth_address : List ℕ → ℕ → List ℕ
unfolding add_carry
nth_address ip n = reverse (add_carry (reverse ip) n)

-- The int `n` of the source is never negative at its callers, and is a natural number here.
unfoldable pub nth_service_subnet_ip : IpLib → ClusterNetworkConfig → ℕ → String
nth_service_subnet_ip lib c n = elim (lib.parse_cidr (primary_service_subnet c)) [
  | none ↦ ""
  | some ip ↦ lib.text (nth_address (ip_bytes lib ip) n)
]
