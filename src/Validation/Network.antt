-- ===== src/Validation/Network.antt =====
-- The cluster network: `ValidateCNI`, `ValidateKubeProxy`, `ValidateCilium` and
-- `ValidateClusterDNS` of pkg/apis/kubeone/validation/validation.go.
use kubeone.Prelude.{
  String, Bool, false, not, ◌&&◌, ◌||◌, Option, none, some, List, [], ◌∷◌, ◌++◌, length, ltb,
  is_some, ◌==◌, if◌then◌else◌,
}
use kubeone.Prelude.Int.{pos, negsuc}
use kubeone.Api.Network.{Cni, CanalSpec, CiliumSpec, KubeProxyConfig}
use kubeone.Api.Cluster.{KubeOneCluster, non_empty}
use kubeone.Validation.Field.{FieldError, invalid, forbidden, error_if}

abbrev pub zero_mtu : Option CanalSpec → Bool
zero_mtu none = false
zero_mtu (some c) = elim c.mtu [ pos n ↦ n == 0 | negsuc n ↦ false ]

-- The flag that a plugin was found goes through the four tests.
unfoldable pub validate_cni : Cni → List FieldError
validate_cni c =
    let canal = is_some c.canal in
    let cilium = is_some c.cilium || canal in
    let weave_net = is_some c.weave_net || cilium in
    let found = is_some c.external || weave_net in
    error_if (zero_mtu c.canal) invalid "mtu"
    ++ error_if (is_some c.cilium && canal) forbidden "cilium"
    ++ error_if (is_some c.weave_net && cilium) forbidden "weaveNet"
    ++ error_if (is_some c.external && weave_net) forbidden "external"
    ++ error_if (not found) invalid "cni"

unfoldable pub validate_kube_proxy : KubeProxyConfig → List FieldError
validate_kube_proxy p = error_if (is_some p.ipvs && is_some p.iptables) invalid "kubeProxy"

abbrev pub deploys_node_local_dns : KubeOneCluster → Bool
deploys_node_local_dns c = elim c.features.node_local_dns [ none ↦ false | some d ↦ d.deploy ]

abbrev pub skips_kube_proxy : KubeOneCluster → Bool
skips_kube_proxy c = elim c.cluster_network.kube_proxy [
  | none ↦ false
  | some p ↦ p.skip_installation
]

unfoldable pub validate_cilium : CiliumSpec → KubeOneCluster → List FieldError
validate_cilium s c =
    error_if (s.enable_local_redirect_policy && deploys_node_local_dns c) invalid
      "enableLocalRedirectPolicy"
    ++ error_if (s.kube_proxy_replacement && not (skips_kube_proxy c)) invalid
        "kubeProxyReplacement"
    ++ error_if (s.enable_gateway_api && not s.kube_proxy_replacement) invalid "enableGatewayAPI"
    ++ error_if (s.enable_local_redirect_policy && not s.kube_proxy_replacement) invalid
        "enableLocalRedirectPolicy"

-- `net.ParseIP` is a parameter: whether it gives an address.
unfoldable pub validate_servers : (String → Bool) → List String → List FieldError
validate_servers parses [] = []
validate_servers parses (ip ∷ ips) =
    error_if (not (parses ip)) invalid "clusterDNS" ++ validate_servers parses ips

unfoldable pub validate_cluster_dns : (String → Bool) → KubeOneCluster → List FieldError
validate_cluster_dns parses c =
    let servers = c.cluster_network.cluster_dns in
    if not (non_empty servers)
    then []
    else error_if (ltb 3 (length servers)) invalid "clusterDNS"
      ++ validate_servers parses servers
      ++ error_if (deploys_node_local_dns c) invalid "clusterDNS"
