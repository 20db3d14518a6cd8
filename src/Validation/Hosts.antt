-- ===== src/Validation/Hosts.antt =====
-- Hosts, control plane and API endpoint: `ValidateHostConfig`, `ValidateStaticWorkersConfig`,
-- `ValidateControlPlaneConfig`, `ValidateControlPlaneMachines`, `ValidateAPIEndpoint` and
-- `ValidateKubeletConfig` of pkg/apis/kubeone/validation/validation.go.
use kubeone.Prelude.{
  ◌%◌, String, Bool, false, not, ◌&&◌, ◌||◌, Option, none, some, List, [], ◌∷◌, ◌++◌, any, length,
  str_eq, is_empty, ◌==◌, if◌then◌else◌,
}
use kubeone.Prelude.Int.{ℤ, pos, leb_ℤ}
use kubeone.Api.Host.{HostConfig, KubeletConfig, Taint, is_valid_os}
use kubeone.Api.Network.{ClusterNetworkConfig, has_ipv6}
use kubeone.Api.Cluster.{NodeSet, ControlPlaneConfig, ApiEndpoint, non_empty}
use kubeone.Validation.Field.{FieldError, required, invalid, forbidden, error_if, one}

-- `*v < 0 || *v > 100` of a pointer that is set.
abbrev pub out_of_percent : Option ℤ → Bool
out_of_percent none = false
out_of_percent (some v) = not (leb_ℤ (pos 0) v) || not (leb_ℤ v (pos 100))

abbrev pub not_positive : Option ℤ → Bool
not_positive none = false
not_positive (some v) = leb_ℤ v (pos 0)

unfoldable pub validate_kubelet_config : KubeletConfig → List FieldError
validate_kubelet_config k =
    error_if (not_positive k.max_pods) invalid "maxPods"
    ++ error_if (out_of_percent k.image_gc_high_threshold_percent) invalid
        "imageGCHighThresholdPercent"
    ++ error_if (out_of_percent k.image_gc_low_threshold_percent) invalid
        "imageGCLowThresholdPercent"

-- A label or annotation that is to be removed and has a value, given what `strings.HasSuffix` says.
unfoldable pub validate_labels : (String → Bool) → String → List (String × String) → List FieldError
validate_labels removes field [] = []
validate_labels removes field ((k, v) ∷ kv) =
    error_if (removes k && not (is_empty v)) invalid field ++ validate_labels removes field kv

unfoldable pub validate_taints : List Taint → List FieldError
validate_taints [] = []
validate_taints (t ∷ ts) =
    error_if (str_eq t.key "node-role.kubernetes.io/master") forbidden "taints"
    ++ validate_taints ts

-- What is checked of each host alone. The test for an IP family with IPv6 is that of `HasIPv6`.
unfoldable pub validate_host : (String → Bool) → ClusterNetworkConfig → HostConfig → List FieldError
validate_host removes net h =
    error_if (is_empty h.public_address) required "publicAddress"
    ++ error_if (has_ipv6 net && not (non_empty h.ipv6_addresses)) required "ipFamily"
    ++ error_if (is_empty h.private_address) required "privateAddress"
    ++ error_if (is_empty h.ssh_private_key_file && is_empty h.ssh_agent_socket) invalid
        "sshPrivateKeyFile"
    ++ error_if (is_empty h.ssh_private_key_file && is_empty h.ssh_agent_socket) invalid
        "sshAgentSocket"
    ++ error_if (is_empty h.ssh_username) required "sshUsername"
    ++ error_if (not (is_valid_os h.operating_system)) invalid "operatingSystem"
    ++ validate_kubelet_config h.kubelet
    ++ validate_labels removes "annotations" h.annotations
    ++ validate_labels removes "labels" h.labels
    ++ validate_taints h.taints

-- The loop, with the flag that tells whether a leader was found.
unfoldable pub validate_hosts :
    (String → Bool) → ClusterNetworkConfig → Bool → List HostConfig → List FieldError
validate_hosts removes net leader_found [] = []
validate_hosts removes net leader_found (h ∷ hs) =
    error_if (leader_found && h.is_leader) invalid "isLeader"
    ++ (validate_host removes net h ++ validate_hosts removes net (h.is_leader || leader_found) hs)

unfoldable pub validate_host_config :
    (String → Bool) → List HostConfig → ClusterNetworkConfig → List FieldError
validate_host_config removes hosts net = validate_hosts removes net false hosts

-- A worker against one control plane host.
unfoldable pub validate_worker : HostConfig → HostConfig → List FieldError
validate_worker worker cp =
    error_if
      (not (is_empty cp.hostname)
        && not (is_empty worker.hostname)
        && str_eq cp.hostname worker.hostname)
      invalid "Hostname"
    ++ error_if (str_eq cp.private_address worker.private_address) invalid "PrivateAddress"
    ++ error_if (str_eq cp.public_address worker.public_address) invalid "PublicAddress"

unfoldable pub validate_against : HostConfig → List HostConfig → List FieldError
validate_against worker [] = []
validate_against worker (cp ∷ cps) = validate_worker worker cp ++ validate_against worker cps

unfoldable pub validate_workers : List HostConfig → List HostConfig → List FieldError
validate_workers [] cps = []
validate_workers (w ∷ ws) cps = validate_against w cps ++ validate_workers ws cps

unfoldable pub validate_static_workers_config :
    (String → Bool) → List HostConfig → ControlPlaneConfig → ClusterNetworkConfig → List FieldError
validate_static_workers_config removes workers cp net =
    (if non_empty workers then validate_host_config removes workers net else [])
    ++ validate_workers workers cp.hosts

-- The number of node sets is tested, whatever their replicas.
unfoldable pub validate_control_plane_machines : List NodeSet → List FieldError
validate_control_plane_machines node_sets = error_if (length node_sets % 2 == 0) invalid "nodeSets"

unfoldable pub validate_control_plane_config :
    (String → Bool) → ControlPlaneConfig → ClusterNetworkConfig → List FieldError
validate_control_plane_config removes c net =
    if non_empty c.hosts
    then validate_host_config removes c.hosts net
    else if non_empty c.node_sets
    then validate_control_plane_machines c.node_sets
    else one invalid "controlPlane"

-- The loop over the alternative names, which ends at the first that it has visited.
unfoldable pub validate_alternative_names : List String → List String → List FieldError
validate_alternative_names visited [] = []
validate_alternative_names visited (a ∷ names) =
    let rest = validate_alternative_names (a ∷ visited) names in
    if any (str_eq a) visited then one invalid "apiEndpoint" else rest

unfoldable pub validate_api_endpoint : ApiEndpoint → List NodeSet → List FieldError
validate_api_endpoint a node_sets =
    error_if (is_empty a.host && not (non_empty node_sets)) required "host"
    ++ error_if (leb_ℤ a.port (pos 0)) invalid "port"
    ++ error_if (not (leb_ℤ a.port (pos 65535))) invalid "port"
    ++ validate_alternative_names [] a.alternative_names
