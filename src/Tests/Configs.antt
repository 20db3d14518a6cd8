-- ===== src/Tests/Configs.antt =====
-- The theorems on the validation at concrete configurations.
use kubeone.Prelude.{
  ℕ, ◌≤◌, String, Bool, true, false, none, some, [], ◌∷◌, keep, length, All, ◌≡◌, ◌↔◌, ◌⊎◌, refl,
  is_empty,
}
use kubeone.Prelude.Int.{pos}
use kubeone.Api.Network.{Cni, has_ipv6}
use kubeone.Api.Cluster.{non_empty}
use kubeone.Validation.Hosts.{
  validate_host, validate_hosts, validate_host_config, validate_workers, validate_against,
  validate_worker, validate_static_workers_config, validate_api_endpoint, validate_kubelet_config,
  validate_labels, validate_taints,
}
use kubeone.Validation.Accepted.{Apart, validate_static_workers_config-Apart}
use kubeone.Validation.Endpoint.{Unrepeated, validate_api_endpoint_iff}
use kubeone.Tests.Samples.{cluster, network, host_config}

abbrev canal_only : Cni
canal_only = record {
  canal = some (record { mtu = pos 1450 });
  cilium = none;
  weave_net = none;
  external = none;
}

-- No label is to be removed.
abbrev no_removal : String → Bool
no_removal _ = false

validate_static_workers_config-Apart_example :
    All (λ w. All (Apart w) cluster.control_plane.hosts) (host_config "w" false ∷ [])
    × (length (keep (λ h. h.is_leader) (host_config "w" false ∷ [])) ≤ 1)
unfolding validate_static_workers_config validate_host_config validate_hosts validate_host
    validate_workers validate_against validate_worker validate_kubelet_config validate_labels
    validate_taints has_ipv6
validate_static_workers_config-Apart_example =
    validate_static_workers_config-Apart no_removal (host_config "w" false ∷ [])
      cluster.control_plane network refl

validate_api_endpoint_iff_example :
    (validate_api_endpoint cluster.api_endpoint cluster.control_plane.node_sets ≡ []) ↔ (
      ((is_empty cluster.api_endpoint.host ≡ false)
        ⊎ (non_empty cluster.control_plane.node_sets ≡ true))
      × ((n : ℕ) × (pos 6443 ≡ pos n) × (1 ≤ n) × (n ≤ 65535))
      × Unrepeated [])
validate_api_endpoint_iff_example =
    validate_api_endpoint_iff cluster.api_endpoint cluster.control_plane.node_sets
