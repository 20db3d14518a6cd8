-- ===== src/V1beta3/Defaults.antt =====
-- The other defaults, and all of them in their order: pkg/apis/kubeone/v1beta3/defaults.go.
use kubeone.Prelude.{
  String, true, not, ◌&&◌, Option, none, some, List, [], map, is_some, is_empty, ◌==◌,
  if◌then◌else◌,
}
use Prim.Native.Char.{code}
use kubeone.Prelude.Int.{pos}
use kubeone.Api.Features.{CoreDns, StaticAuditLog}
use kubeone.V1beta3.Types.{KubeOneCluster, OpenIdConnect, TimedRelease}
use kubeone.V1beta3.Hosts.{
  default_text, default_number, or_default, set_defaults_hosts, set_defaults_node_set,
}
use kubeone.V1beta3.Network.{set_defaults_cluster_network, set_defaults_proxy}

-- `strings.TrimPrefix(s, "v")`
abbrev pub trim_v : String → String
trim_v String.[] = String.[]
trim_v (String.◌∷◌ c s) = if code c == b'v' then s else String.◌∷◌ c s

unfoldable pub set_defaults_ca_bundle : KubeOneCluster → KubeOneCluster
set_defaults_ca_bundle c =
    if not (is_empty c.ca_bundle) && is_empty c.certificate_authority_bundle
    then record c { certificate_authority_bundle = c.ca_bundle }
    else c

unfoldable pub set_defaults_cloud_provider : KubeOneCluster → KubeOneCluster
set_defaults_cloud_provider c =
    let p = c.cloud_provider in
    if not (is_some p.none_spec) && not (is_some p.vmware_cloud_director)
    then record c { cloud_provider = record p { external = true } }
    else c

unfoldable pub set_defaults_api_endpoints : KubeOneCluster → KubeOneCluster
set_defaults_api_endpoints c = record c {
  api_endpoint = record c.api_endpoint { port = default_number c.api_endpoint.port (pos 6443) };
}

unfoldable pub set_defaults_versions : KubeOneCluster → KubeOneCluster
set_defaults_versions c = record c { kubernetes_version = trim_v c.kubernetes_version }

unfoldable pub set_defaults_container_runtime : KubeOneCluster → KubeOneCluster
set_defaults_container_runtime c = record c {
  containerd = elim c.containerd [
    | none ↦ some (some true)
    | some ownership ↦ some (or_default ownership true)
  ];
}

unfoldable pub set_defaults_logging_config : KubeOneCluster → KubeOneCluster
set_defaults_logging_config c = record c {
  logging_config = record {
    container_log_max_size = default_text c.logging_config.container_log_max_size "100Mi";
    container_log_max_files = default_number c.logging_config.container_log_max_files (pos 5);
  };
}

unfoldable pub set_defaults_journald : KubeOneCluster → KubeOneCluster
set_defaults_journald c = record c {
  journald_system_max_use = default_text c.journald_system_max_use "5G";
}

unfoldable pub set_defaults_machine_controller : KubeOneCluster → KubeOneCluster
set_defaults_machine_controller c = record c {
  machine_controller =
      or_default c.machine_controller
        (record { deploy = not (is_some c.cloud_provider.none_spec) });
}

-- The machine controller is not nil here: its defaults come first.
unfoldable pub set_defaults_operating_system_manager : KubeOneCluster → KubeOneCluster
set_defaults_operating_system_manager c = elim c.machine_controller [
  | none ↦ c
  | some m ↦ record c {
    operating_system_manager = or_default c.operating_system_manager (record { deploy = m.deploy });
  }
]

-- Five minutes in nanoseconds.
abbrev pub default_release : TimedRelease → TimedRelease
default_release t = record t {
  release = record t.release { release_name = default_text t.release.release_name t.release.chart };
  wait_timeout = default_number t.wait_timeout (pos 300000000000);
}

abbrev pub default_addon : Option TimedRelease → Option TimedRelease
default_addon none = none
default_addon (some t) = some (default_release t)

unfoldable pub set_defaults_addons : KubeOneCluster → KubeOneCluster
set_defaults_addons c = record c {
  addons = elim c.addons [
    | none ↦ some (record { path = ""; addons = [] })
    | some a ↦ some (record a { addons = map default_addon a.addons })
  ];
}

unfoldable pub set_defaults_system_packages : KubeOneCluster → KubeOneCluster
set_defaults_system_packages c = record c {
  system_packages = or_default c.system_packages (record { configure_repositories = true });
}

abbrev pub default_core_dns : Option CoreDns → CoreDns
default_core_dns none = record {
  replicas = some (pos 2);
  deploy_pod_disruption_budget = some true;
  image_repository = "";
}
default_core_dns (some d) = record d {
  replicas = or_default d.replicas (pos 2);
  deploy_pod_disruption_budget = or_default d.deploy_pod_disruption_budget true;
}

abbrev pub default_static_audit_log_config : StaticAuditLog → StaticAuditLog
default_static_audit_log_config s = record s {
  log_path = default_text s.log_path "/var/log/kubernetes/audit.log";
  log_max_age = default_number s.log_max_age (pos 30);
  log_max_backup = default_number s.log_max_backup (pos 3);
  log_max_size = default_number s.log_max_size (pos 100);
}

abbrev pub default_openid_connect : OpenIdConnect → OpenIdConnect
default_openid_connect o = record o {
  client_id = default_text o.client_id "kubernetes";
  username_claim = default_text o.username_claim "sub";
  username_prefix = default_text o.username_prefix "oidc:";
  groups_claim = default_text o.groups_claim "groups";
  groups_prefix = default_text o.groups_prefix "oidc:";
  signing_algs = default_text o.signing_algs "RS256";
}

unfoldable pub set_defaults_features : KubeOneCluster → KubeOneCluster
set_defaults_features c =
    let f = c.features in
    record c {
      features = record {
        core_dns = some (default_core_dns f.core_dns);
        metrics_server = or_default f.metrics_server (record { enable = true });
        static_audit_log = elim f.static_audit_log [
          | none ↦ none
          | some s ↦ some (if s.enable then default_static_audit_log_config s else s)
        ];
        openid_connect = elim f.openid_connect [
          | none ↦ none
          | some o ↦ some (if o.enable then default_openid_connect o else o)
        ];
        node_local_dns = or_default f.node_local_dns (record { deploy = true });
      };
    }

-- The names of cipher suites that pkg/templates/kubernetesconfigs/tls.go takes from crypto/tls.
pub record CipherSuites : Type 0 where
  pub api_server : List String
  pub etcd : List String
  pub kubelet : List String

unfoldable pub set_defaults_tls_cipher_suites : CipherSuites → KubeOneCluster → KubeOneCluster
set_defaults_tls_cipher_suites names c = record c {
  tls_cipher_suites = record {
    api_server = or_default c.tls_cipher_suites.api_server names.api_server;
    etcd = or_default c.tls_cipher_suites.etcd names.etcd;
    kubelet = or_default c.tls_cipher_suites.kubelet names.kubelet;
  };
}

unfoldable pub set_defaults_kubeone_cluster : CipherSuites → KubeOneCluster → KubeOneCluster
set_defaults_kubeone_cluster names c =
    let c = set_defaults_versions (
      set_defaults_api_endpoints
        (set_defaults_cloud_provider (set_defaults_node_set (set_defaults_hosts c)))) in
    let c = set_defaults_journald (
      set_defaults_logging_config
        (set_defaults_proxy (set_defaults_cluster_network (set_defaults_container_runtime c)))) in
    let c = set_defaults_system_packages (
      set_defaults_addons
        (set_defaults_operating_system_manager (set_defaults_machine_controller c))) in
    set_defaults_ca_bundle (set_defaults_tls_cipher_suites names (set_defaults_features c))
