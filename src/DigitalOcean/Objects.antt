-- ===== src/DigitalOcean/Objects.antt =====
-- Load balancers, and the tests on them: pkg/cloudprovider/digitalocean/loadbalancer.go. Of the
-- types of the client library godo, the fields that the program reads or writes.
use kubeone.Prelude.{
  ℕ, String, Bool, true, false, not, ◌&&◌, ◌||◌, Option, none, some, List, [], ◌∷◌, str_eq,
  is_empty, ltb, ◌==◌, if◌then◌else◌,
}
use kubeone.Fail.{plain}
use kubeone.Fail.Outcome.{Outcome, ok, err}
use kubeone.Api.Cloud.{DigitalOceanLoadBalancer}
use kubeone.Api.Cluster.{KubeOneCluster}
use kubeone.DigitalOcean.Tags.{cluster_tag}

pub record HealthCheck : Type 0 where
  pub protocol : String
  pub port : ℕ
  pub path : String
  pub check_interval_seconds : ℕ
  pub response_timeout_seconds : ℕ
  pub healthy_threshold : ℕ
  pub unhealthy_threshold : ℕ

pub record ForwardingRule : Type 0 where
  pub entry_protocol : String
  pub entry_port : ℕ
  pub target_protocol : String
  pub target_port : ℕ

-- A region is its slug.
pub record LoadBalancer : Type 0 where
  pub id : String
  pub name : String
  pub type : String
  pub status : String
  pub ip : String
  pub region : Option String
  pub vpc_uuid : String
  pub tag : String
  pub droplet_ids : List ℕ
  pub health_check : Option HealthCheck
  pub forwarding_rules : List ForwardingRule

pub record LoadBalancerRequest : Type 0 where
  pub name : String
  pub region : String
  pub size_unit : ℕ
  pub size_slug : String
  pub tag : String
  pub droplet_ids : List ℕ
  pub health_check : Option HealthCheck
  pub forwarding_rules : List ForwardingRule

pub record Vpc : Type 0 where
  pub default : Bool

abbrev pub kube_api_port : ℕ
kube_api_port = 6443

abbrev no_load_balancer : DigitalOceanLoadBalancer
no_load_balancer = record { id = ""; name = ""; region = ""; size_unit = 0 }

unfoldable pub lb_spec : KubeOneCluster → DigitalOceanLoadBalancer
lb_spec cluster = elim cluster.cloud_provider.digital_ocean [
  | none ↦ no_load_balancer
  | some d ↦ elim d.control_plane [ none ↦ no_load_balancer | some lb ↦ lb ]
]

abbrev pub kube_api_health_check : HealthCheck
kube_api_health_check = record {
  protocol = "tcp";
  port = kube_api_port;
  path = "";
  check_interval_seconds = 3;
  response_timeout_seconds = 3;
  healthy_threshold = 2;
  unhealthy_threshold = 3;
}

unfoldable pub is_kube_api_health_check : Option HealthCheck → Bool
is_kube_api_health_check none = false
is_kube_api_health_check (some hc) = str_eq hc.protocol "tcp" && hc.port == kube_api_port

unfoldable pub checks_kube_api : Option HealthCheck → Bool
unfolding is_kube_api_health_check
checks_kube_api none = false
checks_kube_api (some hc) =
    is_kube_api_health_check (some hc)
    || (str_eq hc.protocol "https"
        && hc.port == kube_api_port
        && (str_eq hc.path "/readyz" || str_eq hc.path "/livez" || str_eq hc.path "/healthz"))

abbrev pub kube_api_forwarding_rule : ForwardingRule
kube_api_forwarding_rule = record {
  entry_protocol = "tcp";
  entry_port = kube_api_port;
  target_protocol = "tcp";
  target_port = kube_api_port;
}

-- The rule forwards TCP to the port of kube-apiserver.
abbrev pub forwards_kube_api : ForwardingRule → Bool
forwards_kube_api r =
    str_eq r.entry_protocol "tcp"
    && str_eq r.target_protocol "tcp"
    && r.target_port == kube_api_port

-- The loop over the rules ends at the first one with the entry port.
unfoldable pub has_kube_api_forwarding_rule : List ForwardingRule → Outcome Bool
has_kube_api_forwarding_rule [] = ok false
has_kube_api_forwarding_rule (r ∷ rs) = elim (r.entry_port == kube_api_port) [
  | false ↦ has_kube_api_forwarding_rule rs
  | true ↦ if forwards_kube_api r then ok true else err (plain "forwards elsewhere")
]

-- The balancer is active and has its address.
abbrev pub is_up : LoadBalancer → Bool
is_up lb = str_eq lb.status "active" && not (is_empty lb.ip)

unfoldable pub owned_by_kubeone : LoadBalancer → String → Bool
owned_by_kubeone lb cluster_name = str_eq lb.tag (cluster_tag cluster_name)

-- `region == ""` or the region is known and has that slug.
abbrev pub in_region : String → LoadBalancer → Bool
in_region region lb =
    is_empty region || elim lb.region [ none ↦ false | some slug ↦ str_eq slug region ]

-- `checkRegion`, which lets an unknown region pass.
unfoldable pub region_differs : String → LoadBalancer → Bool
region_differs region lb =
    not (is_empty region) && elim lb.region [ none ↦ false | some slug ↦ not (str_eq slug region) ]

unfoldable pub create_request : KubeOneCluster → LoadBalancerRequest
unfolding lb_spec
create_request cluster =
    let spec = lb_spec cluster in
    record {
      name = spec.name;
      region = spec.region;
      size_unit = spec.size_unit;
      size_slug = "";
      tag = cluster_tag cluster.name;
      droplet_ids = [];
      health_check = some kube_api_health_check;
      forwarding_rules = kube_api_forwarding_rule ∷ [];
    }

-- What `updateRequest` makes of the request with the current values.
unfoldable pub keep_one_size : LoadBalancerRequest → LoadBalancerRequest
keep_one_size req = record req {
  size_slug = if ltb 0 req.size_unit then "" else req.size_slug;
  droplet_ids = [];
}
