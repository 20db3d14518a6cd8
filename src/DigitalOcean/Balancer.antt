-- ===== src/DigitalOcean/Balancer.antt =====
-- Ensuring, looking up and cleaning up the load balancer of a cluster:
-- pkg/cloudprovider/digitalocean/loadbalancer.go.
use kubeone.Prelude.{
  ℕ, String, Bool, true, false, not, ◌&&◌, Option, none, some, [], ◌∷◌, ◌++◌, length, str_eq,
  is_empty, ◌==◌, if◌then◌else◌,
}
use kubeone.Prelude.Int.{pos}
use kubeone.Fail.{plain, cloud}
use kubeone.Fail.Outcome.{Outcome, ok, err, fault}
use kubeone.Fail.Exec.{Exec, pure, lift, ◌>>=◌, ◌>>◌}
use kubeone.Api.Cluster.{KubeOneCluster}
use kubeone.DigitalOcean.Tags.{cluster_tag}
use kubeone.DigitalOcean.Objects.{
  LoadBalancer, LoadBalancerRequest, kube_api_port, kube_api_health_check, kube_api_forwarding_rule,
  lb_spec, is_kube_api_health_check, checks_kube_api, has_kube_api_forwarding_rule,
  owned_by_kubeone, region_differs, create_request, keep_one_size,
}
use kubeone.DigitalOcean.Client.{
  Client, Reply, done, failed, requested, is_not_found, wait_for_load_balancer, get_load_balancer,
  find_load_balancer_by_name,
}

-- `if test { return nil, fail.Cloud(...) }`
abbrev pub refuse_if : {W : Type 0} → Bool → String → Exec W Unit
refuse_if true op w = (err (cloud (plain "refused") op), w)
refuse_if false op w = (ok tt, w)

-- The tag, the health check and the rules that a reconciliation writes over those of the request.
unfoldable pub changed_request : String → Bool → Bool → LoadBalancerRequest → LoadBalancerRequest
changed_request set_tag needs_health_check has_rule req = record req {
  tag = if is_empty set_tag then req.tag else set_tag;
  health_check = if needs_health_check then some kube_api_health_check else req.health_check;
  forwarding_rules =
      if has_rule
      then req.forwarding_rules
      else req.forwarding_rules ++ (kube_api_forwarding_rule ∷ []);
}

-- Which tag is to be set on a balancer that is referenced by its ID; `none` if it has other backends.
unfoldable pub tag_to_set : LoadBalancer → String → Option String
tag_to_set lb backend_tag =
    if str_eq lb.tag backend_tag
    then some ""
    else if is_empty lb.tag && length lb.droplet_ids == 0
    then some backend_tag
    else none

abbrev pub update_request : {W : Type 0} → Client W → LoadBalancer → LoadBalancerRequest
update_request c lb = keep_one_size (c.as_request lb)

abbrev pub wrapped : {A : Type 0} → Outcome A → String → Outcome A
wrapped (err e) op = err (cloud e op)
wrapped (ok a) op = ok a
wrapped fault op = fault

module _ {W : Type 0} (c : Client W) (fuel : ℕ) where
  -- The single update, and the wait for it.
  unfoldable pub apply_update : LoadBalancer → LoadBalancerRequest → Exec W LoadBalancer
  apply_update lb req = do
    updated ← requested (λ e. cloud e "updating load balancer") (c.update lb.id req)
    wait_for_load_balancer c updated false

  unfoldable pub reconcile_load_balancer : LoadBalancer → String → Bool → Exec W LoadBalancer
  unfolding changed_request apply_update
  reconcile_load_balancer lb set_tag restore_health_check = do
    has_rule ←
        lift
          (wrapped (has_kube_api_forwarding_rule lb.forwarding_rules) "configuring load balancer")
    let needs_health_check = restore_health_check && not (is_kube_api_health_check lb.health_check)
    if is_empty set_tag && (not needs_health_check && has_rule)
        then pure lb
        else apply_update lb
            (changed_request set_tag needs_health_check has_rule (update_request c lb))

  unfoldable pub check_default_vpc : LoadBalancer → Exec W Unit
  check_default_vpc lb = if is_empty lb.vpc_uuid then pure tt else do
    vpc ← requested (λ e. cloud e "configuring load balancer") (c.get_vpc lb.vpc_uuid)
    refuse_if (not vpc.default) "configuring load balancer"

  unfoldable pub ensure_existing_load_balancer : KubeOneCluster → Exec W LoadBalancer
  unfolding lb_spec tag_to_set check_default_vpc
  ensure_existing_load_balancer cluster = do
    let spec = lb_spec cluster
    found ← get_load_balancer c spec.id
    lb ← wait_for_load_balancer c found false
    refuse_if (str_eq lb.type c.global_type) "configuring load balancer"
    refuse_if (region_differs spec.region lb) "configuring load balancer"
    check_default_vpc lb
    set_tag ← elim (tag_to_set lb (cluster_tag cluster.name)) [
      | some tag ↦ pure tag
      | none ↦ lift (err (cloud (plain "has backends") "configuring load balancer"))
    ]
    refuse_if (not (checks_kube_api lb.health_check)) "configuring load balancer"
    reconcile_load_balancer lb set_tag false

  -- The cases of the search by name.
  unfoldable pub ensure_found : KubeOneCluster → Option LoadBalancer → Exec W LoadBalancer
  unfolding create_request reconcile_load_balancer
  ensure_found cluster (some lb) = do
    refuse_if (not (owned_by_kubeone lb cluster.name)) "ensuring load balancer"
    active ← wait_for_load_balancer c lb false
    reconcile_load_balancer active "" true
  ensure_found cluster none = do
    lb ← requested (λ e. cloud e "creating load balancer") (c.create (create_request cluster))
    wait_for_load_balancer c lb true

  unfoldable pub ensure_load_balancer : KubeOneCluster → Exec W LoadBalancer
  unfolding ensure_existing_load_balancer ensure_found lb_spec
  ensure_load_balancer cluster =
      let spec = lb_spec cluster in
      if not (is_empty spec.id)
      then ensure_existing_load_balancer cluster
      else find_load_balancer_by_name c fuel spec.name spec.region cluster.name
        >>= ensure_found cluster

  unfoldable pub lookup_load_balancer : KubeOneCluster → Exec W LoadBalancer
  unfolding lb_spec
  lookup_load_balancer cluster =
      let spec = lb_spec cluster in
      if not (is_empty spec.id) then get_load_balancer c spec.id else do
        found ← find_load_balancer_by_name c fuel spec.name spec.region cluster.name
        elim found [
          | some lb ↦ pure lb
          | none ↦ lift (err (cloud (plain "no load balancer found") "looking up load balancer"))
        ]

  -- A reply to a deletion, where a missing balancer is no error.
  unfoldable pub delete_balancer : String → Exec W Unit
  delete_balancer id w =
      let (r, w') = c.delete id w in
      (
        elim r [
          | done _ ↦ ok tt
          | failed e status ↦
              if is_not_found status then ok tt else err (cloud e "deleting load balancer")
        ],
        w',
      )

  unfoldable pub cleanup_found : KubeOneCluster → Option LoadBalancer → Exec W Unit
  unfolding delete_balancer
  cleanup_found cluster none = pure tt
  cleanup_found cluster (some lb) =
      let host = cluster.api_endpoint.host in
      if not (owned_by_kubeone lb cluster.name)
      then pure tt
      else if not (is_empty host) && not (str_eq host lb.ip)
      then pure tt
      else delete_balancer lb.id

  unfoldable pub cleanup_load_balancer : KubeOneCluster → Exec W Unit
  unfolding cleanup_found lb_spec
  cleanup_load_balancer cluster =
      let spec = lb_spec cluster in
      find_load_balancer_by_name c fuel spec.name spec.region cluster.name >>= cleanup_found cluster

  -- The balancer without the tag, or what the read of it failed with.
  unfoldable pub release_read : KubeOneCluster → Reply LoadBalancer → Exec W Unit
  release_read cluster (failed e status) =
      if is_not_found status then pure tt else lift (err (cloud e "getting load balancer"))
  release_read cluster (done lb) =
      if not (str_eq lb.tag (cluster_tag cluster.name)) then pure tt else do
        active ← wait_for_load_balancer c lb false
        requested (λ e. cloud e "updating load balancer")
            (c.update active.id (record (update_request c active) { tag = "" }))
        pure tt

  unfoldable pub release_load_balancer : KubeOneCluster → Exec W Unit
  unfolding release_read lb_spec
  release_load_balancer cluster w =
      let (reply, w') = c.get_balancer (lb_spec cluster).id w in release_read cluster reply w'

  -- The methods of the provider, whose client needs the token.
  unfoldable pub provider_ensure_load_balancer :
      Outcome (Unit {0}) → KubeOneCluster → Exec W KubeOneCluster
  unfolding ensure_load_balancer
  provider_ensure_load_balancer token cluster =
      if not (is_empty cluster.api_endpoint.host) then pure cluster else do
        lift token
        lb ← ensure_load_balancer cluster
        pure (record cluster {
          api_endpoint = record cluster.api_endpoint { host = lb.ip; port = pos kube_api_port };
        })

  unfoldable pub provider_lookup_load_balancer :
      Outcome (Unit {0}) → KubeOneCluster → Exec W KubeOneCluster
  unfolding lookup_load_balancer
  provider_lookup_load_balancer token cluster =
      if not (is_empty cluster.api_endpoint.host) then pure cluster else do
        lift token
        lb ← lookup_load_balancer cluster
        refuse_if (is_empty lb.ip) "looking up load balancer"
        pure (record cluster {
          api_endpoint = record cluster.api_endpoint { host = lb.ip; port = pos kube_api_port };
        })

  unfoldable pub provider_cleanup_load_balancer : Outcome (Unit {0}) → KubeOneCluster → Exec W Unit
  unfolding cleanup_load_balancer release_load_balancer lb_spec
  provider_cleanup_load_balancer token cluster = do
    lift token
    if not (is_empty (lb_spec cluster).id)
        then release_load_balancer cluster
        else cleanup_load_balancer cluster
