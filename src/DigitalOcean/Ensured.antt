-- ===== src/DigitalOcean/Ensured.antt =====
-- Every load balancer that `ensureLoadBalancer` returns serves the cluster:
-- pkg/cloudprovider/digitalocean/loadbalancer.go.
use kubeone.Prelude.{
  ℕ, String, Bool, true, false, not, Option, none, some, str_eq, eq_iff, is_empty, ◌≡◌, refl, sym,
  ◌∙◌, ap, subst, arith, Bool-cases, Option-cases, inl, inr, if◌then◌else◌,
}
use kubeone.Fail.{plain, cloud}
use kubeone.Fail.Outcome.{ok, err}
use kubeone.Fail.Exec.{Exec, pure, lift, ◌>>◌}
use kubeone.Fail.Exec.Ensures.{
  Ensures, Ended, Ensures-bind, Ensures-pure, Ensures-if, Ensures-weaken, Ensures-given,
}
use kubeone.Api.Cluster.{KubeOneCluster}
use kubeone.DigitalOcean.Tags.{cluster_tag}
use kubeone.DigitalOcean.Objects.{
  LoadBalancer, is_up, lb_spec, checks_kube_api, owned_by_kubeone, region_differs, create_request,
}
use kubeone.DigitalOcean.Client.{Client, Reply, done, failed, is_not_found, get_load_balancer}
use kubeone.DigitalOcean.Balancer.{
  refuse_if, tag_to_set, check_default_vpc, ensure_existing_load_balancer, ensure_found,
  ensure_load_balancer,
}
use kubeone.DigitalOcean.Faithful.{
  Settings, settings_of, requested_settings, Told, Faithful, Shows, wait-Active, Told-same,
}
use kubeone.DigitalOcean.Routes.{routed, checks_kube_api-Checked}
use kubeone.DigitalOcean.Listed.{Listed, find-Listed}
use kubeone.DigitalOcean.Serving.{
  Serves, Serving, Known, wait-Known, wait-Serves, Ensures-requested, Ensures-refuse_if,
  reconcile-Serving,
}

module _ {W : Type 0} {c : Client W} (f : Faithful c) (fuel : ℕ) (cluster : KubeOneCluster) where
  abbrev backend_tag : String
  backend_tag = cluster_tag cluster.name

  -- The tag is there, or this one is to be set.
  abbrev Chosen : LoadBalancer → String → Type 0
  Chosen lb set_tag =
      (is_empty set_tag ≡ true → lb.tag ≡ backend_tag)
      × (is_empty set_tag ≡ false → set_tag ≡ backend_tag)

  tag_to_set-Chosen :
      (lb : LoadBalancer) (tag : String) → tag_to_set lb backend_tag ≡ some tag → Chosen lb tag
  unfolding tag_to_set
  tag_to_set-Chosen lb tag h =
      ground
        (arith, eq_iff lb.tag backend_tag, eq_iff lb.tag "", eq_iff backend_tag "", eq_iff tag "")

  got-stored :
      (id : String) (w w' : W) (r : Reply LoadBalancer)
      → Told (λ lb. (lb.id ≡ id) × (settings_of lb ≡ f.stored w id)) r
      → f.stored w' ≡ f.stored w
      → Ended
          (λ (lb : LoadBalancer) (u : W). f.stored u lb.id ≡ settings_of lb)
          (
            elim r [
              | done lb ↦ ok lb
              | failed e status ↦
                  if is_not_found status
                  then err (cloud (plain "no load balancer found") "looking up load balancer")
                  else err (cloud e "getting load balancer")
            ],
            w',
          )
  got-stored id w w' (done lb) (same, shown) kept =
      ap (λ (g : String → Settings). g lb.id) kept ∙ ap (f.stored w) same ∙ sym shown
  got-stored id w w' (failed e status) told kept = elim (Bool-cases (is_not_found status)) [
    | inl missing ↦ rw missing tt
    | inr broken ↦ rw broken tt
  ]

  get-stored :
      (id : String)
      → Ensures (λ _. Unit) (λ lb w. f.stored w lb.id ≡ settings_of lb) (get_load_balancer c id)
  unfolding get_load_balancer
  get-stored id = record {
    from = λ w _.
        got-stored id w (c.get_balancer id w).1 (c.get_balancer id w).0 (f.get_told id w)
          (f.get_kept id w);
  }

  check_default_vpc-kept :
      (lb : LoadBalancer)
      → Ensures (Known f fuel lb) (λ _. Known f fuel lb) (check_default_vpc c fuel lb)
  unfolding check_default_vpc
  check_default_vpc-kept lb =
      Ensures-if (is_empty lb.vpc_uuid) _ _ (λ _. Ensures-pure tt λ w k. k)
        λ _.
          Ensures-bind (λ _. Known f fuel lb) _ _
            (Ensures-requested f fuel _ _ λ w k.
              Told-same (c.get_vpc lb.vpc_uuid w).0
                (ap (λ (g : String → Settings). g lb.id) (f.vpc_kept lb.vpc_uuid w) ∙ k.0, k.1))
            λ vpc.
              Ensures-weaken _ (λ w k. k) (λ _ w k. k.0)
                (Ensures-refuse_if f fuel (not vpc.default) "configuring load balancer")

  -- A test that is passed, and what follows it.
  passing :
      (lb : LoadBalancer) (test : Bool) (next : Exec W LoadBalancer)
      → (test ≡ false → Ensures (Known f fuel lb) (Serving f fuel backend_tag) next)
      → Ensures
          (Known f fuel lb)
          (Serving f fuel backend_tag)
          (refuse_if test "configuring load balancer" >> next)
  passing lb test next h =
      Ensures-bind _ _ _ (Ensures-refuse_if f fuel test "configuring load balancer")
        λ _. Ensures-given _ _ h

  choose_tag :
      (lb : LoadBalancer)
      → Ensures
          (Known f fuel lb)
          (λ tag w. Known f fuel lb w × Chosen lb tag)
          (elim (tag_to_set lb backend_tag) [
            | some tag ↦ pure tag
            | none ↦ lift (err (cloud (plain "has backends") "configuring load balancer"))
          ])
  choose_tag lb = elim (Option-cases (tag_to_set lb backend_tag)) [
    | inl other ↦ rw other (record { from = λ w k. tt })
    | inr (tag, own) ↦ rw own (Ensures-pure tag λ w k. (k, tag_to_set-Chosen lb tag own))
  ]

  ensure_existing-Serving :
      Ensures
        (λ _. Unit)
        (Serving f fuel backend_tag)
        (ensure_existing_load_balancer c fuel cluster)
  unfolding ensure_existing_load_balancer
  ensure_existing-Serving = Ensures-bind _ _ _ (get-stored (lb_spec cluster).id) λ found.
      Ensures-bind _ _ _ (wait-Known f fuel found false) λ lb.
        passing lb (str_eq lb.type c.global_type) _ λ _.
          passing lb (region_differs (lb_spec cluster).region lb) _ λ _.
            Ensures-bind _ _ _ (check_default_vpc-kept lb) λ _.
              Ensures-bind _ _ _ (choose_tag lb) λ set_tag. Ensures-given _ _ λ chosen.
                passing lb (not (checks_kube_api lb.health_check)) _ λ checks.
                  reconcile-Serving f fuel backend_tag lb set_tag false (record {
                    kept = chosen.0;
                    changed = chosen.1;
                    good = λ _. checks_kube_api-Checked lb.health_check (ground arith);
                  })

  owned_tag_lem :
      (lb : LoadBalancer) → not (owned_by_kubeone lb cluster.name) ≡ false → lb.tag ≡ backend_tag
  unfolding owned_by_kubeone
  owned_tag_lem lb h = ground (arith, eq_iff lb.tag backend_tag)

  created-Serves : Serves backend_tag (requested_settings (create_request cluster))
  unfolding create_request
  created-Serves = record {
    target = refl;
    routes = routed refl refl refl refl;
    checked = (refl, inl refl);
  }

  ensure_found-Serving :
      (found : Option LoadBalancer)
      → Ensures (Listed f found) (Serving f fuel backend_tag) (ensure_found c fuel cluster found)
  unfolding ensure_found
  ensure_found-Serving none =
      Ensures-bind (Shows f (requested_settings (create_request cluster))) _ _
        (Ensures-requested f fuel _ _ λ w _. f.create_told (create_request cluster) w)
        λ lb. wait-Serves f fuel backend_tag _ lb true created-Serves
  ensure_found-Serving (some lb) =
      Ensures-bind _ _ _
        (Ensures-refuse_if f fuel (not (owned_by_kubeone lb cluster.name)) "ensuring load balancer")
        λ _. Ensures-given _ _ λ own.
          Ensures-bind (λ active w. Known f fuel active w × (active.tag ≡ backend_tag)) _ _
            (Ensures-weaken _ (λ w listed. (refl, listed))
              (λ active w a. (
                (a.0.1 ∙ sym a.0.0, a.1),
                ap (λ (σ : Settings). σ.tag) a.0.0 ∙ owned_tag_lem lb own,
              ))
              (wait-Active f (settings_of lb) lb false))
            λ active. Ensures-given _ _ λ tagged.
              reconcile-Serving f fuel backend_tag active "" true (record {
                kept = λ _. tagged;
                changed = λ h. absurd (ground (arith, h));
                good = λ h. absurd (ground (arith, h));
              })

-- With an API that behaves as documented: a load balancer that `ensureLoadBalancer` returns, found
-- by its name, newly created or referenced by its ID, is up, and the settings that are then stored
-- for it target the droplets with the tag of the cluster, send TCP connections to port 6443 on to
-- that port, and check the health of kube-apiserver.
pub ensure_load_balancer-Serving :
    {W : Type 0} (c : Client W) (f : Faithful c) (fuel : ℕ) (cluster : KubeOneCluster) (w w' : W)
    (lb : LoadBalancer)
    → ensure_load_balancer c fuel cluster w ≡ (ok lb, w')
    → Serves (cluster_tag cluster.name) (f.stored w' lb.id) × (is_up lb ≡ true)
unfolding ensure_load_balancer
ensure_load_balancer-Serving c f fuel cluster w w' lb h =
    let spec = lb_spec cluster in
    let ensures =
      Ensures-if {P = λ _. Unit} {Q = Serving f fuel (cluster_tag cluster.name)}
        (not (is_empty spec.id)) _ _ (λ _. ensure_existing-Serving f fuel cluster)
        (λ _.
          Ensures-bind _ _ _ (find-Listed f fuel spec.name spec.region cluster.name)
            (ensure_found-Serving f fuel cluster)) in
    subst (Ended (Serving f fuel (cluster_tag cluster.name))) h (ensures.from w tt)
