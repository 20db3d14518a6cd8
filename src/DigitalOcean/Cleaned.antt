-- ===== src/DigitalOcean/Cleaned.antt =====
-- What `CleanupLoadBalancer` does to the load balancers:
-- pkg/cloudprovider/digitalocean/loadbalancer.go.
use kubeone.Prelude.{
  ℕ, zero, suc, Bool, true, false, not, ◌&&◌, Option, none, some, str_eq, eq_iff, is_empty, ◌≡◌,
  ◌≢◌, refl, arith, Bool-cases, inl, inr,
}
use kubeone.Fail.{Error}
use kubeone.Fail.Outcome.{Outcome, ok, err, fault}
use kubeone.Fail.Exec.{lift}
use kubeone.Fail.Exec.Yields.{Returned, Yields, Yields-pure, Yields-bind, Yields-if}
use kubeone.Api.Cluster.{KubeOneCluster}
use kubeone.DigitalOcean.Tags.{cluster_tag}
use kubeone.DigitalOcean.Objects.{LoadBalancer, lb_spec, owned_by_kubeone, is_up}
use kubeone.DigitalOcean.Client.{
  Client, Reply, done, failed, requested, is_not_found, checks, becomes_up, waited,
  wait_for_load_balancer, find_load_balancer_by_name,
}
use kubeone.DigitalOcean.Searched.{Satisfies}
use kubeone.DigitalOcean.Balancer.{
  delete_balancer, cleanup_found, cleanup_load_balancer, release_read, release_load_balancer,
  provider_cleanup_load_balancer,
}
use kubeone.DigitalOcean.Allowed.{Seen, Tagged, Allows}
use kubeone.DigitalOcean.Seen.{search_pages-Seen}

-- Of a value, nothing is known.
nothing : {A : Type 0} (r : Outcome A) → Returned (λ _. Unit {0}) r
nothing (ok x) = tt
nothing (err e) = tt
nothing fault = tt

waited-kept :
    {W : Type 0} (P : W → Type 0) (x : Outcome (Unit {0}) × (W × Option LoadBalancer))
    → P x.1.0
    → P (waited x).1
waited-kept P (ok _, (w, none)) p = p
waited-kept P (ok _, (w, some lb)) p = p
waited-kept P (err e, (w, _)) p = p
waited-kept P (fault, (w, _)) p = p

-- A poll keeps what each of its checks keeps.
checks-kept :
    {S : Type 0} (P : S → Type 0) (expired : Error) (condition : S → Outcome Bool × S)
    → ((s : S) → P s → P (condition s).1)
    → (n : ℕ) (s : S) → P s
    → P (checks expired n condition s).1
unfolding checks
checks-kept {S = S} P expired condition k zero s p = p
checks-kept {S = S} P expired condition k (suc n) s p =
    after (condition s).0 (k s p) (λ q. checks-kept P expired condition k n (condition s).1 q)
  where
    after :
        (r : Outcome Bool)
        → P (condition s).1
        → (P (condition s).1 → P (checks expired n condition (condition s).1).1)
        → P
            (elim r as (λ _. Outcome (Unit {0}) × S) [
              | ok true ↦ (ok tt, (condition s).1)
              | ok false ↦ checks expired n condition (condition s).1
              | err e ↦ (err e, (condition s).1)
              | fault ↦ (fault, (condition s).1)
            ]).1
    after (ok true) q go = q
    after (ok false) q go = go q
    after (err e) q go = q
    after fault q go = q

module _ {W : Type 0} {c : Client W} {cluster : KubeOneCluster} {P : W → Type 0}
    (a : Allows c cluster P) where
  wait-allowed :
      (lb : LoadBalancer) (just_created : Bool)
      → Yields P (λ _. Unit {0}) (wait_for_load_balancer c lb just_created)
  unfolding wait_for_load_balancer becomes_up
  wait-allowed lb just_created = record {
    from = λ w p.
        let (n, _, polled) =
          c.waits.poll-checks (W × Option LoadBalancer) (becomes_up c lb.id just_created)
            (w, none) in
        elim (Bool-cases (is_up lb)) [
          | inl up ↦ rw up (p, tt)
          | inr down ↦
              rw (down, polled)
                (
                  waited-kept P
                      (checks c.waits.expired n (becomes_up c lb.id just_created) (w, none))
                      (checks-kept (λ (s : W × Option LoadBalancer). P s.0) c.waits.expired _
                        (λ s q. a.get_allowed lb.id s.0 q) n (w, none) p),
                  nothing _,
                )
        ];
  }

  requested-allowed :
      {A : Type 0} (wrap : Error → Error) (request : W → Reply A × W)
      → ((w : W) → P w → P (request w).1)
      → Yields P (λ _. Unit {0}) (requested wrap request)
  requested-allowed {A} wrap request h = record { from = λ w p. (h w p, nothing _) }

  delete-allowed :
      (fuel : ℕ) (lb : LoadBalancer)
      → ((w : W) → P w → P (c.delete lb.id w).1)
      → Yields P (λ _. Unit {0}) (delete_balancer c fuel lb.id)
  unfolding delete_balancer
  delete-allowed fuel lb h = record { from = λ w p. (h w p, nothing _) }

  cleanup_found-allowed :
      (fuel : ℕ) (found : Option LoadBalancer)
      → (lb_spec cluster).id ≡ ""
      → Satisfies (Seen c cluster P) found
      → Yields P (λ _. Unit {0}) (cleanup_found c fuel cluster found)
  unfolding cleanup_found owned_by_kubeone
  cleanup_found-allowed fuel none no_id h = Yields-pure P tt tt
  cleanup_found-allowed fuel (some lb) no_id seen =
      let host = cluster.api_endpoint.host in
      Yields-if (not (owned_by_kubeone lb cluster.name)) _ _ (λ _. Yields-pure P tt tt)
        λ own.
          Yields-if (not (is_empty host) && not (str_eq host lb.ip)) _ _ (λ _. Yields-pure P tt tt)
            λ leads. delete-allowed fuel lb λ w.
              a.delete_allowed lb w no_id seen
                (ground (arith, eq_iff lb.tag (cluster_tag cluster.name)))
                (ground (arith, eq_iff host "", eq_iff host lb.ip))

  release_read-allowed :
      (fuel : ℕ) (reply : Reply LoadBalancer)
      → (lb_spec cluster).id ≢ ""
      → (u : W) → P u
      → (c.get_balancer (lb_spec cluster).id u).0 ≡ reply
      → Yields P (λ _. Unit {0}) (release_read c fuel cluster reply)
  unfolding release_read
  release_read-allowed fuel (failed e status) by_id u q e' =
      Yields-if (is_not_found status) _ _ (λ _. Yields-pure P tt tt)
        λ _. record { from = λ w p. (p, tt) }
  release_read-allowed fuel (done lb) by_id u q e =
      Yields-if (not (str_eq lb.tag (cluster_tag cluster.name))) _ _ (λ _. Yields-pure P tt tt)
        λ own.
          let tagged : Tagged c cluster P =
            (u, q, lb, e, ground (arith, eq_iff lb.tag (cluster_tag cluster.name))) in
          Yields-bind _ _ _ (wait-allowed lb false) λ active _.
            Yields-bind _ _ _ (requested-allowed _ _ λ w p. a.untag_allowed active w by_id tagged p)
              λ _ _. Yields-pure P tt tt

-- For any property of the cloud that reads and these requests leave as it is, a cleanup leaves it
-- too, whether it succeeds or fails. With a reference by ID, the requests are to take away a tag, if
-- the balancer with that ID has the tag of the cluster; without one, to delete a balancer that stood
-- in a listing with the name of the configuration and the tag of the cluster, unless the endpoint is
-- set to another address than its own.
pub provider_cleanup_load_balancer-allowed :
    {W : Type 0} (c : Client W) (fuel : ℕ) (cluster : KubeOneCluster) (P : W → Type 0)
    → Allows c cluster P
    → (token : Outcome (Unit {0})) (w : W) → P w
    → P (provider_cleanup_load_balancer c fuel token cluster w).1
unfolding provider_cleanup_load_balancer cleanup_load_balancer release_load_balancer
    find_load_balancer_by_name
provider_cleanup_load_balancer-allowed c fuel cluster P a token w p =
    let spec = lb_spec cluster in
    let owned = λ (lb : LoadBalancer). owned_by_kubeone lb cluster.name in
    let cleanup =
      Yields-bind {P = P} {Q = λ _. Unit {0}} (λ _. Unit {0}) (lift token) _
        (record { from = λ u q. (q, nothing token) })
        λ _ _.
          Yields-if (not (is_empty spec.id)) (release_load_balancer c fuel cluster)
            (cleanup_load_balancer c fuel cluster)
            (λ by_id. record {
              from = λ u q.
                  (release_read-allowed a fuel (c.get_balancer spec.id u).0
                      (λ e. ground (arith, eq_iff spec.id "")) u q refl).from
                    (c.get_balancer spec.id u).1 (a.get_allowed spec.id u q);
            })
            (λ by_name.
              Yields-bind (Satisfies (Seen c cluster P)) _ _
                (record { from = λ u q. search_pages-Seen a owned fuel 1 none u q tt })
                λ found h.
                  cleanup_found-allowed a fuel found (ground (arith, eq_iff spec.id "")) h) in
    (cleanup.from w p).0
