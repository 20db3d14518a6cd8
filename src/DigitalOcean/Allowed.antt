-- ===== src/DigitalOcean/Allowed.antt =====
-- The requests that `CleanupLoadBalancer` may make:
-- pkg/cloudprovider/digitalocean/loadbalancer.go.
use kubeone.Prelude.{Any, ℕ, String, ◌≡◌, ◌≢◌, ◌⊎◌}
use kubeone.Api.Cluster.{KubeOneCluster}
use kubeone.DigitalOcean.Tags.{cluster_tag}
use kubeone.DigitalOcean.Objects.{LoadBalancer, lb_spec}
use kubeone.DigitalOcean.Client.{Client, done, Page}
use kubeone.DigitalOcean.Balancer.{update_request}

module _ {W : Type 0} (c : Client W) (cluster : KubeOneCluster) (P : W → Type 0) where
  -- The balancer stood on a page of a listing, and has the name of the configuration.
  abbrev pub Seen : LoadBalancer → Type 0
  Seen lb =
      (u : W) × P u
      × (number : ℕ) × (page : Page) × ((c.list_page number u).0 ≡ done page)
      × Any (λ x. x ≡ lb) page.items
      × (lb.name ≡ (lb_spec cluster).name)

  -- The balancer that the configuration references by its ID had the tag of the cluster.
  abbrev pub Tagged : Type 0
  Tagged =
      (u : W) × P u
      × (first : LoadBalancer) × ((c.get_balancer (lb_spec cluster).id u).0 ≡ done first)
      × (first.tag ≡ cluster_tag cluster.name)

  -- A property of the cloud that reads do not change, nor the requests that a cleanup may make: the
  -- deletion of a balancer with the tag of the cluster that the endpoint may lead to, if none is
  -- referenced by its ID, and else only the removal of the tag.
  pub record Allows : Type 0 where
    pub get_allowed : (id : String) (w : W) → P w → P (c.get_balancer id w).1
    pub list_allowed : (page : ℕ) (w : W) → P w → P (c.list_page page w).1
    pub delete_allowed :
        (lb : LoadBalancer) (w : W)
        → (lb_spec cluster).id ≡ ""
        → Seen lb
        → lb.tag ≡ cluster_tag cluster.name
        → (cluster.api_endpoint.host ≡ "") ⊎ (cluster.api_endpoint.host ≡ lb.ip)
        → P w
        → P (c.delete lb.id w).1
    pub untag_allowed :
        (lb : LoadBalancer) (w : W)
        → (lb_spec cluster).id ≢ ""
        → Tagged
        → P w
        → P (c.update lb.id (record (update_request c lb) { tag = "" }) w).1
