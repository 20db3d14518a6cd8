-- ===== src/DigitalOcean/Listed.antt =====
-- A load balancer that the search by name returns has the settings that are stored for it:
-- `findLoadBalancerByName` of pkg/cloudprovider/digitalocean/loadbalancer.go.
use kubeone.Prelude.{
  ℕ, zero, suc, ◌+◌, String, Bool, Option, none, some, All, All-map, ◌≡◌, sym, ◌∙◌, ap,
}
use kubeone.Fail.{cloud}
use kubeone.Fail.Outcome.{Outcome, ok, err, fault}
use kubeone.Fail.Exec.Ensures.{Ensures, Ended}
use kubeone.DigitalOcean.Objects.{LoadBalancer, owned_by_kubeone}
use kubeone.DigitalOcean.Client.{
  Client, Reply, done, failed, Page, search_page, search_pages, matching,
  find_load_balancer_by_name,
}
use kubeone.DigitalOcean.Searched.{Satisfies, search_page-Satisfies}
use kubeone.DigitalOcean.Faithful.{Faithful, Settings, settings_of, Told}

module _ {W : Type 0} {c : Client W} (f : Faithful c) where
  abbrev pub Listed : Option LoadBalancer → W → Type 0
  Listed o w = Satisfies (λ lb. f.stored w lb.id ≡ settings_of lb) o

  Listed-kept :
      (o : Option LoadBalancer) (w w' : W) → f.stored w' ≡ f.stored w → Listed o w → Listed o w'
  Listed-kept none w w' e l = tt
  Listed-kept (some lb) w w' e l = ap (λ (g : String → Settings). g lb.id) e ∙ l

  module _ (matches owned : LoadBalancer → Bool) where
    -- What the loop goes on with after a page.
    page-Listed :
        (found first : Option LoadBalancer) (more : Option (Outcome ℕ)) (w : W)
        (rest : ℕ → Outcome (Option LoadBalancer) × W)
        → Listed found w
        → Listed first w
        → ((current : ℕ) → Ended Listed (rest current))
        → Ended Listed (elim found [
          | some lb ↦ (ok (some lb), w)
          | none ↦ elim more [
            | none ↦ (ok first, w)
            | some (ok current) ↦ rest current
            | some (err e) ↦ (err (cloud e "paginating load balancers"), w)
            | some fault ↦ (fault, w)
          ]
        ])
    page-Listed (some lb) first more w rest l l' go = l
    page-Listed none first none w rest l l' go = l'
    page-Listed none first (some (ok current)) w rest l l' go = go current
    page-Listed none first (some (err e)) w rest l l' go = tt
    page-Listed none first (some fault) w rest l l' go = tt

    search_pages-Listed :
        (fuel page : ℕ) (first : Option LoadBalancer)
        → Ensures (Listed first) Listed (search_pages c matches owned fuel page first)
    unfolding search_pages
    search_pages-Listed zero page first = record { from = λ w l. tt }
    search_pages-Listed (suc fuel) page first = record {
      from = λ w l.
          listed w (c.list_page page w).0 (c.list_page page w).1 (f.list_told page w)
            (f.list_kept page w) (Listed-kept first w _ (f.list_kept page w) l)
            (λ o current. (search_pages-Listed fuel (current + 1) o).from (c.list_page page w).1);
    }
      where
        listed :
            (w : W) (reply : Reply Page) (w' : W)
            → Told (λ (p : Page). All (λ lb. settings_of lb ≡ f.stored w lb.id) p.items) reply
            → f.stored w' ≡ f.stored w
            → Listed first w'
            → ((o : Option LoadBalancer) (current : ℕ)
                → Listed o w'
                → Ended Listed (search_pages c matches owned fuel (current + 1) o w'))
            → Ended Listed (elim reply [
              | failed e _ ↦ (err (cloud e "listing load balancers"), w')
              | done listed ↦
                  let (found, first') = search_page matches owned listed.items first in
                  elim found [
                    | some lb ↦ (ok (some lb), w')
                    | none ↦ elim listed.more [
                      | none ↦ (ok first', w')
                      | some (ok current) ↦
                          search_pages c matches owned fuel (current + 1) first' w'
                      | some (err e) ↦ (err (cloud e "paginating load balancers"), w')
                      | some fault ↦ (fault, w')
                    ]
                  ]
            ])
        listed w (failed e s) w' told kept l go = tt
        listed w (done p) w' told kept l go =
            let now =
              All-map (λ lb s _. sym (s ∙ ap (λ (g : String → Settings). g lb.id) (sym kept)))
                p.items told in
            let (a, b) =
              search_page-Satisfies matches owned (λ lb. f.stored w' lb.id ≡ settings_of lb) p.items
                first now l in
            page-Listed _ _ p.more w'
              (λ current.
                search_pages c matches owned fuel (current + 1)
                  (search_page matches owned p.items first).1 w')
              a b (λ current. go _ current b)

  pub find-Listed :
      (fuel : ℕ) (name region cluster_name : String)
      → Ensures (λ _. Unit) Listed (find_load_balancer_by_name c fuel name region cluster_name)
  unfolding find_load_balancer_by_name
  find-Listed fuel name region cluster_name =
      search_pages-Listed (matching name region) (λ lb. owned_by_kubeone lb cluster_name) fuel 1
        none
