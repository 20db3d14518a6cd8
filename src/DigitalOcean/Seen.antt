-- ===== src/DigitalOcean/Seen.antt =====
-- What the search of `CleanupLoadBalancer` finds:
-- pkg/cloudprovider/digitalocean/loadbalancer.go.
use kubeone.Prelude.{All-map, ℕ, zero, suc, ◌+◌, Bool, Option, none, some, eq_iff, ◌≡◌, refl, arith}
use kubeone.Fail.{cloud}
use kubeone.Fail.Outcome.{Outcome, ok, err, fault}
use kubeone.Fail.Exec.Yields.{Returned}
use kubeone.Api.Cluster.{KubeOneCluster}
use kubeone.DigitalOcean.Objects.{LoadBalancer, lb_spec}
use kubeone.DigitalOcean.Client.{
  Client, Reply, done, failed, Page, search_page, search_pages, matching,
}
use kubeone.DigitalOcean.Searched.{Satisfies, search_page-Satisfies, All-Any}
use kubeone.DigitalOcean.Allowed.{Seen, Allows}

-- A property that is kept, and one of the value of a success.
abbrev Both : {S A : Type 0} → (S → Type 0) → (A → Type 0) → Outcome A × S → Type 0
Both P R x = P x.1 × Returned R x.0

module _ {W : Type 0} {c : Client W} {cluster : KubeOneCluster} {P : W → Type 0}
    (a : Allows c cluster P) where
  abbrev matches : LoadBalancer → Bool
  matches = matching (lb_spec cluster).name (lb_spec cluster).region

  abbrev SeenFound : Option LoadBalancer → Type 0
  SeenFound = Satisfies (Seen c cluster P)

  module _ (owned : LoadBalancer → Bool) where
    page-Seen :
        (found first : Option LoadBalancer) (more : Option (Outcome ℕ)) (w : W)
        (rest : ℕ → Outcome (Option LoadBalancer) × W)
        → P w
        → SeenFound found
        → SeenFound first
        → ((current : ℕ) → Both P (SeenFound) (rest current))
        → Both P (SeenFound) (elim found [
          | some lb ↦ (ok (some lb), w)
          | none ↦ elim more [
            | none ↦ (ok first, w)
            | some (ok current) ↦ rest current
            | some (err e) ↦ (err (cloud e "paginating load balancers"), w)
            | some fault ↦ (fault, w)
          ]
        ])
    page-Seen (some lb) first more w rest p h h' go = (p, h)
    page-Seen none first none w rest p h h' go = (p, h')
    page-Seen none first (some (ok current)) w rest p h h' go = go current
    page-Seen none first (some (err e)) w rest p h h' go = (p, tt)
    page-Seen none first (some fault) w rest p h h' go = (p, tt)

    pub search_pages-Seen :
        (fuel page : ℕ) (first : Option LoadBalancer) (w : W)
        → P w
        → SeenFound first
        → Both P (SeenFound) (search_pages c matches owned fuel page first w)
    unfolding search_pages
    search_pages-Seen zero page first w p h = (p, tt)
    search_pages-Seen (suc fuel) page first w p h =
        listed (c.list_page page w).0 refl (a.list_allowed page w p)
          (λ current o. search_pages-Seen fuel (current + 1) o (c.list_page page w).1)
      where
        listed :
            (reply : Reply Page)
            → (c.list_page page w).0 ≡ reply
            → P (c.list_page page w).1
            → ((current : ℕ) (o : Option LoadBalancer)
                → P (c.list_page page w).1
                → SeenFound o
                → Both P
                    (SeenFound)
                    (search_pages c matches owned fuel (current + 1) o (c.list_page page w).1))
            → Both P (SeenFound) (elim reply [
              | failed e _ ↦ (err (cloud e "listing load balancers"), (c.list_page page w).1)
              | done listed ↦
                  let (found, first') = search_page matches owned listed.items first in
                  elim found [
                    | some lb ↦ (ok (some lb), (c.list_page page w).1)
                    | none ↦ elim listed.more [
                      | none ↦ (ok first', (c.list_page page w).1)
                      | some (ok current) ↦
                          search_pages c matches owned fuel
                            (current + 1)
                            first'
                            (c.list_page page w).1
                      | some (err e) ↦
                          (err (cloud e "paginating load balancers"), (c.list_page page w).1)
                      | some fault ↦ (fault, (c.list_page page w).1)
                    ]
                  ]
            ])
        listed (failed e s) eq q go = (q, tt)
        listed (done l) eq q go =
            let seen =
              All-map
                (λ lb some_place match. (
                  w,
                  p,
                  page,
                  l,
                  eq,
                  some_place,
                  ground (arith, eq_iff lb.name (lb_spec cluster).name),
                ))
                l.items (All-Any l.items) in
            let (x, y) =
              search_page-Satisfies matches owned (Seen c cluster P) l.items first seen h in
            page-Seen _ _ l.more _
              (λ current.
                search_pages c matches owned fuel (current + 1)
                  (search_page matches owned l.items first).1 (c.list_page page w).1)
              q x y (λ current. go current _ q y)
