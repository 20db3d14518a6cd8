-- ===== src/DigitalOcean/Client.antt =====
-- The client of DigitalOcean, and the functions of pkg/cloudprovider/digitalocean/loadbalancer.go
-- that find a load balancer and wait for it.
use kubeone.Prelude.{
  ℕ, zero, suc, ◌+◌, ◌≤◌, String, Bool, true, false, not, ◌&&◌, ◌||◌, Option, none, some, List, [],
  ◌∷◌, str_eq, ◌==◌, ◌≡◌, if◌then◌else◌,
}
use kubeone.Fail.{Error, plain, cloud}
use kubeone.Fail.Outcome.{Outcome, ok, err, fault}
use kubeone.Fail.Exec.{Exec}
use kubeone.DigitalOcean.Objects.{
  LoadBalancer, LoadBalancerRequest, Vpc, is_up, in_region, owned_by_kubeone,
}

-- The answer to a request: an error may come with the status code of a response.
pub data Reply (A : Type 0) : Type 0 where
  done : A → Reply A
  failed : Error → Option ℕ → Reply A

-- A page of a listing, and what the links of its response say: nothing more, or the number of this
-- page.
pub record Page : Type 0 where
  pub items : List LoadBalancer
  pub more : Option (Outcome ℕ)

-- At most `n` checks of a condition, as a poll makes them until it times out.
unfoldable pub checks :
    {S : Type 0} → Error → ℕ → (S → Outcome Bool × S) → S → Outcome (Unit {0}) × S
checks expired zero condition s = (err expired, s)
checks expired (suc n) condition s =
    let (r, s') = condition s in
    elim r [
      | ok true ↦ (ok tt, s')
      | ok false ↦ checks expired n condition s'
      | err e ↦ (err e, s')
      | fault ↦ (fault, s')
    ]

-- `wait.PollUntilContextTimeout`: it checks until it times out, which leaves room for `least` checks
-- or more.
pub record Poll : Type 1 where
  pub poll : (S : Type 0) → (S → Outcome Bool × S) → Exec S Unit
  pub expired : Error
  pub least : ℕ
  pub poll-checks :
      (S : Type 0) (condition : S → Outcome Bool × S) (s : S)
      → (n : ℕ) × (least ≤ n) × (poll S condition s ≡ checks expired n condition s)

-- The services for load balancers and VPCs, over a state `W` of the cloud.
pub record Client (W : Type 0) : Type 1 where
  pub get_balancer : String → W → Reply LoadBalancer × W
  pub list_page : ℕ → W → Reply Page × W
  pub create : LoadBalancerRequest → W → Reply LoadBalancer × W
  pub update : String → LoadBalancerRequest → W → Reply LoadBalancer × W
  pub delete : String → W → Reply Unit × W
  pub get_vpc : String → W → Reply Vpc × W
  -- `AsRequest`
  pub as_request : LoadBalancer → LoadBalancerRequest
  pub waits : Poll
  -- The constant `LoadBalancerTypeGlobal`.
  pub global_type : String

unfoldable pub is_not_found : Option ℕ → Bool
is_not_found none = false
is_not_found (some status) = status == 404

unfoldable pub is_permanent_error : Option ℕ → Bool → Bool
is_permanent_error none retry_not_found = false
is_permanent_error (some status) retry_not_found =
    status == 400 || status == 401 || status == 403 || (status == 404 && not retry_not_found)

-- A reply whose error is wrapped.
abbrev pub requested : {A W : Type 0} → (Error → Error) → (W → Reply A × W) → Exec W A
requested wrap request w =
    let (r, w') = request w in (elim r [ done a ↦ ok a | failed e _ ↦ err (wrap e) ], w')

-- The verdict of one look at the balancer, and `current` after it.
unfoldable pub look :
    Bool → Reply LoadBalancer → Option LoadBalancer → Outcome Bool × Option LoadBalancer
unfolding is_permanent_error
look just_created (failed e status) current =
    (if is_permanent_error status just_created then err e else ok false, current)
look just_created (done got) current =
    (if str_eq got.status "errored" then err (plain "errored") else ok (is_up got), some got)

-- What the poll ended with; `current` is not nil after a success.
abbrev pub waited :
    {W : Type 0} → Outcome (Unit {0}) × (W × Option LoadBalancer) → Outcome LoadBalancer × W
waited (ok _, (w, some lb)) = (ok lb, w)
waited (ok _, (w, none)) = (fault, w)
waited (err e, (w, _)) = (err (cloud e "waiting for load balancer"), w)
waited (fault, (w, _)) = (fault, w)

-- The loop over a page: the owned match that it returns, and `firstMatch` after it.
unfoldable pub search_page :
    (LoadBalancer → Bool)
    → (LoadBalancer → Bool)
    → List LoadBalancer
    → Option LoadBalancer
    → Option LoadBalancer × Option LoadBalancer
search_page matches owned [] first = (none, first)
search_page matches owned (lb ∷ lbs) first =
    let rest = search_page matches owned lbs first in
    let rest' = search_page matches owned lbs (some lb) in
    if not (matches lb)
    then rest
    else if owned lb
    then (some lb, first)
    else elim first [ none ↦ rest' | some _ ↦ rest ]

abbrev pub matching : String → String → LoadBalancer → Bool
matching name region lb = str_eq lb.name name && in_region region lb

module _ {W : Type 0} (c : Client W) where
  -- The condition of the poll; `current` is the second part of its state.
  unfoldable pub becomes_up :
      String → Bool → W × Option LoadBalancer → Outcome Bool × (W × Option LoadBalancer)
  unfolding look
  becomes_up id just_created (w, current) =
      let (reply, w') = c.get_balancer id w in
      let (verdict, current') = look just_created reply current in (verdict, (w', current'))

  unfoldable pub wait_for_load_balancer : LoadBalancer → Bool → Exec W LoadBalancer
  unfolding becomes_up
  wait_for_load_balancer lb just_created w =
      if is_up lb
      then (ok lb, w)
      else waited (c.waits.poll (W × Option LoadBalancer) (becomes_up lb.id just_created) (w, none))

  unfoldable pub get_load_balancer : String → Exec W LoadBalancer
  get_load_balancer id w =
      let (r, w') = c.get_balancer id w in
      (
        elim r [
          | done lb ↦ ok lb
          | failed e status ↦
              if is_not_found status
              then err (cloud (plain "no load balancer found") "looking up load balancer")
              else err (cloud e "getting load balancer")
        ],
        w',
      )

  -- The loop over the pages; `errLBNotFound` is `none`. More pages than `fuel` are a fault of the
  -- model.
  unfoldable pub search_pages :
      (LoadBalancer → Bool)
      → (LoadBalancer → Bool)
      → ℕ
      → ℕ
      → Option LoadBalancer
      → Exec W (Option LoadBalancer)
  unfolding search_page
  search_pages matches owned zero page first w = (fault, w)
  search_pages matches owned (suc fuel) page first w =
      let (reply, w') = c.list_page page w in
      elim reply [
        | failed e _ ↦ (err (cloud e "listing load balancers"), w')
        | done listed ↦
            let (found, first') = search_page matches owned listed.items first in
            elim found [
              | some lb ↦ (ok (some lb), w')
              | none ↦ elim listed.more [
                | none ↦ (ok first', w')
                | some (ok current) ↦ search_pages matches owned fuel (current + 1) first' w'
                | some (err e) ↦ (err (cloud e "paginating load balancers"), w')
                | some fault ↦ (fault, w')
              ]
            ]
      ]

  unfoldable pub find_load_balancer_by_name :
      ℕ → String → String → String → Exec W (Option LoadBalancer)
  unfolding search_pages
  find_load_balancer_by_name fuel name region cluster_name =
      search_pages (matching name region) (λ lb. owned_by_kubeone lb cluster_name) fuel 1 none
