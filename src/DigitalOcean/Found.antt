-- ===== src/DigitalOcean/Found.antt =====
-- What the search for a load balancer by its name finds: `findLoadBalancerByName` of
-- pkg/cloudprovider/digitalocean/loadbalancer.go.
use kubeone.Prelude.{
  ℕ, zero, suc, ◌+◌, String, Bool, true, false, ◌&&◌, Option, none, some, List, [], ◌∷◌, ◌++◌, ◌≡◌,
  refl, arith, Option-cases, inl, inr,
}
use kubeone.Fail.Outcome.{ok}
use kubeone.DigitalOcean.Objects.{LoadBalancer, owned_by_kubeone}
use kubeone.DigitalOcean.Client.{
  Client, done, search_page, search_pages, matching, find_load_balancer_by_name,
}

-- The first element that passes.
abbrev pub first_such : {A : Type 0} → (A → Bool) → List A → Option A
first_such p [] = none
first_such p (x ∷ xs) = elim (p x) [ true ↦ some x | false ↦ first_such p xs ]

abbrev pub or_else : {A : Type 0} → Option A → Option A → Option A
or_else none b = b
or_else (some a) b = some a

-- The first balancer of the cluster among those that match; without one, the first that matches.
abbrev pub preferred :
    (LoadBalancer → Bool) → (LoadBalancer → Bool) → List LoadBalancer → Option LoadBalancer
preferred matches owned lbs =
    or_else (first_such (λ lb. matches lb && owned lb) lbs) (first_such matches lbs)

first_such-append :
    {A : Type 0} (p : A → Bool) (xs ys : List A)
    → first_such p (xs ++ ys) ≡ or_else (first_such p xs) (first_such p ys)
first_such-append p [] ys = refl
first_such-append p (x ∷ xs) ys = ground (arith, first_such-append p xs ys)

module _ (matches owned : LoadBalancer → Bool) where
  abbrev both : LoadBalancer → Bool
  both lb = matches lb && owned lb

  search_page_found :
      (lbs : List LoadBalancer) (first : Option LoadBalancer)
      → (search_page matches owned lbs first).0 ≡ first_such both lbs
  unfolding search_page
  search_page_found [] first = refl
  search_page_found (lb ∷ lbs) none =
      ground (arith, search_page_found lbs none, search_page_found lbs (some lb))
  search_page_found (lb ∷ lbs) (some a) = ground (arith, search_page_found lbs (some a))

  search_page_first :
      (lbs : List LoadBalancer) (first : Option LoadBalancer)
      → first_such both lbs ≡ none
      → (search_page matches owned lbs first).1 ≡ or_else first (first_such matches lbs)
  unfolding search_page
  search_page_first [] none h = refl
  search_page_first [] (some a) h = refl
  search_page_first (lb ∷ lbs) none h =
      ground (arith, search_page_first lbs none, search_page_first lbs (some lb))
  search_page_first (lb ∷ lbs) (some a) h = ground (arith, search_page_first lbs (some a))

-- From a page on, the service lists these balancers on at most that many pages.
pub data Pages {W : Type 0} (c : Client W) : ℕ → ℕ → W → List LoadBalancer → Type 0 where
  last_page :
      {n page : ℕ} {w w' : W} {items : List LoadBalancer}
      → c.list_page page w ≡ (done (record { items = items; more = none }), w')
      → Pages c (suc n) page w items
  next_page :
      {n page current : ℕ} {w w' : W} {items rest : List LoadBalancer}
      → c.list_page page w ≡ (done (record { items = items; more = some (ok current) }), w')
      → Pages c n (current + 1) w' rest
      → Pages c (suc n) page w (items ++ rest)

module _ {W : Type 0} (c : Client W) (matches owned : LoadBalancer → Bool) where
  abbrev found : Option LoadBalancer → List LoadBalancer → Option LoadBalancer
  found first lbs =
      or_else (first_such (both matches owned) lbs) (or_else first (first_such matches lbs))

  found-append :
      (first : Option LoadBalancer) (xs ys : List LoadBalancer)
      → first_such (both matches owned) xs ≡ none
      → found (or_else first (first_such matches xs)) ys ≡ found first (xs ++ ys)
  found-append none xs ys h =
      rw (first_such-append (both matches owned) xs ys, first_such-append matches xs ys, h) refl
  found-append (some a) xs ys h = rw (first_such-append (both matches owned) xs ys, h) refl

  search_pages-Pages :
      (fuel page : ℕ) (first : Option LoadBalancer) (w : W) (lbs : List LoadBalancer)
      → Pages c fuel page w lbs
      → (search_pages c matches owned fuel page first w).0 ≡ ok (found first lbs)
  unfolding search_pages
  search_pages-Pages zero page first w lbs p = elim p [ ]
  search_pages-Pages (suc fuel) page first w lbs (last_page e) = ground (
    arith,
    e,
    search_page_found matches owned lbs first,
    search_page_first matches owned lbs first,
  )
  search_pages-Pages (suc fuel) page first w lbs
        (next_page {current = current} {w' = w'} {items = items} {rest = rest} e more) =
      elim (Option-cases (first_such (both matches owned) items)) [
        | inl missing ↦ ground (
          arith,
          e,
          search_page_found matches owned items first,
          search_page_first matches owned items first,
          found-append first items rest,
          search_pages-Pages fuel (current + 1) (or_else first (first_such matches items)) w' rest
              more,
        )
        | inr (lb, there) ↦ ground (
          arith,
          e,
          search_page_found matches owned items first,
          first_such-append (both matches owned) items rest,
        )
      ]

-- Where the service lists balancers on at most `fuel` pages, the search by name ends and finds, of
-- the balancers with the name in the region, the first that targets the droplets of the cluster, on
-- whatever page it is, or else the first of all of them.
pub find_load_balancer_by_name-preferred :
    {W : Type 0} (c : Client W) (fuel : ℕ) (name region cluster_name : String) (w : W)
    (lbs : List LoadBalancer)
    → Pages c fuel 1 w lbs
    → (find_load_balancer_by_name c fuel name region cluster_name w).0
      ≡ ok (preferred (matching name region) (λ lb. owned_by_kubeone lb cluster_name) lbs)
unfolding find_load_balancer_by_name
find_load_balancer_by_name-preferred c fuel name region cluster_name w lbs pages =
    search_pages-Pages c (matching name region) (λ lb. owned_by_kubeone lb cluster_name) fuel 1 none
      w lbs pages
