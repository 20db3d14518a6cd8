-- ===== src/DigitalOcean/Searched.antt =====
-- The loop of `findLoadBalancerByName` over one page:
-- pkg/cloudprovider/digitalocean/loadbalancer.go.
use kubeone.Prelude.{
  Bool, true, Option, none, some, List, [], ◌∷◌, All, All-map, Any, here, there, ◌≡◌, refl,
  Bool-cases, inl, inr,
}
use kubeone.DigitalOcean.Objects.{LoadBalancer}
use kubeone.DigitalOcean.Client.{search_page}

-- The balancer that is found, if one is, has the property.
abbrev pub Satisfies : (LoadBalancer → Type 0) → Option LoadBalancer → Type 0
Satisfies R none = Unit
Satisfies R (some lb) = R lb

module _ (matches owned : LoadBalancer → Bool) (R : LoadBalancer → Type 0) where
  pub search_page-Satisfies :
      (lbs : List LoadBalancer) (first : Option LoadBalancer)
      → All (λ lb. matches lb ≡ true → R lb) lbs
      → Satisfies R first
      → Satisfies R (search_page matches owned lbs first).0
        × Satisfies R (search_page matches owned lbs first).1
  unfolding search_page
  search_page-Satisfies [] first a l = (tt, l)
  search_page-Satisfies (lb ∷ lbs) none (r, a) l = elim (Bool-cases (matches lb)) [
    | inr other ↦ rw other (search_page-Satisfies lbs none a l)
    | inl match ↦ elim (Bool-cases (owned lb)) [
      | inl own ↦ rw (match, own) (r match, l)
      | inr foreign ↦ rw (match, foreign) (search_page-Satisfies lbs (some lb) a (r match))
    ]
  ]
  search_page-Satisfies (lb ∷ lbs) (some first) (r, a) l = elim (Bool-cases (matches lb)) [
    | inr other ↦ rw other (search_page-Satisfies lbs (some first) a l)
    | inl match ↦ elim (Bool-cases (owned lb)) [
      | inl own ↦ rw (match, own) (r match, l)
      | inr foreign ↦ rw (match, foreign) (search_page-Satisfies lbs (some first) a l)
    ]
  ]

-- Every element of a list is one of its elements.
pub All-Any : (lbs : List LoadBalancer) → All (λ lb. Any (λ x. x ≡ lb) lbs) lbs
All-Any [] = tt
All-Any (lb ∷ lbs) = (here refl, All-map (λ x h. there h) lbs (All-Any lbs))
