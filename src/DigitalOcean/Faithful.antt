-- ===== src/DigitalOcean/Faithful.antt =====
-- What the load balancer code relies on of the API of DigitalOcean, and the wait under it:
-- pkg/cloudprovider/digitalocean/loadbalancer.go.
use kubeone.Prelude.{
  ℕ, zero, suc, String, Bool, true, false, Option, none, some, List, All, ◌≡◌, ◌∙◌, ap, str_eq,
  Bool-cases, inl, inr,
}
use kubeone.Fail.{Error}
use kubeone.Fail.Outcome.{Outcome, ok, err, fault}
use kubeone.Fail.Exec.Ensures.{Ensures, Ended}
use kubeone.DigitalOcean.Objects.{
  HealthCheck, ForwardingRule, LoadBalancer, LoadBalancerRequest, is_up,
}
use kubeone.DigitalOcean.Client.{
  Client, Reply, done, failed, Page, checks, look, becomes_up, waited, wait_for_load_balancer,
  is_permanent_error,
}

-- The part of a configuration that decides where the traffic goes.
pub record Settings : Type 0 where
  pub tag : String
  pub health_check : Option HealthCheck
  pub forwarding_rules : List ForwardingRule

abbrev pub settings_of : LoadBalancer → Settings
settings_of lb = record {
  tag = lb.tag;
  health_check = lb.health_check;
  forwarding_rules = lb.forwarding_rules;
}

abbrev pub requested_settings : LoadBalancerRequest → Settings
requested_settings req = record {
  tag = req.tag;
  health_check = req.health_check;
  forwarding_rules = req.forwarding_rules;
}

-- A property of the value of a reply that is no error.
abbrev pub Told : {A : Type 0} → (A → Type 0) → Reply A → Type 0
Told P (done a) = P a
Told P (failed e status) = Unit

pub Told-map :
    {A : Type 0} {P Q : A → Type 0} → ((a : A) → P a → Q a) → (r : Reply A) → Told P r → Told Q r
Told-map h (done a) p = h a p
Told-map h (failed e status) p = tt

pub Told-same : {A P : Type 0} (r : Reply A) → P → Told (λ (_ : A). P) r
Told-same (done a) p = p
Told-same (failed e status) p = tt

-- The documented behaviour: reading changes no settings and reports those that are stored, and a
-- request that succeeds stores its own.
pub record Faithful {W : Type 0} (c : Client W) : Type 0 where
  pub stored : W → String → Settings
  pub get_kept : (id : String) (w : W) → stored (c.get_balancer id w).1 ≡ stored w
  pub get_told :
      (id : String) (w : W)
      → Told (λ lb. (lb.id ≡ id) × (settings_of lb ≡ stored w id)) (c.get_balancer id w).0
  pub vpc_kept : (id : String) (w : W) → stored (c.get_vpc id w).1 ≡ stored w
  pub list_kept : (page : ℕ) (w : W) → stored (c.list_page page w).1 ≡ stored w
  pub list_told :
      (page : ℕ) (w : W)
      → Told
          (λ (p : Page). All (λ lb. settings_of lb ≡ stored w lb.id) p.items)
          (c.list_page page w).0
  pub create_told :
      (req : LoadBalancerRequest) (w : W)
      → Told
          (λ lb.
            (settings_of lb ≡ requested_settings req)
            × (stored (c.create req w).1 lb.id ≡ requested_settings req))
          (c.create req w).0
  pub update_told :
      (id : String) (req : LoadBalancerRequest) (w : W)
      → Told
          (λ lb.
            (settings_of lb ≡ requested_settings req)
            × (stored (c.update id req w).1 lb.id ≡ requested_settings req))
          (c.update id req w).0
  pub as_request_kept : (lb : LoadBalancer) → requested_settings (c.as_request lb) ≡ settings_of lb

module _ {W : Type 0} {c : Client W} (f : Faithful c) where
  -- The balancer shows the settings that are stored for it, which are these.
  abbrev pub Shows : Settings → LoadBalancer → W → Type 0
  Shows σ lb w = (settings_of lb ≡ σ) × (f.stored w lb.id ≡ σ)

  -- And it is up.
  abbrev pub Active : Settings → LoadBalancer → W → Type 0
  Active σ lb w = Shows σ lb w × (is_up lb ≡ true)

  module _ (σ : Settings) (id : String) (just_created : Bool) where
    -- One turn of the poll, with what follows it if it goes on.
    look-Active :
        (rest : W × Option LoadBalancer → Outcome (Unit {0}) × (W × Option LoadBalancer))
        (reply : Reply LoadBalancer) (current : Option LoadBalancer) (w : W)
        → Told (λ lb. (lb.id ≡ id) × (settings_of lb ≡ σ)) reply
        → f.stored w id ≡ σ
        → ((current' : Option LoadBalancer) → Ended (Active σ) (waited (rest (w, current'))))
        → Ended (Active σ) (
            waited (elim (look just_created reply current).0 [
              | ok true ↦ (ok tt, (w, (look just_created reply current).1))
              | ok false ↦ rest (w, (look just_created reply current).1)
              | err e ↦ (err e, (w, (look just_created reply current).1))
              | fault ↦ (fault, (w, (look just_created reply current).1))
            ]))
    unfolding look
    look-Active rest (failed e status) current w told stored go =
        elim (Bool-cases (is_permanent_error status just_created)) [
          | inl permanent ↦ rw permanent tt
          | inr temporary ↦ rw temporary (go current)
        ]
    look-Active rest (done got) current w (same, shown) stored go =
        elim (Bool-cases (str_eq got.status "errored")) [
          | inl errored ↦ rw errored tt
          | inr fine ↦ elim (Bool-cases (is_up got)) [
            | inl up ↦ rw (fine, up) ((shown, ap (f.stored w) same ∙ stored), up)
            | inr down ↦ rw (fine, down) (go (some got))
          ]
        ]

    waits-Active :
        (expired : Error) (n : ℕ) (w : W) (current : Option LoadBalancer)
        → f.stored w id ≡ σ
        → Ended (Active σ) (waited (checks expired n (becomes_up c id just_created) (w, current)))
    unfolding checks becomes_up
    waits-Active expired zero w current stored = tt
    waits-Active expired (suc n) w current stored =
        let kept = ap (λ (g : String → Settings). g id) (f.get_kept id w) ∙ stored in
        look-Active (checks expired n (becomes_up c id just_created)) (c.get_balancer id w).0
          current (c.get_balancer id w).1
          (Told-map (λ lb t. (t.0, t.1 ∙ stored)) (c.get_balancer id w).0 (f.get_told id w)) kept
          (λ current'. waits-Active expired n (c.get_balancer id w).1 current' kept)

  -- The wait returns the balancer with the settings that it had, and up.
  pub wait-Active :
      (σ : Settings) (lb : LoadBalancer) (just_created : Bool)
      → Ensures (Shows σ lb) (Active σ) (wait_for_load_balancer c lb just_created)
  unfolding wait_for_load_balancer
  wait-Active σ lb just_created = record {
    from = λ w s.
        let (n, _, polled) =
          c.waits.poll-checks (W × Option LoadBalancer) (becomes_up c lb.id just_created)
            (w, none) in
        elim (Bool-cases (is_up lb)) [
          | inl up ↦ rw up (s, up)
          | inr down ↦
              rw (down, polled) (waits-Active σ lb.id just_created c.waits.expired n w none s.1)
        ];
  }
