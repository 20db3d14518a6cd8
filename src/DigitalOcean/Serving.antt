-- ===== src/DigitalOcean/Serving.antt =====
-- What a load balancer that `ensureLoadBalancer` returns does:
-- pkg/cloudprovider/digitalocean/loadbalancer.go.
use kubeone.Prelude.{
  ℕ, String, Bool, true, false, not, ◌&&◌, [], ◌∷◌, ◌++◌, is_empty, ◌≡◌, refl, sym, ◌∙◌, ap, subst,
  arith, Bool-cases, inl, inr,
}
use kubeone.Fail.{Error}
use kubeone.Fail.Outcome.{Outcome, ok, err, fault}
use kubeone.Fail.Exec.Ensures.{
  Ensures, Ended, Ensures-bind, Ensures-pure, Ensures-lift, Ensures-if, Ensures-weaken,
  Ensures-given,
}
use kubeone.DigitalOcean.Objects.{
  LoadBalancer, LoadBalancerRequest, is_up, is_kube_api_health_check, has_kube_api_forwarding_rule,
  keep_one_size, kube_api_forwarding_rule,
}
use kubeone.DigitalOcean.Client.{Client, Reply, done, failed, requested, wait_for_load_balancer}
use kubeone.DigitalOcean.Balancer.{
  refuse_if, changed_request, update_request, wrapped, apply_update, reconcile_load_balancer,
}
use kubeone.DigitalOcean.Faithful.{
  Settings, settings_of, requested_settings, Told, Faithful, Shows, wait-Active,
}
use kubeone.DigitalOcean.Routes.{
  Routed, Checked, is_kube_api_health_check-Checked, has_kube_api_forwarding_rule-Routed,
  append_rule-Routed,
}

-- Settings that bring the traffic of kube-apiserver to the droplets with the tag.
pub record Serves (tag : String) (σ : Settings) : Type 0 where
  pub target : σ.tag ≡ tag
  pub routes : Routed σ.forwarding_rules
  pub checked : Checked σ.health_check

module _ {W : Type 0} {c : Client W} (f : Faithful c) (fuel : ℕ) where
  -- The balancer is up, and the settings that are stored for it serve.
  abbrev pub Serving : String → LoadBalancer → W → Type 0
  Serving tag lb w = Serves tag (f.stored w lb.id) × (is_up lb ≡ true)

  -- The balancer is up, with the settings that are stored for it.
  abbrev pub Known : LoadBalancer → W → Type 0
  Known lb w = (f.stored w lb.id ≡ settings_of lb) × (is_up lb ≡ true)

  pub Ensures-requested :
      {A : Type 0} {P : W → Type 0} {R : A → W → Type 0} (wrap : Error → Error)
      (request : W → Reply A × W)
      → ((w : W) → P w → Told (λ a. R a (request w).1) (request w).0)
      → Ensures P R (requested wrap request)
  Ensures-requested {A = A} {R = R} wrap request h = record {
    from = λ w p. told (request w).0 (request w).1 (h w p);
  }
    where
      told :
          (r : Reply A) (w : W)
          → Told (λ a. R a w) r
          → Ended R (elim r [ done a ↦ ok a | failed e _ ↦ err (wrap e) ], w)
      told (done a) w t = t
      told (failed e s) w t = tt

  pub Ensures-refuse_if :
      {P : W → Type 0} (test : Bool) (op : String)
      → Ensures P (λ _ w. P w × (test ≡ false)) (refuse_if test op)
  Ensures-refuse_if true op = record { from = λ w p. tt }
  Ensures-refuse_if false op = record { from = λ w p. (p, refl) }

  pub wait-Known :
      (lb : LoadBalancer) (just_created : Bool)
      → Ensures
          (λ w. f.stored w lb.id ≡ settings_of lb)
          Known
          (wait_for_load_balancer c lb just_created)
  wait-Known lb just_created =
      Ensures-weaken _ (λ w s. (refl, s)) (λ lb' w a. (a.0.1 ∙ sym a.0.0, a.1))
        (wait-Active f (settings_of lb) lb just_created)

  pub wait-Serves :
      (tag : String) (σ : Settings) (lb : LoadBalancer) (just_created : Bool)
      → Serves tag σ
      → Ensures (Shows f σ lb) (Serving tag) (wait_for_load_balancer c lb just_created)
  wait-Serves tag σ lb just_created serves =
      Ensures-weaken _ (λ w s. s) (λ lb' w a. (subst (Serves tag) (sym a.0.1) serves, a.1))
        (wait-Active f σ lb just_created)

  apply_update-Serving :
      {P : W → Type 0} (tag : String) (lb : LoadBalancer) (req : LoadBalancerRequest)
      → Serves tag (requested_settings req)
      → Ensures P (Serving tag) (apply_update c fuel lb req)
  unfolding apply_update
  apply_update-Serving tag lb req serves =
      Ensures-bind (Shows f (requested_settings req)) _ _
        (Ensures-requested _ _ λ w _. f.update_told lb.id req w)
        λ updated. wait-Serves tag (requested_settings req) updated false serves

  wrapped_ok : {A : Type 0} (r : Outcome A) (op : String) (a : A) → wrapped r op ≡ ok a → r ≡ ok a
  wrapped_ok (ok b) op a h = h
  wrapped_ok (err e) op a h = cc
  wrapped_ok fault op a h = cc

  module _ (tag : String) (lb : LoadBalancer) (set_tag : String) (restore : Bool) where
    -- The tag is there or is set, and the health check is good or restored.
    pub record Mendable : Type 0 where
      pub kept : is_empty set_tag ≡ true → lb.tag ≡ tag
      pub changed : is_empty set_tag ≡ false → set_tag ≡ tag
      pub good : restore ≡ false → Checked lb.health_check

    abbrev needs_health_check : Bool
    needs_health_check = restore && not (is_kube_api_health_check lb.health_check)

    good_check : Mendable → needs_health_check ≡ false → Checked lb.health_check
    good_check m h = elim (Bool-cases restore) [
      | inr no_restore ↦ m.good no_restore
      | inl restores ↦ is_kube_api_health_check-Checked lb.health_check (ground arith)
    ]

    changed_request-Serves :
        (has_rule : Bool)
        → Mendable
        → has_kube_api_forwarding_rule lb.forwarding_rules ≡ ok has_rule
        → Serves tag (
            requested_settings
              (changed_request set_tag needs_health_check has_rule (update_request c lb)))
    unfolding changed_request keep_one_size
    changed_request-Serves has_rule m h =
        let same = f.as_request_kept lb in
        record {
          target = elim (Bool-cases (is_empty set_tag)) [
            | inl empty ↦ rw empty (ap (λ (σ : Settings). σ.tag) same ∙ m.kept empty)
            | inr full ↦ rw full (m.changed full)
          ];
          routes = elim (Bool-cases has_rule) [
            | inl has ↦ rw has (
                subst Routed (sym (ap (λ (σ : Settings). σ.forwarding_rules) same))
                  (has_kube_api_forwarding_rule-Routed lb.forwarding_rules (h ∙ ap ok has)))
            | inr lacks ↦ rw lacks (
                subst (λ rs. Routed (rs ++ (kube_api_forwarding_rule ∷ [])))
                  (sym (ap (λ (σ : Settings). σ.forwarding_rules) same))
                  (append_rule-Routed lb.forwarding_rules (h ∙ ap ok lacks)))
          ];
          checked = elim (Bool-cases needs_health_check) [
            | inl needs ↦ rw needs (refl, inl refl)
            | inr fine ↦ rw fine (
                subst Checked (sym (ap (λ (σ : Settings). σ.health_check) same))
                  (good_check m fine))
          ];
        }

    unchanged-Serves :
        (has_rule : Bool)
        → Mendable
        → has_kube_api_forwarding_rule lb.forwarding_rules ≡ ok has_rule
        → (is_empty set_tag && (not needs_health_check && has_rule)) ≡ true
        → Serves tag (settings_of lb)
    unchanged-Serves has_rule m h t = record {
      target = m.kept (ground arith);
      routes = has_kube_api_forwarding_rule-Routed lb.forwarding_rules (ground arith);
      checked = good_check m (ground arith);
    }

    pub reconcile-Serving :
        Mendable
        → Ensures (Known lb) (Serving tag) (reconcile_load_balancer c fuel lb set_tag restore)
    unfolding reconcile_load_balancer
    reconcile-Serving m =
        Ensures-bind
          (λ has_rule w.
            Known lb w × (has_kube_api_forwarding_rule lb.forwarding_rules ≡ ok has_rule))
          _ _
          (Ensures-lift (λ has_rule. has_kube_api_forwarding_rule lb.forwarding_rules ≡ ok has_rule)
            _ (λ has_rule e. wrapped_ok _ _ has_rule e))
          λ has_rule. Ensures-given _ _ λ h.
            Ensures-if (is_empty set_tag && (not needs_health_check && has_rule)) _ _
              (λ t. Ensures-pure lb λ w known.
                (subst (Serves tag) (sym known.0) (unchanged-Serves has_rule m h t), known.1))
              (λ _. apply_update-Serving tag lb _ (changed_request-Serves has_rule m h))
