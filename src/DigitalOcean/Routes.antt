-- ===== src/DigitalOcean/Routes.antt =====
-- What a load balancer does for kube-apiserver, apart from the tests of the code on it.
use kubeone.Prelude.{
  true, false, Option, none, some, List, [], ◌∷◌, ◌++◌, eq_iff, ◌==◌, ==_iff, ◌≡◌, ◌≢◌, ◌⊎◌, inl,
  inr, refl, arith, Bool-cases,
}
use kubeone.Fail.Outcome.{ok}
use kubeone.DigitalOcean.Objects.{
  HealthCheck, ForwardingRule, kube_api_port, kube_api_forwarding_rule, is_kube_api_health_check,
  checks_kube_api, has_kube_api_forwarding_rule,
}

-- TCP connections to port 6443 go to port 6443 of the droplets: the first rule for the port says so.
pub data Routed : List ForwardingRule → Type 0 where
  routed :
      {r : ForwardingRule} {rs : List ForwardingRule}
      → r.entry_port ≡ kube_api_port
      → r.entry_protocol ≡ "tcp"
      → r.target_protocol ≡ "tcp"
      → r.target_port ≡ kube_api_port
      → Routed (r ∷ rs)
  skipped :
      {r : ForwardingRule} {rs : List ForwardingRule}
      → r.entry_port ≢ kube_api_port
      → Routed rs
      → Routed (r ∷ rs)

-- The check reaches kube-apiserver: by a connection, or at one of its health endpoints.
abbrev pub Checked : Option HealthCheck → Type 0
Checked none = ⊥
Checked (some hc) =
    (hc.port ≡ kube_api_port)
    × ((hc.protocol ≡ "tcp")
        ⊎ ((hc.protocol ≡ "https")
            × ((hc.path ≡ "/readyz") ⊎ (hc.path ≡ "/livez") ⊎ (hc.path ≡ "/healthz"))))

pub is_kube_api_health_check-Checked :
    (hc : Option HealthCheck) → is_kube_api_health_check hc ≡ true → Checked hc
unfolding is_kube_api_health_check
is_kube_api_health_check-Checked none h = absurd (ground arith)
is_kube_api_health_check-Checked (some hc) h =
    (ground arith, inl (ground (arith, eq_iff hc.protocol "tcp")))

pub checks_kube_api-Checked : (hc : Option HealthCheck) → checks_kube_api hc ≡ true → Checked hc
unfolding checks_kube_api is_kube_api_health_check
checks_kube_api-Checked none h = absurd (ground arith)
checks_kube_api-Checked (some hc) h = ground (
  arith,
  eq_iff hc.protocol "tcp",
  eq_iff hc.protocol "https",
  eq_iff hc.path "/readyz",
  eq_iff hc.path "/livez",
  eq_iff hc.path "/healthz",
)

pub has_kube_api_forwarding_rule-Routed :
    (rs : List ForwardingRule) → has_kube_api_forwarding_rule rs ≡ ok true → Routed rs
unfolding has_kube_api_forwarding_rule
has_kube_api_forwarding_rule-Routed [] h = absurd (ground arith)
has_kube_api_forwarding_rule-Routed (r ∷ rs) h = elim (Bool-cases (r.entry_port == kube_api_port)) [
  | inl here ↦
      routed ((==_iff r.entry_port kube_api_port).0 here)
        (ground (arith, eq_iff r.entry_protocol "tcp"))
        (ground (arith, eq_iff r.target_protocol "tcp")) (ground arith)
  | inr other ↦
      skipped (λ e. ground (arith, (==_iff r.entry_port kube_api_port).1 e))
        (has_kube_api_forwarding_rule-Routed rs (ground arith))
]

pub append_rule-Routed :
    (rs : List ForwardingRule)
    → has_kube_api_forwarding_rule rs ≡ ok false
    → Routed (rs ++ (kube_api_forwarding_rule ∷ []))
unfolding has_kube_api_forwarding_rule
append_rule-Routed [] h = routed refl refl refl refl
append_rule-Routed (r ∷ rs) h = elim (Bool-cases (r.entry_port == kube_api_port)) [
  | inl here ↦ absurd (ground arith)
  | inr other ↦
      skipped (λ e. ground (arith, (==_iff r.entry_port kube_api_port).1 e))
        (append_rule-Routed rs (ground arith))
]
