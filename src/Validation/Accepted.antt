-- ===== src/Validation/Accepted.antt =====
-- What an accepted configuration satisfies: pkg/apis/kubeone/validation/validation.go.
use kubeone.Prelude.{
  ℕ, ◌+◌, ◌≤◌, String, Bool, true, false, ◌&&◌, ◌||◌, List, [], ◌∷◌, ◌++◌, keep, length,
  append-eq-nil, is_some, All, str_eq, eq_iff, str_eq_refl, is_empty, ◌≡◌, ◌≢◌, ◌↔◌, ◌∙◌, ◌⊎◌, inl,
  inr, refl, ap, arith, Bool-cases,
}
use kubeone.Api.Host.{HostConfig}
use kubeone.Api.Network.{Cni, ClusterNetworkConfig}
use kubeone.Api.Cluster.{ControlPlaneConfig}
use kubeone.Validation.Field.{error_if, invalid}
use kubeone.Validation.Hosts.{
  validate_host, validate_hosts, validate_host_config, validate_worker, validate_against,
  validate_workers, validate_static_workers_config,
}
use kubeone.Validation.Network.{validate_cni, zero_mtu}

-- How many plugins are set.
abbrev pub one_if : Bool → ℕ
one_if true = 1
one_if false = 0

abbrev pub plugins : Cni → ℕ
plugins c =
    one_if (is_some c.canal)
    + one_if (is_some c.cilium)
    + one_if (is_some c.weave_net)
    + one_if (is_some c.external)

-- A CNI is accepted exactly if one plugin is set, and Canal not with an MTU of 0.
validate_cni_iff :
    (c : Cni) → (validate_cni c ≡ []) ↔ ((plugins c ≡ 1) × (zero_mtu c.canal ≡ false))
unfolding validate_cni
validate_cni_iff c = ground arith

module _ (removes : String → Bool) (net : ClusterNetworkConfig) where
  validate_hosts_iff :
      (found : Bool) (hs : List HostConfig)
      → (validate_hosts removes net found hs ≡ []) ↔ (
          (length (keep (λ h. h.is_leader) hs) + one_if found ≤ 1)
          × All (λ h. validate_host removes net h ≡ []) hs)
  unfolding validate_hosts
  validate_hosts_iff found [] = ((λ _. (ground arith, tt)), λ _. refl)
  validate_hosts_iff found (h ∷ hs) =
      let rest = validate_hosts removes net (h.is_leader || found) hs in
      let alone = validate_host removes net h in
      let ih = validate_hosts_iff (h.is_leader || found) hs in
      let outer =
        append-eq-nil (error_if (found && h.is_leader) invalid "isLeader") (alone ++ rest) in
      let inner = append-eq-nil alone rest in
      (
        (λ e.
            let (one, both) = outer.0 e in
            let (fine, others) = inner.0 both in
            let (few, all_fine) = ih.0 others in (ground arith, (fine, all_fine))),
        λ p.
            let few : length (keep (λ h. h.is_leader) (h ∷ hs)) + one_if found ≤ 1 = p.0 in
            outer.1 (ground arith, inner.1 (p.1.0, ih.1 (ground arith, p.1.1))),
      )

  -- The hosts are accepted exactly if at most one is marked as the leader and each of them alone
  -- is accepted.
  validate_host_config_iff :
      (hs : List HostConfig)
      → (validate_host_config removes hs net ≡ []) ↔ (
          (length (keep (λ h. h.is_leader) hs) ≤ 1)
          × All (λ h. validate_host removes net h ≡ []) hs)
  unfolding validate_host_config
  validate_host_config_iff hs =
      let ih = validate_hosts_iff false hs in
      (
        (λ e. let (few, fine) = ih.0 e in (omega arith, fine)),
        λ p. let few : length (keep (λ h. h.is_leader) hs) ≤ 1 = p.0 in ih.1 (omega arith, p.1),
      )

-- The private addresses differ, the public addresses differ, and so do the hostnames unless the
-- worker has none.
abbrev pub Apart : HostConfig → HostConfig → Type 0
Apart worker cp =
    (worker.private_address ≢ cp.private_address)
    × (worker.public_address ≢ cp.public_address)
    × ((worker.hostname ≡ "") ⊎ (worker.hostname ≢ cp.hostname))

differ : (a b : String) → str_eq a b ≡ false → b ≢ a
differ a b h e = ground (arith, str_eq_refl a)

validate_worker-Apart : (w cp : HostConfig) → validate_worker w cp ≡ [] → Apart w cp
unfolding validate_worker
validate_worker-Apart w cp e = (
  differ cp.private_address w.private_address (ground arith),
  differ cp.public_address w.public_address (ground arith),
  elim (Bool-cases (is_empty w.hostname)) [
    | inl unset ↦ inl ((eq_iff w.hostname "").0 unset)
    | inr set ↦ elim (Bool-cases (str_eq cp.hostname w.hostname)) [
      | inr other ↦ inr (differ cp.hostname w.hostname other)
      | inl same ↦
          let eq : cp.hostname ≡ w.hostname = (eq_iff cp.hostname w.hostname).0 same in
          let set_too : is_empty cp.hostname ≡ false = ap is_empty eq ∙ set in ground arith
    ]
  ],
)

validate_against-Apart :
    (w : HostConfig) (cps : List HostConfig) → validate_against w cps ≡ [] → All (Apart w) cps
unfolding validate_against
validate_against-Apart w [] e = tt
validate_against-Apart w (cp ∷ cps) e =
    let (here, rest) = (append-eq-nil (validate_worker w cp) (validate_against w cps)).0 e in
    (validate_worker-Apart w cp here, validate_against-Apart w cps rest)

validate_workers-Apart :
    (ws cps : List HostConfig) → validate_workers ws cps ≡ [] → All (λ w. All (Apart w) cps) ws
unfolding validate_workers
validate_workers-Apart [] cps e = tt
validate_workers-Apart (w ∷ ws) cps e =
    let (here, rest) = (append-eq-nil (validate_against w cps) (validate_workers ws cps)).0 e in
    (validate_against-Apart w cps here, validate_workers-Apart ws cps rest)

-- Accepted static workers have private addresses other than the private ones of the control plane
-- hosts, public addresses other than their public ones, and hostnames, where they have one, other
-- than theirs; at most one worker is marked as a leader.
pub validate_static_workers_config-Apart :
    (removes : String → Bool) (ws : List HostConfig) (cp : ControlPlaneConfig)
    (net : ClusterNetworkConfig)
    → validate_static_workers_config removes ws cp net ≡ []
    → All (λ w. All (Apart w) cp.hosts) ws × (length (keep (λ h. h.is_leader) ws) ≤ 1)
unfolding validate_static_workers_config
validate_static_workers_config-Apart removes [] cp net e = (tt, omega arith)
validate_static_workers_config-Apart removes (w ∷ ws) cp net e =
    let (alone, apart) =
      (append-eq-nil (validate_host_config removes (w ∷ ws) net)
          (validate_workers (w ∷ ws) cp.hosts)).0
        e in
    (
      validate_workers-Apart (w ∷ ws) cp.hosts apart,
      ((validate_host_config_iff removes net (w ∷ ws)).0 alone).0,
    )
