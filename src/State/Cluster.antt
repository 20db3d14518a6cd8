-- ===== src/State/Cluster.antt =====
-- The live cluster and its cluster level checks: pkg/state/cluster.go.
use kubeone.Prelude.{
  ℕ, ◌+◌, ◌*◌, ◌/◌, String, Bool, true, false, not, ◌&&◌, Option, none, some, List, [], ◌∷◌, ◌++◌,
  any, all, length, take, leb, ltb, str_eq, if◌then◌else◌, is_some,
}
use kubeone.Prelude.Int.{ℤ, pos, negsuc, sub_ℕ, minus_ℕ}
use kubeone.State.Status.{container_healthy}
use kubeone.State.Host.{Host, initialized, control_plane_healthy, worker_healthy}

-- `Config` is a pointer to the file's text; only its presence and identity matter here.
pub record EncryptionConfiguration : Type 0 where
  pub enable : Bool
  pub config : Option String
  pub custom : Bool

-- The mutex `Lock` is left out: no operation of this file takes it.
pub record Cluster (V : Type 0) : Type 0 where
  pub expected_kubernetes_version : V
  pub control_plane : List (Host V)
  pub static_workers : List (Host V)
  pub encryption_configuration : Option EncryptionConfiguration
  pub ccm_cluster_name : String
  pub authentication_config_enabled : Bool

-- 90 days in nanoseconds.
abbrev pub x90_days : ℕ
x90_days = 3600 * 1000000000 * 24 * 90

-- `int(float64((healthyEtcd / 2) + 1))`, with the division of integers.
unfoldable pub quorum : ℕ → ℕ
quorum n = n / 2 + 1

-- How many candidates a remaining tolerance allows.
unfoldable pub with_candidates : ℤ → List String → List String → List String
with_candidates (negsuc _) safe candidates = safe
with_candidates (pos n) safe candidates =
    if ltb 0 n && ltb 0 (length candidates)
    then if leb (length candidates) n then safe ++ candidates else safe ++ take n candidates
    else safe

module _ {V : Type 0} where
  -- `EarliestCertExpiry.Sub(now) <= x90Days`, with both times on one scale.
  unfoldable pub expires_soon : ℕ → Host V → Bool
  expires_soon now h = elim h.earliest_cert_expiry [
    | none ↦ false
    | some t ↦ leb t (now + x90_days)
  ]

  -- The loop goes through all hosts and sets a flag, which it never clears.
  unfoldable pub need_renew : ℕ → Bool → List (Host V) → Bool
  need_renew now flag [] = flag
  need_renew now flag (h ∷ hs) = need_renew now (if expires_soon now h then true else flag) hs

  unfoldable pub certs_to_expire_in_less_then_90_days : ℕ → Cluster V → Bool
  unfolding need_renew
  certs_to_expire_in_less_then_90_days now c = need_renew now false c.control_plane

  unfoldable pub cluster_is_provisioned : Cluster V → Bool
  cluster_is_provisioned c = any initialized c.control_plane

  unfoldable pub cluster_healthy : Cluster V → Bool
  cluster_healthy c =
      all control_plane_healthy c.control_plane && all worker_healthy c.static_workers

  -- A loop that collects the names of the hosts that pass the test.
  unfoldable pub names_where : (Host V → Bool) → List (Host V) → List String
  names_where p [] = []
  names_where p (h ∷ hs) =
      let rest = names_where p hs in if p h then h.config.hostname ∷ rest else rest

  unfoldable pub broken_hosts : Cluster V → List String
  broken_hosts c =
      names_where (λ h. h.is_in_cluster && not (control_plane_healthy h)) c.control_plane
      ++ names_where (λ h. h.is_in_cluster && not (worker_healthy h)) c.static_workers

  unfoldable pub healthy_etcd : List (Host V) → ℕ
  healthy_etcd [] = 0
  healthy_etcd (h ∷ hs) =
      let rest = healthy_etcd hs in
      if h.is_in_cluster && container_healthy h.etcd then rest + 1 else rest

  -- Negative exactly if no etcd member is healthy.
  unfoldable pub etcd_tolerance_remain : Cluster V → ℤ
  etcd_tolerance_remain c = let n = healthy_etcd c.control_plane in sub_ℕ n (quorum n)

  -- The loop over the control plane fills two lists, of the hosts to delete and of candidates.
  unfoldable pub classify : List (Host V) → List String × List String
  classify [] = ([], [])
  classify (h ∷ hs) =
      let (safe, candidates) = classify hs in
      if not h.is_in_cluster
      then (safe, candidates)
      else if not (container_healthy h.etcd)
      then (h.config.hostname ∷ safe, candidates)
      else if not (container_healthy h.api_server)
      then (safe, h.config.hostname ∷ candidates)
      else (safe, candidates)

  unfoldable pub safe_to_delete_hosts : Cluster V → List String
  safe_to_delete_hosts c =
      let (safe, candidates) = classify c.control_plane in
      with_candidates (minus_ℕ (etcd_tolerance_remain c) (length safe)) safe candidates
      ++ names_where (λ h. h.is_in_cluster && not (worker_healthy h)) c.static_workers

  unfoldable pub encryption_enabled : Cluster V → Bool
  encryption_enabled c = elim c.encryption_configuration [ none ↦ false | some e ↦ e.enable ]

  unfoldable pub custom_encryption_enabled : Cluster V → Bool
  custom_encryption_enabled c = elim c.encryption_configuration [
    | none ↦ false
    | some e ↦ e.enable && e.custom && is_some e.config
  ]

  unfoldable pub authentication_config_outdated : Cluster V → String → Bool
  authentication_config_outdated c expected =
      any (λ h. initialized h && not (str_eq h.authentication_config_checksum expected))
        c.control_plane
