-- ===== src/State/Health.antt =====
-- Health of components, hosts and the cluster: pkg/state/cluster.go.
use native.Mathlib.Nat.{pow-suc}
use kubeone.Prelude.{
  ℕ, ◌+◌, ◌*◌, ◌/◌, ◌^◌, zero, suc, ap, Bool, true, false, not, ◌&&◌, ◌||◌, List, [], ◌∷◌, any, all,
  append-eq-nil, ◌≡◌, refl, ◌≢◌, ◌↔◌, ◌⊎◌, arith, bit_and, bit_or, if◌then◌else◌,
}
use kubeone.Prelude.Bits.{
  bit, bit_and-nothing, bit_and-halves, bit_and-power, bit_le_one, bit-bit_or,
}
use kubeone.State.Status.{
  ComponentStatus, ContainerStatus, component_is_provisioned, container_healthy, pod_running,
}
use kubeone.State.Host.{Host, healthy, control_plane_healthy, worker_healthy}
use kubeone.State.Cluster.{
  Cluster, expires_soon, need_renew, certs_to_expire_in_less_then_90_days, cluster_healthy,
  broken_hosts, names_where,
}

-- The mask of `IsProvisioned` has bits 3, 4 and 5.
mask_of_three : (s : ℕ) → bit_and s 56 ≡ bit 3 s * 8 + bit 4 s * 16 + bit 5 s * 32
mask_of_three s = omega (
  arith,
  bit_and-halves s 56,
  bit_and-halves (s / 2) 28,
  bit_and-halves (s / 2 / 2) 14,
  bit_and-halves (s / 2 / 2 / 2) 7,
  bit_and-halves (s / 2 / 2 / 2 / 2) 3,
  bit_and-halves (s / 2 / 2 / 2 / 2 / 2) 1,
  bit_and-nothing (s / 2 / 2 / 2 / 2 / 2 / 2),
)

-- `IsProvisioned` of a component holds exactly if at least one of its running, installed and
-- active bits is set.
component_is_provisioned_any :
    {V : Type 0} (cs : ComponentStatus V)
    → (component_is_provisioned cs ≡ true)
      ↔ ((bit 5 cs.status ≡ 1) ⊎ (bit 3 cs.status ≡ 1) ⊎ (bit 4 cs.status ≡ 1))
unfolding component_is_provisioned
component_is_provisioned_any cs = ground (
  arith,
  mask_of_three cs.status,
  bit_le_one 3 cs.status,
  bit_le_one 4 cs.status,
  bit_le_one 5 cs.status,
)

bit_of_nothing : (k : ℕ) → bit k 0 ≡ 0
bit_of_nothing zero = refl
bit_of_nothing (suc k) = bit_of_nothing k

-- The mask 2 ^ n has digit n alone.
bit-power_ne : (n k : ℕ) → k ≢ n → bit k (2 ^ n) ≡ 0
bit-power_ne zero zero h = absurd (h refl)
bit-power_ne zero (suc k) h = bit_of_nothing k
bit-power_ne (suc n) zero h = omega (arith, pow-suc 2 n)
bit-power_ne (suc n) (suc k) h =
    let half : 2 ^ suc n / 2 ≡ 2 ^ n = omega (arith, pow-suc 2 n) in
    rw half (bit-power_ne n k (λ e. h (ap suc e)))

-- Setting the pod running bit of a status, as the probes of the API server and of etcd do, makes
-- the container healthy and leaves every other bit as it was.
container_healthy-pod_running :
    (cs : ContainerStatus)
    → (container_healthy (record cs { status = bit_or cs.status pod_running }) ≡ true)
      × ((k : ℕ) → k ≢ 7 → bit k (bit_or cs.status pod_running) ≡ bit k cs.status)
unfolding container_healthy
container_healthy-pod_running cs = (
  ground (
    arith,
    bit_and-power 7 (bit_or cs.status 128),
    bit-bit_or 7 cs.status 128,
    bit_le_one 7 cs.status,
  ),
  λ k h. omega (arith, bit-bit_or k cs.status 128, bit-power_ne 7 k h),
)

module _ {V : Type 0} where
  need_renew-any :
      (now : ℕ) (flag : Bool) (hs : List (Host V))
      → need_renew now flag hs ≡ flag || any (expires_soon now) hs
  unfolding need_renew
  need_renew-any now flag [] = ground arith
  need_renew-any now flag (h ∷ hs) =
      ground (arith, need_renew-any now (if expires_soon now h then true else flag) hs)

  names_where-nil :
      (p : Host V → Bool) (hs : List (Host V)) → (names_where p hs ≡ []) ↔ (any p hs ≡ false)
  unfolding names_where
  names_where-nil p [] = ((λ _. refl), (λ _. refl))
  names_where-nil p (h ∷ hs) = ground (arith, names_where-nil p hs)

  -- The loop over the certificates finds a host to renew exactly if one expires within 90 days.
  certs_to_expire_in_less_then_90_days-any :
      (now : ℕ) (c : Cluster V)
      → certs_to_expire_in_less_then_90_days now c ≡ any (expires_soon now) c.control_plane
  unfolding certs_to_expire_in_less_then_90_days
  certs_to_expire_in_less_then_90_days-any now c = need_renew-any now false c.control_plane

  -- A loop that stops at the first host that fails, against one that collects the failures in the
  -- cluster.
  all-any_broken :
      (ok : Host V → Bool)
      → ((h : Host V) → ok h ≡ true → h.is_in_cluster ≡ true)
      → (hs : List (Host V))
      → (all ok hs ≡ true) ↔ (
          (any (λ h. h.is_in_cluster && not (ok h)) hs ≡ false)
          × (all (λ h. h.is_in_cluster) hs ≡ true))
  all-any_broken ok member [] = ((λ _. (refl, refl)), (λ _. refl))
  all-any_broken ok member (h ∷ hs) = ground (arith, member h, all-any_broken ok member hs)

  control_plane_healthy-member :
      (h : Host V) → control_plane_healthy h ≡ true → h.is_in_cluster ≡ true
  unfolding control_plane_healthy healthy
  control_plane_healthy-member h e = ground arith

  worker_healthy-member : (h : Host V) → worker_healthy h ≡ true → h.is_in_cluster ≡ true
  unfolding worker_healthy healthy
  worker_healthy-member h e = ground arith

  -- A cluster is healthy exactly if every host is in the cluster and no host is broken: the check
  -- that stops at the first unhealthy host and the list of broken hosts agree.
  pub cluster_healthy-broken_hosts :
      (c : Cluster V)
      → (cluster_healthy c ≡ true) ↔ (
          (broken_hosts c ≡ [])
          × (all (λ h. h.is_in_cluster) c.control_plane ≡ true)
          × (all (λ h. h.is_in_cluster) c.static_workers ≡ true))
  unfolding cluster_healthy broken_hosts
  cluster_healthy-broken_hosts c = ground (
    arith,
    all-any_broken control_plane_healthy control_plane_healthy-member c.control_plane,
    all-any_broken worker_healthy worker_healthy-member c.static_workers,
    append-eq-nil
        (names_where (λ h. h.is_in_cluster && not (control_plane_healthy h)) c.control_plane)
        (names_where (λ h. h.is_in_cluster && not (worker_healthy h)) c.static_workers),
    names_where-nil (λ h. h.is_in_cluster && not (control_plane_healthy h)) c.control_plane,
    names_where-nil (λ h. h.is_in_cluster && not (worker_healthy h)) c.static_workers,
  )
