-- ===== src/State/Repair.antt =====
-- Whether a repair may run at a target version: `SafeToRepair` of pkg/state/cluster.go.
use kubeone.Prelude.{
  String, Bool, true, not, Option, none, some, List, [], ◌∷◌, Ordering, Any, here, there, All, ◌≡◌,
  refl, ◌≢◌, ◌↔◌, ◌⊎◌, inl, inr, arith, Option-cases, Bool-cases, if◌then◌else◌,
}
use kubeone.Semver.{SemverLib, is_gt}
use kubeone.State.Host.{Host}
use kubeone.State.Cluster.{Cluster}
use kubeone.State.Versions.{highest, safe_to_repair}

module _ (lib : SemverLib) where
  open lib use {Version, new_version, cmp, text, cmp_swap, cmp_le_trans}

  -- The versions of the kubelets of the hosts in the cluster.
  abbrev pub cluster_versions : List (Host Version) → List Version
  cluster_versions [] = []
  cluster_versions (h ∷ hs) = elim h.kubelet.version [
    | none ↦ cluster_versions hs
    | some v ↦ if h.is_in_cluster then v ∷ cluster_versions hs else cluster_versions hs
  ]

  higher : Version → Version → Version
  higher b v = if is_gt (cmp v b) then v else b

  max_of : Version → List Version → Version
  max_of b [] = b
  max_of b (v ∷ vs) = max_of (higher b v) vs

  max_of? : Option Version → List Version → Option Version
  max_of? none [] = none
  max_of? none (v ∷ vs) = some (max_of v vs)
  max_of? (some b) vs = some (max_of b vs)

  highest-max_of :
      (best : Option Version) (hs : List (Host Version))
      → highest lib best hs ≡ max_of? best (cluster_versions hs)
  unfolding highest max_of max_of? higher
  highest-max_of none [] = refl
  highest-max_of (some b) [] = refl
  highest-max_of none (h ∷ hs) = elim (Option-cases h.kubelet.version) [
    | inl absent ↦ ground (arith, highest-max_of none hs)
    | inr (v, known) ↦ ground (arith, highest-max_of none hs, highest-max_of (some v) hs)
  ]
  highest-max_of (some b) (h ∷ hs) = elim (Option-cases h.kubelet.version) [
    | inl absent ↦ ground (arith, highest-max_of (some b) hs)
    | inr (v, known) ↦ ground (arith, highest-max_of (some b) hs, highest-max_of (some v) hs)
  ]

  cmp_le_refl : (a : Version) → cmp a a ≢ Ordering.gt
  cmp_le_refl a = ground (arith, cmp_swap a a)

  higher_bounds :
      (b v : Version) → (cmp b (higher b v) ≢ Ordering.gt) × (cmp v (higher b v) ≢ Ordering.gt)
  unfolding higher
  higher_bounds b v = ground (arith, cmp_swap v b, cmp_le_refl v, cmp_le_refl b)

  -- The fold keeps an upper bound of what it has seen, which is one of the versions.
  max_of_bounds :
      (b : Version) (vs : List Version)
      → (cmp b (max_of b vs) ≢ Ordering.gt) × All (λ v. cmp v (max_of b vs) ≢ Ordering.gt) vs
  unfolding max_of
  max_of_bounds b [] = (cmp_le_refl b, tt)
  max_of_bounds b (v ∷ vs) =
      let m = max_of (higher b v) vs in
      let (below, rest) = max_of_bounds (higher b v) vs in
      let (b_below, v_below) = higher_bounds b v in
      (
        cmp_le_trans b (higher b v) m b_below below,
        (cmp_le_trans v (higher b v) m v_below below, rest),
      )

  skip_second :
      {P : Version → Type 0} {a b : Version} {vs : List Version}
      → Any P (a ∷ vs)
      → Any P (a ∷ b ∷ vs)
  skip_second (here p) = here p
  skip_second (there q) = there (there q)

  max_of-Any :
      (P : Version → Type 0) (b : Version) (vs : List Version) → P (max_of b vs) → Any P (b ∷ vs)
  unfolding max_of higher
  max_of-Any P b [] p = here p
  max_of-Any P b (v ∷ vs) p = elim (Bool-cases (is_gt (cmp v b))) [
    | inl e ↦ there (max_of-Any P v vs (rw (e, higher) at p))
    | inr e ↦ skip_second (max_of-Any P b vs (rw (e, higher) at p))
  ]

  -- A version that some element reaches is reached by every upper bound of the list.
  reach_bound :
      (t m : Version) (vs : List Version)
      → All (λ v. cmp v m ≢ Ordering.gt) vs
      → Any (λ v. cmp t v ≢ Ordering.gt) vs
      → cmp t m ≢ Ordering.gt
  reach_bound t m [] none_below reached = elim reached [ ]
  reach_bound t m (v ∷ vs) (p, ps) (here q) = cmp_le_trans t v m q p
  reach_bound t m (v ∷ vs) (p, ps) (there q) = reach_bound t m vs ps q

  -- Not below the highest version, if there is one.
  abbrev reaches : Version → Option Version → Bool
  reaches t none = true
  reaches t (some v) = not (is_gt (cmp t v))

  reaches-max_of? :
      (t : Version) (vs : List Version)
      → (reaches t (max_of? none vs) ≡ true) ↔ ((vs ≡ []) ⊎ Any (λ v. cmp t v ≢ Ordering.gt) vs)
  unfolding max_of?
  reaches-max_of? t [] = ((λ _. inl refl), (λ _. refl))
  reaches-max_of? t (v ∷ vs) =
      let m = max_of v vs in
      (
        (λ h. inr (max_of-Any (λ w. cmp t w ≢ Ordering.gt) v vs (ground arith))),
        λ h.
            let found : Any (λ w. cmp t w ≢ Ordering.gt) (v ∷ vs) = elim h [
              | inl e ↦ cc
              | inr a ↦ a
            ] in
            let le = reach_bound t m (v ∷ vs) (max_of_bounds v vs) found in ground arith,
      )

  -- For a target version that parses, a repair is safe exactly if no host of the control plane in
  -- the cluster reports a version, or one of them reports a version that the target does not
  -- exceed.
  pub safe_to_repair_iff :
      (c : Cluster Version) (target : String) (t : Version)
      → new_version target ≡ some t
      → ((safe_to_repair lib c target).0 ≡ true) ↔ (
          (cluster_versions c.control_plane ≡ [])
          ⊎ Any (λ v. cmp t v ≢ Ordering.gt) (cluster_versions c.control_plane))
  unfolding safe_to_repair
  safe_to_repair_iff c target t parsed =
      let same : (safe_to_repair lib c target).0 ≡ reaches t (highest lib none c.control_plane) =
        ground arith in
      rw (same, highest-max_of none c.control_plane) (reaches-max_of? t _)
