-- ===== src/State/Upgrade.antt =====
-- When an upgrade is needed: `UpgradeNeeded` of pkg/state/cluster.go.
use kubeone.Prelude.{
  none, some, List, [], ◌∷◌, ◌++◌, Ordering, Ordering-cases, subst, ◌∙◌, ◌≡◌, refl, ◌↔◌, inl, inr,
  arith, Option-cases, sym,
}
use kubeone.Fail.{plain, config}
use kubeone.Semver.{SemverLib}
use kubeone.State.Host.{Host}
use kubeone.State.Cluster.{Cluster}
use kubeone.State.Versions.{
  Verdict, needed, up_to_date, disallowed, nil_version, compare_hosts, upgrade_needed,
}

module _ (lib : SemverLib) where
  open lib use {Version, new_version, cmp, text, cmp_swap, cmp_le_trans}

  -- How a host's kubelet compares with the expected version.
  abbrev pub Kubelet : Ordering → Version → Host Version → Type 0
  Kubelet o expected h = (v : Version) × (h.kubelet.version ≡ some v) × (cmp expected v ≡ o)

  -- The hosts in the order in which the two loops visit them.
  abbrev pub visited : Cluster Version → List (Host Version)
  visited c = c.control_plane ++ c.static_workers

  -- What decides the verdict: the first host whose kubelet differs from the expected version.
  pub data Decides (expected : Version) : List (Host Version) → Verdict → Type 0 where
    all_equal : Decides expected [] up_to_date
    older :
        {h : Host Version} {hs : List (Host Version)}
        → Kubelet Ordering.gt expected h
        → Decides expected (h ∷ hs) needed
    newer :
        {h : Host Version} {hs : List (Host Version)}
        → Kubelet Ordering.lt expected h
        → Decides expected
            (h ∷ hs)
            (disallowed (config (plain "cluster downgrades are disallowed") "sanity check"))
    missing :
        {h : Host Version} {hs : List (Host Version)}
        → h.kubelet.version ≡ none
        → Decides expected (h ∷ hs) nil_version
    equal :
        {h : Host Version} {hs : List (Host Version)} {r : Verdict}
        → Kubelet Ordering.eq expected h
        → Decides expected hs r
        → Decides expected (h ∷ hs) r

  compare_hosts-append :
      (e : Version) (hs ks : List (Host Version)) (r : Verdict)
      → compare_hosts lib e hs (compare_hosts lib e ks r) ≡ compare_hosts lib e (hs ++ ks) r
  unfolding compare_hosts
  compare_hosts-append e [] ks r = refl
  compare_hosts-append e (h ∷ hs) ks r = ground (arith, compare_hosts-append e hs ks r)

  compare_hosts-Decides :
      (e : Version) (hs : List (Host Version)) → Decides e hs (compare_hosts lib e hs up_to_date)
  unfolding compare_hosts
  compare_hosts-Decides e [] = all_equal
  compare_hosts-Decides e (h ∷ hs) = elim (Option-cases h.kubelet.version) [
    | inl absent ↦ simp absent (missing absent)
    | inr (v, known) ↦ simp known (elim (Ordering-cases (cmp e v)) [
      | inl o ↦ simp o (newer (v, known, o))
      | inr (inl o) ↦ simp o (equal (v, known, o) (compare_hosts-Decides e hs))
      | inr (inr o) ↦ simp o (older (v, known, o))
    ])
  ]

  Decides-compare_hosts :
      (e : Version) {hs : List (Host Version)} {r : Verdict}
      → Decides e hs r
      → compare_hosts lib e hs up_to_date ≡ r
  unfolding compare_hosts
  Decides-compare_hosts e all_equal = refl
  Decides-compare_hosts e (older (v, known, o)) = ground arith
  Decides-compare_hosts e (newer (v, known, o)) = ground arith
  Decides-compare_hosts e (missing absent) = ground arith
  Decides-compare_hosts e (equal (v, known, o) d) = ground (arith, Decides-compare_hosts e d)

  -- The verdict is decided by the first host, control plane before static workers, whose kubelet
  -- differs from the expected version: an older one demands an upgrade, whatever the hosts behind
  -- it run; a newer one is an error; without a version the comparison faults; and a cluster with
  -- no such host is up to date.
  pub upgrade_needed-Decides :
      (c : Cluster Version) (r : Verdict)
      → (upgrade_needed lib c ≡ r) ↔ Decides c.expected_kubernetes_version (visited c) r
  unfolding upgrade_needed
  upgrade_needed-Decides c r =
      let e = c.expected_kubernetes_version in
      let joined = compare_hosts-append e c.control_plane c.static_workers up_to_date in
      (
        (λ h. subst (Decides e (visited c)) (sym joined ∙ h) (compare_hosts-Decides e (visited c))),
        λ d. joined ∙ Decides-compare_hosts e d,
      )
