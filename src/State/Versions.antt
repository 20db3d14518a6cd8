-- ===== src/State/Versions.antt =====
-- The version checks of the live cluster: pkg/state/cluster.go. They take the library of semantic
-- versions as a parameter.
use kubeone.Prelude.{
  String, Bool, true, false, not, Option, none, some, List, [], ◌∷◌, ◌++◌, Ordering, if◌then◌else◌,
}
use kubeone.Fail.{Error, plain, new_config_error, config}
use kubeone.Semver.{SemverLib, is_gt}
use kubeone.State.Status.{has, kernel_release_4_19_plus}
use kubeone.State.Host.{Host}
use kubeone.State.Cluster.{Cluster}

-- What `UpgradeNeeded` returns. `nil_version` is the fault of comparing with a nil version.
pub data Verdict : Type 0 where
  needed : Verdict
  up_to_date : Verdict
  disallowed : Error → Verdict
  nil_version : Verdict

module _ (lib : SemverLib) where
  open lib use {Version, new_version, cmp, text, constraint_holds}

  -- One of the two loops; `rest` is what follows it.
  unfoldable pub compare_hosts : Version → List (Host Version) → Verdict → Verdict
  compare_hosts expected [] rest = rest
  compare_hosts expected (h ∷ hs) rest =
      let others = compare_hosts expected hs rest in
      elim h.kubelet.version [
        | none ↦ nil_version
        | some v ↦ elim (cmp expected v) [
          | Ordering.gt ↦ needed
          | Ordering.lt ↦
              disallowed (config (plain "cluster downgrades are disallowed") "sanity check")
          | Ordering.eq ↦ others
        ]
      ]

  unfoldable pub upgrade_needed : Cluster Version → Verdict
  upgrade_needed c =
      compare_hosts c.expected_kubernetes_version c.control_plane
        (compare_hosts c.expected_kubernetes_version c.static_workers up_to_date)

  -- The loop that keeps the highest version of the control plane hosts in the cluster.
  unfoldable pub highest : Option Version → List (Host Version) → Option Version
  highest best [] = best
  highest best (h ∷ hs) =
      highest
        (if not h.is_in_cluster then best else elim h.kubelet.version [
          | none ↦ best
          | some v ↦ elim best [
            | none ↦ some v
            | some b ↦ if is_gt (cmp v b) then some v else some b
          ]
        ])
        hs

  unfoldable pub safe_to_repair : Cluster Version → String → Bool × String
  safe_to_repair c target = elim (new_version target) [
    | none ↦ (false, "")
    | some t ↦ elim (highest none c.control_plane) [
      | none ↦ (true, text t)
      | some v ↦ if is_gt (cmp t v) then (false, text v) else (true, text t)
    ]
  ]

  kernel_errors : List (Host Version) → List Error
  kernel_errors [] = []
  kernel_errors (h ∷ hs) =
      let rest = kernel_errors hs in
      if not (has h.kernel_release.status kernel_release_4_19_plus)
      then new_config_error "checking kernel release version" "kernel version is not supported"
        ∷ rest
      else rest

  -- The errors that `multierr.Combine` joins; none of them is the nil error.
  unfoldable pub inspect_kernel_versions : Cluster Version → List Error
  unfolding kernel_errors
  inspect_kernel_versions c = elim (constraint_holds "<1.32") [
    | none ↦ plain "improper constraint" ∷ []
    | some check ↦
        if check c.expected_kubernetes_version
        then []
        else kernel_errors (c.control_plane ++ c.static_workers)
  ]
