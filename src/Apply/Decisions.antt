-- ===== src/Apply/Decisions.antt =====
-- What the decisions of `runApply` guarantee: pkg/cmd/apply.go.
use kubeone.Prelude.{
  Bool, true, false, not, some, List, [], ◌∷◌, any, all, ◌≡◌, ◌≢◌, ◌↔◌, refl, arith,
}
use kubeone.Semver.{SemverLib}
use kubeone.State.Host.{Host}
use kubeone.State.Cluster.{cluster_is_provisioned, cluster_healthy}
use kubeone.State.Health.{cluster_healthy-broken_hosts}
use kubeone.State.Context.{State, encryption_enabled, custom_configured}
use kubeone.Apply.Reconcile.{
  ApplyOpts, rotate_key, upgrade_if_needed, nothing, run_repair, unhealthy_branch, rotate_branch,
  reconcile,
}

module _ (lib : SemverLib) where
  open lib use {Version}

  any-not-all :
      (p : Host Version → Bool) (hs : List (Host Version))
      → any (λ h. not (p h)) hs ≡ not (all p hs)
  any-not-all p [] = refl
  any-not-all p (h ∷ hs) = ground (arith, any-not-all p hs)

  -- A cluster that is provisioned always leads to a plan or to an error: the branch that would
  -- return without either is never reached.
  reconcile-ne-nothing : (opts : ApplyOpts) (s : State Version) → reconcile lib opts s ≢ nothing
  unfolding reconcile unhealthy_branch rotate_branch run_repair
  reconcile-ne-nothing opts s = ground (
    arith,
    cluster_healthy-broken_hosts s.live_cluster,
    any-not-all (λ h. h.is_in_cluster) s.live_cluster.control_plane,
    any-not-all (λ h. h.is_in_cluster) s.live_cluster.static_workers,
  )

  -- An upgrade is planned exactly for a provisioned and healthy cluster when no key rotation is
  -- asked for.
  reconcile-upgrade_iff :
      (opts : ApplyOpts) (s : State Version)
      → (reconcile lib opts s ≡ upgrade_if_needed) ↔ (
          (cluster_is_provisioned s.live_cluster ≡ true)
          × (cluster_healthy s.live_cluster ≡ true)
          × (opts.rotate_encryption_key ≡ false))
  unfolding reconcile unhealthy_branch rotate_branch
  reconcile-upgrade_iff opts s = ground arith

  -- The key is rotated exactly if that is asked for, the cluster is provisioned and healthy,
  -- encryption is enabled in the configuration and in the cluster, and no custom configuration is
  -- given.
  reconcile-rotate_key_iff :
      (opts : ApplyOpts) (s : State Version)
      → (reconcile lib opts s ≡ rotate_key) ↔ (
          (cluster_is_provisioned s.live_cluster ≡ true)
          × (cluster_healthy s.live_cluster ≡ true)
          × (opts.rotate_encryption_key ≡ true)
          × (encryption_enabled s ≡ some true)
          × (custom_configured s ≡ false))
  unfolding reconcile unhealthy_branch rotate_branch
  reconcile-rotate_key_iff opts s = ground arith
