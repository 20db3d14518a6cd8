-- ===== src/State/Removal.antt =====
-- Which hosts may be removed without losing the etcd quorum: `EtcdToleranceRemain` and
-- `SafeToDeleteHosts` of pkg/state/cluster.go.
use kubeone.Prelude.{
  ℕ, zero, suc, ◌+◌, ◌-◌, ◌≤◌, String, Bool, not, ◌&&◌, List, [], ◌∷◌, ◌++◌, length, take, take-all,
  append-nil, ◌≡◌, refl, arith,
}
use kubeone.Prelude.Int.{
  ℤ, pos, negsuc, sub_ℕ, minus_ℕ, pos_part, neg_part, sub_ℕ-pos_part, sub_ℕ-neg_part,
}
use kubeone.State.Status.{container_healthy}
use kubeone.State.Host.{Host, worker_healthy}
use kubeone.State.Cluster.{
  Cluster, names_where, healthy_etcd, quorum, etcd_tolerance_remain, classify, with_candidates,
  safe_to_delete_hosts,
}

module _ {V : Type 0} where
  -- In the cluster, and its etcd member does not answer.
  abbrev pub etcd_failed : Host V → Bool
  etcd_failed h = h.is_in_cluster && not (container_healthy h.etcd)

  -- A healthy etcd member whose API server does not answer.
  abbrev pub api_server_failed : Host V → Bool
  api_server_failed h =
      h.is_in_cluster && container_healthy h.etcd && not (container_healthy h.api_server)

  abbrev pub worker_failed : Host V → Bool
  worker_failed h = h.is_in_cluster && not (worker_healthy h)

  classify-names :
      (hs : List (Host V))
      → classify hs ≡ (names_where etcd_failed hs, names_where api_server_failed hs)
  unfolding classify names_where
  classify-names [] = refl
  classify-names (h ∷ hs) = ground (arith, classify-names hs)

  api_server_failed-le :
      (hs : List (Host V)) → length (names_where api_server_failed hs) ≤ healthy_etcd hs
  unfolding names_where healthy_etcd
  api_server_failed-le [] = omega arith
  api_server_failed-le (h ∷ hs) = ground (arith, api_server_failed-le hs)

with_candidates-pos_part :
    (z : ℤ) (safe candidates : List String)
    → with_candidates z safe candidates ≡ safe ++ take (pos_part z) candidates
unfolding with_candidates
with_candidates-pos_part (negsuc n) safe candidates = rw append-nil
with_candidates-pos_part (pos zero) safe candidates = ground (arith, append-nil safe)
with_candidates-pos_part (pos (suc n)) safe [] = ground (arith, append-nil safe)
with_candidates-pos_part (pos (suc n)) safe (x ∷ xs) = ground (arith, take-all (suc n) (x ∷ xs))

-- The tolerance that is left, cut off at 0.
tolerance_left : (n q f : ℕ) → pos_part (minus_ℕ (sub_ℕ n q) f) ≡ n - q - f
tolerance_left n q f = omega (
  arith,
  sub_ℕ-pos_part n q,
  sub_ℕ-neg_part n q,
  sub_ℕ-pos_part (pos_part (sub_ℕ n q)) (neg_part (sub_ℕ n q) + f),
)

module _ {V : Type 0} where
  -- The hosts that the program recommends to remove are, in this order: the control plane hosts with
  -- a failed etcd member; of those with a healthy member and a failed API server as many as the
  -- quorum of the healthy members, with the failed ones counted off, leaves over; the failed static
  -- workers.
  pub safe_to_delete_hosts-parts :
      (c : Cluster V)
      → let n = healthy_etcd c.control_plane in
        let failed = names_where etcd_failed c.control_plane in
        safe_to_delete_hosts c
        ≡ (failed
            ++ take (n - quorum n - length failed) (names_where api_server_failed c.control_plane))
          ++ names_where worker_failed c.static_workers
  unfolding safe_to_delete_hosts etcd_tolerance_remain
  safe_to_delete_hosts-parts c =
      rw (classify-names c.control_plane, with_candidates-pos_part, tolerance_left)
