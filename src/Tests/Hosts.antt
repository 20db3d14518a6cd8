-- ===== src/Tests/Hosts.antt =====
-- The theorems on hosts, clusters and addresses at concrete values.
use kubeone.Prelude.{
  str_eq, str_eq_refl, ℕ, ◌+◌, ◌-◌, ◌<◌, ◌≤◌, String, true, false, [], ◌∷◌, ◌++◌, take, length,
  reverse, All, Any, ◌≡◌, ◌≢◌, ◌↔◌, ◌⊎◌, refl, arith, Ordering,
}
use kubeone.Api.Subnet.{shifted, address, IsByte, nth_address-sum}
use kubeone.Api.Network.{nth_address}
use kubeone.State.Status.{container_healthy}
use kubeone.State.Cluster.{healthy_etcd, quorum, names_where, safe_to_delete_hosts}
use kubeone.State.Versions.{needed, upgrade_needed, safe_to_repair}
use kubeone.State.Removal.{
  etcd_failed, api_server_failed, worker_failed, safe_to_delete_hosts-parts,
}
use kubeone.State.Quorum.{remaining, safe_to_delete_hosts-quorum}
use kubeone.State.Upgrade.{Decides, visited, upgrade_needed-Decides}
use kubeone.State.Repair.{cluster_versions, safe_to_repair_iff}
use kubeone.Tests.Library.{minors}
use kubeone.Tests.Samples.{degraded, outdated}

differ : (a b : String) → str_eq a b ≡ false → a ≢ b
differ a b h e = ground (arith, str_eq_refl a)

safe_to_delete_hosts-parts_example :
    safe_to_delete_hosts degraded
    ≡ (names_where etcd_failed degraded.control_plane
        ++ take
            (healthy_etcd degraded.control_plane
              - quorum (healthy_etcd degraded.control_plane)
              - length (names_where etcd_failed degraded.control_plane))
            (names_where api_server_failed degraded.control_plane))
      ++ names_where worker_failed degraded.static_workers
safe_to_delete_hosts-parts_example = safe_to_delete_hosts-parts degraded

safe_to_delete_hosts-quorum_example :
    quorum (healthy_etcd degraded.control_plane)
    ≤ healthy_etcd (remaining (safe_to_delete_hosts degraded) degraded.control_plane)
safe_to_delete_hosts-quorum_example =
    safe_to_delete_hosts-quorum degraded
      ((differ "b" "a" refl, (differ "c" "a" refl, tt)), ((differ "c" "b" refl, tt), (tt, tt)))
      ((differ "a" "w" refl, (differ "b" "w" refl, (differ "c" "w" refl, tt))), tt)
      (unfold healthy_etcd container_healthy in omega arith)

upgrade_needed-Decides_example :
    (upgrade_needed minors outdated ≡ needed) ↔ Decides minors 34 (visited minors outdated) needed
upgrade_needed-Decides_example = upgrade_needed-Decides minors outdated needed

safe_to_repair_iff_example : ((safe_to_repair minors degraded "1.34.0").0 ≡ true) ↔ (
    (cluster_versions minors degraded.control_plane ≡ [])
    ⊎ Any (λ v. minors.cmp 34 v ≢ Ordering.gt) (cluster_versions minors degraded.control_plane))
safe_to_repair_iff_example = safe_to_repair_iff minors degraded "1.34.0" 34 refl

nth_address-sum_example :
    (length (reverse (nth_address (10 ∷ 96 ∷ 0 ∷ 0 ∷ []) 10)) ≡ 4)
    × (All IsByte (reverse (nth_address (10 ∷ 96 ∷ 0 ∷ 0 ∷ []) 10)))
    × (address (nth_address (10 ∷ 96 ∷ 0 ∷ 0 ∷ []) 10) < shifted 1 (0 ∷ 0 ∷ 96 ∷ 10 ∷ []))
    × (k : ℕ) × (address (nth_address (10 ∷ 96 ∷ 0 ∷ 0 ∷ []) 10) + shifted k (0 ∷ 0 ∷ 96 ∷ 10 ∷ [])
        ≡ address (10 ∷ 96 ∷ 0 ∷ 0 ∷ []) + 10)
nth_address-sum_example = nth_address-sum (10 ∷ 96 ∷ 0 ∷ 0 ∷ []) 10
