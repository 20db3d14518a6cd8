-- ===== src/Tasks/Etcd.antt =====
-- The repair of the etcd ring: `repairClusterIfNeeded` of pkg/tasks/etcd.go.
use kubeone.Prelude.{
  ℕ, String, Bool, true, not, Option, none, some, List, [], ◌∷◌, any, map, keep, is_some, str_eq,
  ◌⊎◌, inl, inr, if◌then◌else◌,
}
use kubeone.Fail.{Error, etcd, kube_client}
use kubeone.Api.Host.{HostConfig}
use kubeone.Api.Cluster.{KubeOneCluster, leader}

-- A member of the ring. Each client URL is its text; what `url.Parse` makes of it is below.
pub record Peer : Type 0 where
  pub name : String
  pub id : ℕ
  pub client_urls : List String

-- The etcd and the Kubernetes client over a state `W` of the outside world, and the order in which
-- a loop goes through a map.
pub record RepairClients (W : Type 0) : Type 0 where
  pub connect : HostConfig → Option Error
  pub member_list : W → Error ⊎ List Peer
  -- `url.Parse` and `Hostname`; none is its error.
  pub parse_hostname : String → Option String
  -- Whether `Status` of the endpoint fails.
  pub status_fails : String → Bool
  pub member_remove : ℕ → W → Option Error × W
  pub control_plane_nodes : W → Error ⊎ List String
  pub delete_node : String → W → Option Error × W
  pub arrange : List (String × ℕ) → List (String × ℕ)

abbrev pub has_text : String → List String → Bool
has_text name names = any (str_eq name) names

-- The write `m[k] = v`.
abbrev pub insert : String → ℕ → List (String × ℕ) → List (String × ℕ)
insert k v [] = (k, v) ∷ []
insert k v ((k', v') ∷ m) =
    let rest = insert k v m in if str_eq k k' then (k, v) ∷ m else (k', v') ∷ rest

abbrev pub lookup : String → List (String × ℕ) → Option ℕ
lookup k [] = none
lookup k ((k', v) ∷ m) = let rest = lookup k m in if str_eq k k' then some v else rest

-- The names and addresses of the hosts.
unfoldable pub host_identities : List HostConfig → List String
host_identities [] = []
host_identities (h ∷ hs) = h.hostname ∷ h.public_address ∷ h.private_address ∷ host_identities hs

module _ {W : Type 0} (clients : RepairClients W) where
  -- A URL that does not parse is passed over.
  unfoldable pub url_hostnames : List String → List String
  url_hostnames [] = []
  url_hostnames (u ∷ us) =
      let rest = url_hostnames us in
      elim (clients.parse_hostname u) [ none ↦ rest | some h ↦ h ∷ rest ]

  -- The loop over the endpoints of a peer, which schedules it at each one whose status fails.
  unfoldable pub schedule_failing : Peer → List String → List (String × ℕ) → List (String × ℕ)
  schedule_failing peer [] m = m
  schedule_failing peer (u ∷ us) m = schedule_failing peer us (elim (clients.parse_hostname u) [
    | none ↦ m
    | some h ↦ if clients.status_fails u then insert peer.name peer.id m else m
  ])

  -- One turn of the loop over the ring.
  unfoldable pub schedule_peer : List String → Peer → List (String × ℕ) → List (String × ℕ)
  schedule_peer known peer m =
      let m' = schedule_failing peer peer.client_urls m in
      if not (any (λ i. has_text i known) (peer.name ∷ url_hostnames peer.client_urls))
      then insert peer.name peer.id m'
      else m'

  unfoldable pub members_to_delete : List String → List Peer → List (String × ℕ) → List (String × ℕ)
  members_to_delete known [] m = m
  members_to_delete known (p ∷ ps) m = members_to_delete known ps (schedule_peer known p m)

  -- The loop that removes the members ends at the first error.
  unfoldable pub remove_members : List (String × ℕ) → W → Option Error × W
  remove_members [] w = (none, w)
  remove_members ((name, id) ∷ ms) w =
      let (r, w') = clients.member_remove id w in
      let rest = remove_members ms w' in
      elim r [ some e ↦ (some (etcd e "removing member"), w') | none ↦ rest ]

  -- Whether a node is deleted, `known` being the names of the members that are left.
  unfoldable pub deletes_node : List (String × ℕ) → List String → String → Bool
  deletes_node to_delete known node =
      if is_some (lookup node to_delete) then true else not (has_text node known)

  unfoldable pub delete_nodes : (String → Bool) → List String → W → Option Error × W
  delete_nodes dead [] w = (none, w)
  delete_nodes dead (n ∷ ns) w =
      let alive = delete_nodes dead ns w in
      let (r, w') = clients.delete_node n w in
      let rest = delete_nodes dead ns w' in
      if dead n
      then elim r [ some e ↦ (some (kube_client e "deleting Node"), w') | none ↦ rest ]
      else alive

  -- The names of the peers without those of the removed members.
  unfoldable pub remaining_members : List Peer → List (String × ℕ) → List String
  remaining_members peers to_delete =
      keep (λ n. not (is_some (lookup n to_delete))) (map (λ p. p.name) peers)

  unfoldable pub repair_ring : List HostConfig → List Peer → W → Option Error × W
  repair_ring hosts peers w =
      let to_delete = members_to_delete (host_identities hosts) peers [] in
      let (r, w') = remove_members (clients.arrange to_delete) w in
      elim r [
        | some e ↦ (some e, w')
        | none ↦ elim (clients.control_plane_nodes w') [
          | inl e ↦ (some (kube_client e "getting v1.NodeList"), w')
          | inr nodes ↦
              delete_nodes (deletes_node to_delete (remaining_members peers to_delete)) nodes w'
        ]
      ]

  unfoldable pub repair_cluster_if_needed : KubeOneCluster → W → Option Error × W
  repair_cluster_if_needed c w = elim (leader c).0 [
    | none ↦ ((leader c).1, w)
    | some host ↦ elim (clients.connect host) [
      | some e ↦ (some e, w)
      | none ↦ elim (clients.member_list w) [
        | inl e ↦ (some (etcd e "getting members list"), w)
        | inr peers ↦ repair_ring c.control_plane.hosts peers w
      ]
    ]
  ]
