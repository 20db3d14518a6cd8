-- ===== src/Probes/Investigate.antt =====
-- What the probes find out of the cluster as a whole: `investigateCluster` of pkg/tasks/probes.go.
-- A live host points to its configured host, so a change of its configuration changes the
-- configured hosts as well.
use kubeone.Prelude.{
  String, Bool, true, false, not, ◌&&◌, ◌⊎◌, inl, inr, Option, none, some, List, [], ◌∷◌, map,
  bit_or, str_eq, if◌then◌else◌,
}
use kubeone.Fail.{Error, plain, runtime, kube_client}
use kubeone.Api.Host.{HostConfig, set_leader}
use kubeone.State.Status.{pod_running}
use kubeone.State.Host.{Host}
use kubeone.State.Cluster.{Cluster, EncryptionConfiguration, cluster_is_provisioned}
use kubeone.State.Context.{State}

-- What the cluster answers: the health of an API server, if it has a status; the error of listing
-- the etcd members; whether the host has a member of the list and a healthy one, if it has a
-- status; the client set; the names of the nodes; the two features found in the pods of the API
-- server, for encryption whether it is enabled and whether its file is custom.
pub record Answers (V : Type 0) : Type 0 where
  pub apiserver_health : HostConfig → Option Bool
  pub member_list : State V → Option Error
  pub etcd_status : HostConfig → Option (Bool × Bool)
  pub build_clientset : State V → Option Error
  pub node_names : State V → Error ⊎ List String
  pub authentication_config_enabled : State V → Error ⊎ Bool
  pub encryption_providers_enabled : State V → Error ⊎ (Bool × Bool)
  pub fetch_encryption_providers_file : State V → Option Error × State V

abbrev pub lost_quorum : Error
lost_quorum = runtime (plain "quorum mostly like lost") "leader electing"

abbrev pub is_healthy : Option Bool → Bool
is_healthy none = false
is_healthy (some h) = h

module _ {V : Type 0} where
  unfoldable pub lead : Bool → Host V → Host V
  unfolding set_leader
  lead leader h = record h { config = set_leader h.config leader }

  abbrev pub run_api_server : Host V → Host V
  run_api_server h = record h {
    api_server = record h.api_server { status = bit_or h.api_server.status pod_running };
  }

  -- The loop that elects the first host with a healthy API server. The flag tells whether a leader
  -- has been elected.
  unfoldable pub elect : (HostConfig → Option Bool) → Bool → List (Host V) → List (Host V) × Bool
  elect status elected [] = ([], elected)
  elect status elected (h ∷ hs) =
      let (others, found) = elect status elected hs in
      let (rest, done) = elect status true hs in
      if is_healthy (status h.config)
      then ((if elected then run_api_server h else lead true (run_api_server h)) ∷ rest, done)
      else (h ∷ others, found)

  unfoldable pub with_control_plane : State V → List (Host V) → State V
  with_control_plane s hosts = record s {
    cluster = record s.cluster {
      control_plane = record s.cluster.control_plane { hosts = map (λ h. h.config) hosts };
    };
    live_cluster = record s.live_cluster { control_plane = hosts };
  }

  unfoldable pub elect_leader : Answers V → State V → Option Error × State V
  elect_leader w s =
      let (hosts, elected) =
        elect w.apiserver_health false (map (lead false) s.live_cluster.control_plane) in
      (if elected then none else some lost_quorum, with_control_plane s hosts)

  unfoldable pub mark_etcd : (HostConfig → Option (Bool × Bool)) → Host V → Host V
  mark_etcd status h = elim (status h.config) [
    | none ↦ h
    | some (member, health) ↦
        if member && health
        then record h { etcd = record h.etcd { status = bit_or h.etcd.status pod_running } }
        else h
  ]

  -- The client set is built unless there is one.
  unfoldable pub probe_etcd : Answers V → State V → Option Error × State V
  probe_etcd w s = elim (w.member_list s) [
    | some e ↦ (some e, s)
    | none ↦
        let s' =
          with_control_plane s (map (mark_etcd w.etcd_status) s.live_cluster.control_plane) in
        (w.build_clientset s', s')
  ]

  -- The first host of the name joins; the flag tells whether there was one.
  unfoldable pub join_host : String → List (Host V) → List (Host V) × Bool
  join_host name [] = ([], false)
  join_host name (h ∷ hs) =
      let (rest, found) = join_host name hs in
      if str_eq name h.config.hostname
      then (record h { is_in_cluster = true } ∷ hs, true)
      else (h ∷ rest, found)

  unfoldable pub join_node : String → Cluster V → Cluster V
  join_node name c =
      let (control_plane, found) = join_host name c.control_plane in
      if found
      then record c { control_plane = control_plane }
      else record c { static_workers = (join_host name c.static_workers).0 }

  unfoldable pub join_nodes : List String → Cluster V → Cluster V
  join_nodes [] c = c
  join_nodes (n ∷ ns) c = join_nodes ns (join_node n c)

  unfoldable pub probe_nodes : Answers V → State V → Option Error × State V
  probe_nodes w s = elim (w.node_names s) [
    | inr names ↦ (none, record s { live_cluster = join_nodes names s.live_cluster })
    | inl e ↦ (some (kube_client e "getting v1.NodeList"), s)
  ]

  unfoldable pub probe_authentication : Answers V → State V → Option Error × State V
  probe_authentication w s = elim (w.authentication_config_enabled s) [
    | inl e ↦ (some e, s)
    | inr enabled ↦ (
      none,
      record s { live_cluster = record s.live_cluster { authentication_config_enabled = enabled } },
    )
  ]

  unfoldable pub probe_encryption : Answers V → State V → Option Error × State V
  probe_encryption w s = elim (w.encryption_providers_enabled s) [
    | inl e ↦ (some e, s)
    | inr (enabled, custom) ↦
        let found : EncryptionConfiguration = record {
          enable = true;
          config = none;
          custom = custom;
        } in
        let s' = record s {
          live_cluster = record s.live_cluster { encryption_configuration = some found };
        } in
        if enabled then w.fetch_encryption_providers_file s' else (none, s)
  ]

  -- A step that runs only if the one before it has not failed.
  abbrev pub then_step :
      Option Error × State V → (State V → Option Error × State V) → Option Error × State V
  then_step (none, s) step = step s
  then_step (some e, s) step = (some e, s)

  unfoldable pub investigate_cluster : Answers V → State V → Option Error × State V
  investigate_cluster w s =
      if not (cluster_is_provisioned s.live_cluster)
      then (some (plain "unable to investigate non-provisioned cluster"), s)
      else then_step
          (then_step (then_step (then_step (elect_leader w s) (probe_etcd w)) (probe_nodes w))
            (probe_authentication w))
          (probe_encryption w)
