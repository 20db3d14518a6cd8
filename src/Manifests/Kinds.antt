-- ===== src/Manifests/Kinds.antt =====
-- The kinds in which stale objects are looked for: `pruneGVKs` of pkg/nativeclient/applier.go.
use kubeone.Prelude.{String, not, none, some, List, [], ◌∷◌, ◌++◌, map, keep, if◌then◌else◌}
use kubeone.Manifests.Objects.{GroupKind, GroupVersionKind, Object, has_kind, crd_group_kind}
use kubeone.Manifests.Client.{Client}

abbrev gvk : String → String → String → GroupVersionKind
gvk group version kind = record {
  group_kind = record { group = group; kind = kind };
  version = version;
}

abbrev pub default_prune_types : List GroupVersionKind
default_prune_types =
    gvk "" "v1" "ConfigMap"
    ∷ gvk "" "v1" "Namespace"
    ∷ gvk "" "v1" "PersistentVolumeClaim"
    ∷ gvk "" "v1" "PersistentVolume"
    ∷ gvk "" "v1" "Pod"
    ∷ gvk "" "v1" "ReplicationController"
    ∷ gvk "" "v1" "Secret"
    ∷ gvk "" "v1" "Service"
    ∷ gvk "batch" "v1" "Job"
    ∷ gvk "batch" "v1" "CronJob"
    ∷ gvk "networking.k8s.io" "v1" "Ingress"
    ∷ gvk "apps" "v1" "DaemonSet"
    ∷ gvk "apps" "v1" "Deployment"
    ∷ gvk "apps" "v1" "ReplicaSet"
    ∷ gvk "apps" "v1" "StatefulSet"
    ∷ []

-- Sets of kinds are lists in which a kind stands at most once.
unfoldable pub insert_kind : GroupKind → List GroupKind → List GroupKind
insert_kind k ks = if has_kind k ks then ks else k ∷ ks

unfoldable pub union : List GroupKind → List GroupKind → List GroupKind
unfolding insert_kind
union [] ks = ks
union (j ∷ js) ks = insert_kind j (union js ks)

unfoldable pub difference : List GroupKind → List GroupKind → List GroupKind
difference ks seen = keep (λ k. not (has_kind k seen)) ks

-- `groupKinds` of pkg/nativeclient/inventory.go.
unfoldable pub group_kinds : List Object → List GroupKind
unfolding union
group_kinds os = union (map (λ o. o.gvk.group_kind) os) []

-- The two variables of `pruneGVKs`.
pub record Found : Type 0 where
  pub seen : List GroupKind
  pub found : List GroupVersionKind

unfoldable pub add : Found → GroupVersionKind → Found
add f g =
    if has_kind g.group_kind f.seen
    then f
    else record { seen = g.group_kind ∷ f.seen; found = f.found ++ (g ∷ []) }

unfoldable pub add_all : Found → List GroupVersionKind → Found
unfolding add
add_all f [] = f
add_all f (g ∷ gs) = add_all (add f g) gs

unfoldable pub add_requested : List GroupVersionKind → List Object → Found
unfolding add_all
add_requested prune_types os =
    let explicit = add_all (record { seen = []; found = [] }) prune_types in
    add_all (record explicit { seen = insert_kind crd_group_kind explicit.seen })
      (default_prune_types ++ map (λ o. o.gvk) os)

module _ {T : Type 0} (c : Client T) where
  -- The loop over the recorded kinds.
  unfoldable pub add_mapped : Found → List GroupKind → T → Found × T
  add_mapped f [] t = (f, t)
  add_mapped f (k ∷ ks) t =
      let (m, t') = c.rest_mapping k t in add_mapped (elim m [ none ↦ f | some g ↦ add f g ]) ks t'

  module _ (sorted : List GroupKind → List GroupKind) where
    unfoldable pub prune_gvks :
        List Object → List GroupKind → List GroupVersionKind → T → List GroupVersionKind × T
    unfolding add_requested add_mapped
    prune_gvks os previous prune_types t =
        let f = add_requested prune_types os in
        let (g, t') = add_mapped f (sorted (difference previous f.seen)) t in (g.found, t')
