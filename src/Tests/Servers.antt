-- ===== src/Tests/Servers.antt =====
-- The theorems on manifests at a cluster with four objects.
use kubeone.Prelude.{
  String, Bool, true, false, not, none, some, inr, ◌⊎◌, List, [], ◌∷◌, ◌++◌, map, keep, All, ◌≡◌,
  refl, reverse,
}
use kubeone.Fail.{plain}
use kubeone.Manifests.Objects.{
  GroupKind, Object, ObjectRef, kind_of, ref_of, same_kind, same_kind-eq, same_ref, crd_group_kind,
  split_phases, sort_for_delete,
}
use kubeone.Manifests.Client.{Client, ObjectKey}
use kubeone.Fail.Exec.{◌>>=◌, each}
use kubeone.Manifests.Kinds.{difference}
use kubeone.Manifests.Inventory.{KindTexts, ApplyOptions}
use kubeone.Manifests.Applier.{start, apply_manifest}
use kubeone.Manifests.Phases.{sort_for_delete-reverse_phases}
use kubeone.Manifests.Server.{Server}
use kubeone.Manifests.Recorded.{Recorded, apply_manifest-Recorded}
use kubeone.Manifests.Deletions.{DeletionLog}
use kubeone.Manifests.Pruned.{MayPrune, apply_manifest-pruned}
use kubeone.Tests.Library.{retrying}

-- The objects of the cluster, the lines of the inventory and the deletions that were requested.
record Store : Type 0 where
  objects : List Object
  deletions : List ObjectRef
  lines : List String

listed : GroupKind → List Object → List Object
listed k os = keep (λ o. same_kind (kind_of o) k) os

listed_kind : (k : GroupKind) (os : List Object) → All (λ o. kind_of o ≡ k) (listed k os)
unfolding listed
listed_kind k [] = tt
listed_kind k (o ∷ os) = go (same_kind (kind_of o) k) refl (listed_kind k os)
  where
    go :
        (b : Bool)
        → same_kind (kind_of o) k ≡ b
        → All (λ x. kind_of x ≡ k) (listed k os)
        → All
            (λ x. kind_of x ≡ k)
            (elim b as (λ _. List Object) [ true ↦ o ∷ listed k os | false ↦ listed k os ])
    go true e rest = (same_kind-eq (kind_of o) k e, rest)
    go false e rest = rest

others : Object → List Object → List Object
others o os = keep (λ x. not (same_ref (ref_of x) (ref_of o))) os

abbrev cluster_client : Client Store
cluster_client = record {
  Text = List String;
  Patch = Unit;
  is_no_match = λ e. false;
  is_not_found = λ e. false;
  is_namespaced = λ o s. (none, (s, not (same_kind (kind_of o) crd_group_kind)));
  apply_object = λ manager dry o s. (none, (record s { objects = o ∷ others o s.objects }, o));
  get_object = λ o s. (none, (s, o));
  patch_object = λ o p s. (none, (s, o));
  delete_object = λ dry o s.
      (none, record s { objects = others o s.objects; deletions = s.deletions ++ (ref_of o ∷ []) });
  list_objects = λ g matches s. (none, (s, listed g.group_kind s.objects));
  rest_mapping = λ k s. (some (record { group_kind = k; version = "v1" }), s);
  get_config_map = λ key s. (none, (s, s.lines));
  apply_config_map = λ manager key text s. (none, record s { lines = text });
  delete_config_map = λ key s. (none, record s { lines = [] });
  upgrade_patch = λ o manager. (none, none);
  wait_established = λ names s. (none, s);
  waits = λ S. retrying;
  retry_on_conflict = λ S fn s. fn s;
  join_errors = λ es. plain "errors";
}

abbrev line_texts : KindTexts (List String)
line_texts = record {
  lines = λ ls. ls;
  join_lines = λ ls. ls;
  trim_space = λ l. l;
  parse_kind = λ l. record { group = ""; kind = l };
  kind_text = λ k. k.kind;
  sorted_texts = λ ls. ls;
}

abbrev object : String → String → String → Object
object kind namespace name = record {
  gvk = record { group_kind = record { group = ""; kind = kind }; version = "v1" };
  namespace = namespace;
  name = name;
  labels = ("addon", "metrics") ∷ [];
  deleting = false;
  content = "";
}

abbrev prunes : ApplyOptions
prunes = record {
  prune_selector = some (λ _. true);
  prune_types = [];
  inventory = some (record { namespace = "kube-system"; name = "inventory" });
  dry_run = false;
}

abbrev before : Store
before = record {
  objects =
      object "ConfigMap" "default" "stale"
      ∷ object "ConfigMap" "kube-system" "inventory"
      ∷ object "Namespace" "" "kube-system"
      ∷ object "Secret" "default" "kept"
      ∷ [];
  deletions = [];
  lines = "ConfigMap" ∷ [];
}

abbrev manifest : List Object
manifest = object "Secret" "default" "kept" ∷ object "Namespace" "" "metrics" ∷ []

-- Only the stale object goes.
prunes_stale :
    map
      (λ r. r.name)
      (apply_manifest cluster_client
        (λ ks. ks)
        line_texts
        "kubeone"
        manifest
        prunes
        (start before)).1.pruned
    ≡ "stale" ∷ []
unfolding apply_manifest ◌>>=◌ same_kind each difference listed others same_ref
prunes_stale = refl

cluster_log : DeletionLog cluster_client (λ s. s.deletions)
cluster_log = record {
  delete_logged = λ dry o s. refl;
  scope_not = λ o s. refl;
  apply_not = λ manager dry o s. refl;
  get_not = λ o s. refl;
  patch_not = λ o p s. refl;
  list_not = λ g selector s. refl;
  mapping_not = λ k s. refl;
  read_not = λ key s. refl;
  write_not = λ manager key text s. refl;
  wait_not = λ names s. refl;
  retries = λ P fn k s p. k s p;
}

apply_manifest-pruned_example :
    let s =
      (apply_manifest cluster_client
        (λ ks. ks)
        line_texts
        "kubeone"
        manifest
        prunes
        (start before)).1 in
    All (MayPrune prunes s.applied) s.world.deletions × All (MayPrune prunes s.applied) s.pruned
apply_manifest-pruned_example =
    apply_manifest-pruned cluster_client (λ s. s.deletions) (λ ks. ks) line_texts "kubeone" manifest
      prunes before cluster_log (λ g selector s. listed_kind g.group_kind s.objects) refl

-- The client above keeps the lines of the inventory.
abbrev inventory_key : ObjectKey
inventory_key = record { namespace = "kube-system"; name = "inventory" }

abbrev cluster_server : Server cluster_client inventory_key
cluster_server = record {
  Holds = λ text s. s.lines ≡ text;
  stores = λ manager text s e. refl;
  may_store = λ manager old text s h. inr refl;
  scope = λ text o s h. h;
  apply_other = λ text manager dry o s k h. h;
  get_other = λ text o s h. h;
  patch_other = λ text o p s k h. h;
  delete_other = λ text dry o s k h. h;
  list = λ text g selector s h. h;
  mapping = λ text k s h. h;
  wait = λ text names s h. h;
  apply_ref = λ manager dry o s. refl;
  get_ref = λ o s. refl;
  patch_ref = λ o p s. refl;
  retries = λ P fn k s p. k s p;
}

apply_manifest-Recorded_example :
    ((apply_manifest cluster_client
        (λ ks. ks)
        line_texts
        "kubeone"
        manifest
        prunes
        (start before)).1.applied
      ≡ [])
    ⊎ Recorded cluster_server line_texts "kubeone"
        (apply_manifest cluster_client
          (λ ks. ks)
          line_texts
          "kubeone"
          manifest
          prunes
          (start before)).1
unfolding same_kind
apply_manifest-Recorded_example =
    apply_manifest-Recorded cluster_client inventory_key cluster_server line_texts "kubeone"
      manifest (λ ks. ks) (some (λ _. true)) [] before (refl, (refl, tt))

sort_for_delete-reverse_phases_example :
    let p = split_phases manifest in
    sort_for_delete manifest ≡ reverse p.rest ++ (reverse p.namespaces ++ reverse p.crds)
sort_for_delete-reverse_phases_example = sort_for_delete-reverse_phases manifest
