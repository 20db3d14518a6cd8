-- ===== src/Manifests/Applier.antt =====
-- Applying a manifest and pruning what it no longer has: pkg/nativeclient/applier.go and migrate.go.
-- The objects of a phase are taken in order; the program runs up to `concurrency` of them at a time
-- and collects what they report in that order.
use kubeone.Prelude.{
  String, Bool, true, false, not, Option, none, some, List, [], ◌∷◌, ◌++◌, map, any, str_eq,
  is_empty, ◌&&◌, ◌||◌, if◌then◌else◌,
}
use kubeone.Fail.{Error, kube_client, fail_with}
use kubeone.Fail.Outcome.{Outcome, ok, err, fault}
use kubeone.Fail.Exec.{Exec, pure, lift, check, modify, each, ◌>>=◌, ◌>>◌}
use kubeone.Manifests.Objects.{
  GroupKind, GroupVersionKind, Object, ObjectRef, kind_of, ref_of, same_kind, has_ref,
  namespace_group_kind, split_phases,
}
use kubeone.Manifests.Client.{Client, Selector, retry_on_no_match}
use kubeone.Manifests.Kinds.{prune_gvks}
use kubeone.Manifests.Inventory.{
  KindTexts, ApplyOptions, inventory_ref, request, ignore_not_found, prepare_inventory,
  finalize_inventory,
}

-- The cluster and the `Result` that `Apply` fills.
pub record Run (T : Type 0) : Type 0 where
  pub world : T
  pub applied : List ObjectRef
  pub migrated : List ObjectRef
  pub pruned : List ObjectRef

abbrev pub on_world : {T A : Type 0} → Exec T A → Exec (Run T) A
on_world m s = let (r, t') = m s.world in (r, record s { world = t' })

abbrev pub protected_namespaces : List String
protected_namespaces = "default" ∷ "kube-system" ∷ "kube-public" ∷ "kube-node-lease" ∷ []

-- What a prune must not delete.
abbrev pub kept_refs : ApplyOptions → List ObjectRef → List ObjectRef
kept_refs opts applied = elim opts.inventory [
  | none ↦ applied
  | some key ↦ inventory_ref key ∷ applied
]

module _ {T : Type 0} (c : Client T) where
  -- What is done with the answer on the scope of the object's type.
  unfoldable pub scoped : Object → Option Error → Bool → Outcome Object
  scoped o none namespaced = ok (if namespaced then record o { namespace = "default" } else o)
  scoped o (some e) namespaced =
      err (if c.is_no_match e then e else kube_client e "determining scope")

  unfoldable pub default_namespace : Bool → Object → Exec T Object
  unfolding retry_on_no_match scoped
  default_namespace wait_for_type o t =
      let asked =
        if wait_for_type
        then retry_on_no_match c (λ s. c.is_namespaced o s.0) (t, false)
        else c.is_namespaced o t in
      let (r, (t', namespaced)) = asked in
      if not (is_empty o.namespace) then (ok o, t) else (scoped o r namespaced, t')

  -- The object of the state is `live`, and the flag is `migrated`.
  unfoldable pub migrate_patched :
      Bool → Option Error → Object → T → Option Error × (T × (Object × Bool))
  migrate_patched migrated none patched t = (none, (t, (patched, true)))
  migrate_patched migrated (some e) patched t =
      let (g, (t', fresh)) = c.get_object patched t in
      (elim g [ none ↦ some e | some e' ↦ some e' ], (t', (fresh, migrated)))

  unfoldable pub migrate_wanted :
      Option Error × Option c.Patch → T × (Object × Bool) → Option Error × (T × (Object × Bool))
  unfolding migrate_patched
  migrate_wanted (some e, _) s = (some e, s)
  migrate_wanted (none, none) s = (none, s)
  migrate_wanted (none, some patch) (t, (live, migrated)) =
      let (r, (t', patched)) = c.patch_object live patch t in migrate_patched migrated r patched t'

  unfoldable pub migrate_attempt :
      String → T × (Object × Bool) → Option Error × (T × (Object × Bool))
  unfolding migrate_wanted
  migrate_attempt field_manager (t, (live, migrated)) =
      migrate_wanted (c.upgrade_patch live field_manager) (t, (live, migrated))

  unfoldable pub migrate_client_side_apply : String → Object → Exec T Bool
  unfolding migrate_attempt
  migrate_client_side_apply field_manager live t =
      let (r, (t', (_, migrated))) =
        c.retry_on_conflict (T × (Object × Bool)) (migrate_attempt field_manager)
          (t, (live, false)) in
      (check (fail_with kube_client r "migrating managed fields") >> pure migrated) t'

  -- The object as the server answers it.
  unfoldable pub send_apply : String → Bool → Object → Exec T Object
  unfolding retry_on_no_match
  send_apply field_manager dry_run desired t =
      let (r, (t', live)) =
        retry_on_no_match c (λ s. c.apply_object field_manager dry_run s.1 s.0) (t, desired) in
      (check (fail_with kube_client r "applying") >> pure live) t'

  abbrev pub apply_again : String → Bool → Object → T → Option Error × T
  apply_again field_manager dry_run desired t =
      let (r, (t', _)) = c.apply_object field_manager dry_run desired t in (r, t')

  -- The object as it was sent, and whether its fields were migrated.
  unfoldable pub apply_one : String → Bool → Object → Exec T (Object × Bool)
  unfolding default_namespace send_apply migrate_client_side_apply
  apply_one field_manager dry_run o = do
    desired ← default_namespace true o
    live ← send_apply field_manager dry_run desired
    if dry_run then pure (desired, false) else do
      migrated ← migrate_client_side_apply field_manager live
      if not migrated then pure (desired, false) else do
        request (apply_again field_manager dry_run desired)
            "re-applying after managed fields migration"
        pure (desired, true)

  unfoldable pub delete_object : Bool → Object → T → Option Error × T
  unfolding ignore_not_found
  delete_object dry_run o t =
      let (r, t') = c.delete_object dry_run o t in (ignore_not_found c r, t')

  unfoldable pub wait_for_crds : List String → Bool → Exec T Unit
  wait_for_crds [] dry_run = pure tt
  wait_for_crds (n ∷ ns) dry_run =
      if dry_run
      then pure tt
      else request (c.wait_established (n ∷ ns)) "waiting for CRDs to become established"

  -- `errors.Join`, nil without errors.
  unfoldable pub joined : List Error → Option Error
  joined [] = none
  joined (e ∷ es) = some (c.join_errors (e ∷ es))

  unfoldable pub record_outcome : Object × Bool → Run T → Run T
  record_outcome (o, migrated) s = record s {
    applied = s.applied ++ (ref_of o ∷ []);
    migrated = if migrated then s.migrated ++ (ref_of o ∷ []) else s.migrated;
  }

  -- What a goroutine of a phase reports, ahead of the reports of those after it.
  unfoldable pub report :
      Outcome (Object × Bool) → Exec (Run T) (List Error) → Exec (Run T) (List Error)
  unfolding record_outcome
  report (ok done) rest s = rest (record_outcome done s)
  report (err e) rest s = (rest >>= λ es. pure (e ∷ es)) s
  report fault rest s = (fault, s)

  -- The errors of a phase; what succeeds is recorded.
  unfoldable pub apply_objects : String → Bool → List Object → Exec (Run T) (List Error)
  unfolding apply_one report
  apply_objects field_manager dry_run [] s = (ok [], s)
  apply_objects field_manager dry_run (o ∷ os) s =
      let (r, t') = apply_one field_manager dry_run o s.world in
      report r (apply_objects field_manager dry_run os) (record s { world = t' })

  unfoldable pub apply_phase : String → Bool → List Object → Exec (Run T) Unit
  unfolding apply_objects joined
  apply_phase field_manager dry_run os = do
    es ← apply_objects field_manager dry_run os
    check (joined es)

  -- One turn of the loop over the items of a kind.
  unfoldable pub prune_item : Bool → List ObjectRef → Object → Exec (Run T) Unit
  unfolding delete_object
  prune_item dry_run applied o =
      if has_ref (ref_of o) applied || o.deleting
      then pure tt
      else if same_kind (kind_of o) namespace_group_kind && any (str_eq o.name) protected_namespaces
      then pure tt
      else do
        on_world (request (delete_object dry_run o) "pruning")
        modify (λ s. record s { pruned = s.pruned ++ (ref_of o ∷ []) })

  -- What is done with the answer to a listing.
  unfoldable pub prune_listed :
      Bool → List ObjectRef → Option Error → List Object → Exec (Run T) Unit
  unfolding prune_item
  prune_listed dry_run applied none items = each (prune_item dry_run applied) items
  prune_listed dry_run applied (some e) items =
      if c.is_no_match e then pure tt else lift (err (kube_client e "listing for pruning"))

  -- One turn of the loop over the kinds.
  unfoldable pub prune_kind :
      Bool → List ObjectRef → Selector → GroupVersionKind → Exec (Run T) Unit
  unfolding prune_listed
  prune_kind dry_run applied selector g s =
      let (r, (t', items)) = c.list_objects g selector s.world in
      prune_listed dry_run applied r items (record s { world = t' })

  module _ (sorted : List GroupKind → List GroupKind) where
    unfoldable pub prune_stale : List Object → List GroupKind → ApplyOptions → Exec (Run T) Unit
    unfolding prune_kind prune_gvks
    prune_stale os previous opts s = elim opts.prune_selector [
      | none ↦ (ok tt, s)
      | some selector ↦
          let (gs, t') = prune_gvks c sorted os previous opts.prune_types s.world in
          each (prune_kind opts.dry_run (kept_refs opts s.applied) selector) gs
            (record s { world = t' })
    ]

    unfoldable pub apply_manifest :
        KindTexts c.Text → String → List Object → ApplyOptions → Exec (Run T) Unit
    unfolding prune_stale apply_phase wait_for_crds split_phases prepare_inventory
        finalize_inventory
    apply_manifest texts field_manager os opts = do
      let p = split_phases os
      previous ← on_world (prepare_inventory c texts field_manager os opts)
      apply_phase field_manager opts.dry_run p.crds
      on_world (wait_for_crds (map (λ o. o.name) p.crds) opts.dry_run)
      apply_phase field_manager opts.dry_run p.namespaces
      apply_phase field_manager opts.dry_run p.rest
      prune_stale os previous opts
      on_world (finalize_inventory c texts field_manager os opts)

abbrev pub start : {T : Type 0} → T → Run T
start t = record { world = t; applied = []; migrated = []; pruned = [] }
