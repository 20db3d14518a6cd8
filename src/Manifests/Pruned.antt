-- ===== src/Manifests/Pruned.antt =====
-- What a prune leaves alone: pkg/nativeclient/applier.go.
use kubeone.Prelude.{
  String, Bool, true, false, Option, none, some, List, [], ◌∷◌, map, any, str_eq, ◌&&◌, ◌||◌, All,
  All-append, ◌≡◌, refl, sym, subst, arith,
}
use kubeone.Fail.{Error, kube_client, fail_with}
use kubeone.Fail.Outcome.{Outcome, ok, err, fault}
use kubeone.Fail.Exec.{Exec, each}
use kubeone.Fail.Exec.Keeps.{
  Keeps, Keeps-check, Keeps-done, Keeps-choice, Keeps-each, Leads-after, Leads-before,
}
use kubeone.Manifests.Objects.{
  GroupKind, GroupVersionKind, Object, ObjectRef, kind_of, ref_of, same_kind, same_ref, has_ref,
  has_kind, crd_group_kind, namespace_group_kind, split_phases,
}
use kubeone.Manifests.Client.{Client, ObjectKey, Selector}
use kubeone.Manifests.Kinds.{add_requested, difference, prune_gvks}
use kubeone.Manifests.Deletions.{
  DeletionLog, apply_one-OfDeleted, wait_for_crds-OfDeleted, add_mapped-OfDeleted,
  prepare_inventory-OfDeleted, finalize_inventory-OfDeleted,
}
use kubeone.Manifests.Asked.{Asked, prune_gvks-Asked}
use kubeone.Manifests.Inventory.{inventory_ref, KindTexts, ApplyOptions, request}
use kubeone.Manifests.Applier.{
  Run, start, on_world, protected_namespaces, report, delete_object, prune_item, prune_listed,
  prune_kind, kept_refs, prune_stale, apply_objects, record_outcome, apply_one, apply_phase,
  apply_manifest,
}

-- The namespaces that are never pruned.
abbrev pub is_protected : ObjectRef → Bool
is_protected r =
    same_kind r.group_kind namespace_group_kind && any (str_eq r.name) protected_namespaces

-- The config map of the inventory.
abbrev pub is_inventory : Option ObjectKey → ObjectRef → Bool
is_inventory none r = false
is_inventory (some key) r = same_ref r (inventory_ref key)

-- A reference that a prune may delete: it has not been applied and is not the inventory, it is no
-- protected namespace, and its kind is that of the definitions only if that was asked for.
abbrev pub MayPrune : ApplyOptions → List ObjectRef → ObjectRef → Type 0
MayPrune opts applied r =
    (has_ref r applied ≡ false)
    × (is_inventory opts.inventory r ≡ false)
    × (is_protected r ≡ false)
    × (same_kind r.group_kind crd_group_kind ≡ true
        → has_kind crd_group_kind (map (λ g. g.group_kind) opts.prune_types) ≡ true)

-- The objects whose deletion was requested, and those that the result names.
abbrev pub AllMayPrune :
    {T : Type 0} → (T → List ObjectRef) → ApplyOptions → List ObjectRef → Run T → Type 0
AllMayPrune deleted opts applied s =
    All (MayPrune opts applied) (deleted s.world) × All (MayPrune opts applied) s.pruned

-- The state of a prune that starts when `applied` has been applied.
abbrev Pruning :
    {T : Type 0} → (T → List ObjectRef) → ApplyOptions → List ObjectRef → Run T → Type 0
Pruning deleted opts applied s = (s.applied ≡ applied) × AllMayPrune deleted opts applied s

-- What is not kept has not been applied and is not the inventory.
pub not_kept :
    (opts : ApplyOptions) (applied : List ObjectRef) (r : ObjectRef)
    → has_ref r (kept_refs opts applied) ≡ false
    → (has_ref r applied ≡ false) × (is_inventory opts.inventory r ≡ false)
not_kept opts applied r h = by_inventory opts.inventory h
  where
    by_inventory :
        (inventory : Option ObjectKey)
        → has_ref r (kept_refs (record opts { inventory = inventory }) applied) ≡ false
        → (has_ref r applied ≡ false) × (is_inventory inventory r ≡ false)
    by_inventory none h = (h, refl)
    by_inventory (some key) h = ground arith

module _ {T : Type 0} {c : Client T} {deleted : T → List ObjectRef} (log : DeletionLog c deleted)
    (opts : ApplyOptions) (applied : List ObjectRef) where
  delete-Pruning :
      (o : Object)
      → MayPrune opts applied (ref_of o)
      → Keeps
          (Pruning deleted opts applied)
          (on_world (request (delete_object c opts.dry_run o) "pruning"))
  unfolding delete_object
  delete-Pruning o may = record {
    from = λ s (same, (safe, named)).
        let r = (delete_object c opts.dry_run o s.world).0 in
        let t' = (delete_object c opts.dry_run o s.world).1 in
        let both =
          All-append (MayPrune opts applied) (deleted s.world) (ref_of o ∷ []) safe (may, tt) in
        let logged =
          subst (All (MayPrune opts applied)) (sym (log.delete_logged opts.dry_run o s.world))
            both in
        (
          same,
          (
            (Keeps-check (λ t. All (MayPrune opts applied) (deleted t))
                  (fail_with kube_client r "pruning")).from
                t' logged,
            named,
          ),
        );
  }

  prune_item-Pruning :
      (o : Object)
      → (same_kind (kind_of o) crd_group_kind ≡ true
          → has_kind crd_group_kind (map (λ g. g.group_kind) opts.prune_types) ≡ true)
      → Keeps (Pruning deleted opts applied) (prune_item c opts.dry_run (kept_refs opts applied) o)
  unfolding prune_item
  prune_item-Pruning o asked =
      Keeps-choice _ (has_ref (ref_of o) (kept_refs opts applied) || o.deleting) _ _
        (λ _. Keeps-done _ (ok tt))
        λ e.
          let (applied_not, inventory_not) = not_kept opts applied (ref_of o) (ground (arith, e)) in
          Keeps-choice _ (is_protected (ref_of o)) _ _ (λ _. Keeps-done _ (ok tt))
            λ e'.
              let may : MayPrune opts applied (ref_of o) =
                (applied_not, inventory_not, e', asked) in
              Leads-before _ _ (delete-Pruning o may) λ _. record {
                from = λ s (same, (safe, named)). (
                  same,
                  (
                    safe,
                    All-append (MayPrune opts applied) s.pruned (ref_of o ∷ []) named (may, tt),
                  ),
                );
              }

  prune_listed-Pruning :
      (g : GroupVersionKind)
      → Asked opts.prune_types g
      → (r : Option Error) (items : List Object) → All (λ o. kind_of o ≡ g.group_kind) items
      → Keeps
          (Pruning deleted opts applied)
          (prune_listed c opts.dry_run (kept_refs opts applied) r items)
  unfolding prune_listed
  prune_listed-Pruning g asked none items a =
      Keeps-each (λ o. kind_of o ≡ g.group_kind)
        (prune_item c opts.dry_run (kept_refs opts applied))
        (λ o e. prune_item-Pruning o (
          subst
            (λ k.
              same_kind k crd_group_kind ≡ true
              → has_kind crd_group_kind (map (λ p. p.group_kind) opts.prune_types) ≡ true)
            (sym e) asked))
        items a
  prune_listed-Pruning g asked (some e) items a =
      Keeps-choice _ (c.is_no_match e) _ _ (λ _. Keeps-done _ (ok tt)) λ _. Keeps-done _ _

  -- The server lists objects of the kind that it is asked for.
  module _
      (lists : (g : GroupVersionKind) (selector : Selector) (t : T)
        → All (λ o. kind_of o ≡ g.group_kind) (c.list_objects g selector t).1.1) where
    prune_kind-Pruning :
        (selector : Selector) (g : GroupVersionKind)
        → Asked opts.prune_types g
        → Keeps
            (Pruning deleted opts applied)
            (prune_kind c opts.dry_run (kept_refs opts applied) selector g)
    unfolding prune_kind
    prune_kind-Pruning selector g asked = record {
      from = λ s h.
          let (r, (t', items)) = c.list_objects g selector s.world in
          let (same, (safe, named)) = h in
          (prune_listed-Pruning g asked r items (lists g selector s.world)).from
            (record s { world = t' })
            (
              same,
              (
                subst (All (MayPrune opts applied)) (sym (log.list_not g selector s.world)) safe,
                named,
              ),
            );
    }

module _ {T : Type 0} {c : Client T} {deleted : T → List ObjectRef}
    (log : DeletionLog c deleted) where
  abbrev NoneDeleted : T → Type 0
  NoneDeleted t = deleted t ≡ []

  -- Before the prune, no deletion has been requested.
  abbrev NonePruned : Run T → Type 0
  NonePruned s = NoneDeleted s.world × (s.pruned ≡ [])

  report-NonePruned :
      (r : Outcome (Object × Bool)) (rest : Exec (Run T) (List Error))
      → Keeps NonePruned rest
      → Keeps NonePruned (report c r rest)
  unfolding report record_outcome
  report-NonePruned (ok done) rest k = record { from = λ s h. k.from (record_outcome c done s) h }
  report-NonePruned (err e) rest k = Leads-before rest _ k λ es. Keeps-done _ _
  report-NonePruned fault rest k = record { from = λ s h. h }

  apply_objects-NonePruned :
      (fm : String) (dry : Bool) (os : List Object) → Keeps NonePruned (apply_objects c fm dry os)
  unfolding apply_objects
  apply_objects-NonePruned fm dry [] = record { from = λ s h. h }
  apply_objects-NonePruned fm dry (o ∷ os) = record {
    from = λ s (h, unnamed).
        let (r, t') = apply_one c fm dry o s.world in
        let still = (apply_one-OfDeleted log (λ ds. ds ≡ []) fm dry o).from s.world h in
        (report-NonePruned r _ (apply_objects-NonePruned fm dry os)).from (record s { world = t' })
          (still, unnamed);
  }

  apply_phase-NonePruned :
      (fm : String) (dry : Bool) (os : List Object) → Keeps NonePruned (apply_phase c fm dry os)
  unfolding apply_phase
  apply_phase-NonePruned fm dry os =
      Leads-before _ _ (apply_objects-NonePruned fm dry os) λ es. Keeps-check _ _

  on_world-NonePruned :
      {A : Type 0} (m : Exec T A) → Keeps NoneDeleted m → Keeps NonePruned (on_world m)
  on_world-NonePruned m k = record { from = λ s (h, unnamed). (k.from s.world h, unnamed) }

  module _
      (lists : (g : GroupVersionKind) (selector : Selector) (t : T)
        → All (λ o. kind_of o ≡ g.group_kind) (c.list_objects g selector t).1.1) where
    -- The applied objects are those of the state.
    abbrev Safe : ApplyOptions → Run T → Type 0
    Safe opts s = AllMayPrune deleted opts s.applied s

    Pruning-Safe :
        (opts : ApplyOptions) (applied : List ObjectRef) (s : Run T)
        → Pruning deleted opts applied s
        → Safe opts s
    Pruning-Safe opts applied s (same, safe) =
        subst (λ a. AllMayPrune deleted opts a s) (sym same) safe

    nothing-Safe : (opts : ApplyOptions) (s : Run T) → NonePruned s → Safe opts s
    nothing-Safe opts s (h, e) = (
      subst (All (MayPrune opts s.applied)) (sym h) tt,
      subst (All (MayPrune opts s.applied)) (sym e) tt,
    )

    prune_selected-Safe :
        (sorted : List GroupKind → List GroupKind) (os : List Object) (previous : List GroupKind)
        (opts : ApplyOptions) (chosen : Option Selector) (s : Run T)
        → NonePruned s
        → Safe opts (prune_stale c sorted os previous (record opts { prune_selector = chosen }) s).1
    unfolding prune_stale prune_gvks
    prune_selected-Safe sorted os previous opts none s e = nothing-Safe opts s e
    prune_selected-Safe sorted os previous opts (some selector) s (h, e) =
        let f = add_requested opts.prune_types os in
        let ks = sorted (difference previous f.seen) in
        let (gs, t') = prune_gvks c sorted os previous opts.prune_types s.world in
        let still = add_mapped-OfDeleted log (λ ds. ds ≡ []) ks f s.world h in
        let kinds =
          Keeps-each (Asked opts.prune_types)
            (prune_kind c opts.dry_run (kept_refs opts s.applied) selector)
            (prune_kind-Pruning log opts s.applied lists selector) gs
            (prune_gvks-Asked c sorted os previous opts.prune_types s.world) in
        Pruning-Safe opts s.applied
          (each (prune_kind c opts.dry_run (kept_refs opts s.applied) selector) gs
            (record s { world = t' })).1
          (kinds.from (record s { world = t' })
            (refl, nothing-Safe opts (record s { world = t' }) (still, e)))

    finalize-Safe :
        (opts : ApplyOptions) (m : Exec T Unit)
        → ((G : List ObjectRef → Type 0) → Keeps (λ t. G (deleted t)) m)
        → Keeps (Safe opts) (on_world m)
    finalize-Safe opts m k = record {
      from = λ s (safe, named). ((k (All (MayPrune opts s.applied))).from s.world safe, named);
    }

-- However an apply ends, the objects whose deletion it has requested, and those that its result
-- names as pruned, are not among those that it applied, are not the inventory and are no protected
-- namespace; a custom resource definition only if that kind is among the types to prune. Only the
-- request to delete an object deletes one, and the server is taken to list objects of the kind
-- asked for.
pub apply_manifest-pruned :
    {T : Type 0} (c : Client T) (deleted : T → List ObjectRef)
    (sorted : List GroupKind → List GroupKind) (texts : KindTexts c.Text) (field_manager : String)
    (os : List Object) (opts : ApplyOptions) (t : T)
    → DeletionLog c deleted
    → ((g : GroupVersionKind) (selector : Selector) (t' : T)
        → All (λ o. kind_of o ≡ g.group_kind) (c.list_objects g selector t').1.1)
    → deleted t ≡ []
    → let s = (apply_manifest c sorted texts field_manager os opts (start t)).1 in
      All (MayPrune opts s.applied) (deleted s.world) × All (MayPrune opts s.applied) s.pruned
unfolding apply_manifest
apply_manifest-pruned c deleted sorted texts fm os opts t log lists fresh =
    let p = split_phases os in
    let before = nothing-Safe log lists opts in
    let phase = apply_phase-NonePruned log fm opts.dry_run in
    let empty = λ (ds : List ObjectRef). ds ≡ [] in
    let prepare = prepare_inventory-OfDeleted log empty texts fm os opts in
    let established = wait_for_crds-OfDeleted log empty (map (λ o. o.name) p.crds) opts.dry_run in
    let run = Leads-after _ _ before (on_world-NonePruned log _ prepare) λ previous.
      Leads-after _ _ before (phase p.crds) λ _.
        Leads-after _ _ before (on_world-NonePruned log _ established) λ _.
          Leads-after _ _ before (phase p.namespaces) λ _.
            Leads-after _ _ before (phase p.rest) λ _.
              Leads-before (prune_stale c sorted os previous opts) _
                (record {
                  from = prune_selected-Safe log lists sorted os previous opts opts.prune_selector;
                })
                λ _.
                  finalize-Safe log lists opts _
                    λ G. finalize_inventory-OfDeleted log G texts fm os opts in
    run.from (start t) (fresh, refl)
