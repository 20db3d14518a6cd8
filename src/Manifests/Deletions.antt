-- ===== src/Manifests/Deletions.antt =====
-- Which requests of an apply delete objects: pkg/nativeclient/applier.go, inventory.go and
-- migrate.go.
use kubeone.Prelude.{
  String, Bool, true, false, not, Option, none, some, List, [], ◌∷◌, ◌++◌, is_empty, ◌≡◌, sym,
  subst, if◌then◌else◌,
}
use kubeone.Fail.{Error, kube_client, fail_with}
use kubeone.Fail.Outcome.{Outcome, ok}
use kubeone.Fail.Exec.{pure, check, ◌>>◌}
use kubeone.Fail.Exec.Keeps.{Keeps, Keeps-check, Keeps-done, Keeps-choice, Leads-before}
use kubeone.Manifests.Objects.{GroupKind, GroupVersionKind, Object, ObjectRef, ref_of}
use kubeone.Manifests.Client.{Client, ObjectKey, Selector, retry_on_no_match}
use kubeone.Manifests.Kinds.{Found, add_mapped}
use kubeone.Manifests.Inventory.{
  KindTexts, ApplyOptions, request, ignore_not_found, read_kinds, write_inventory, read_inventory,
  prepare_inventory, finalize_inventory,
}
use kubeone.Manifests.Server.{retry_on_no_match-keeps}
use kubeone.Manifests.Applier.{
  scoped, default_namespace, send_apply, apply_again, migrate_patched, migrate_wanted,
  migrate_attempt, migrate_client_side_apply, apply_one, wait_for_crds,
}

-- `deleted t` lists the objects whose deletion has been requested of the cluster `t`, in order,
-- whether or not the request succeeded. Only one request adds to it.
pub record DeletionLog {T : Type 0} (c : Client T) (deleted : T → List ObjectRef) : Type 1 where
  pub delete_logged :
      (dry : Bool) (o : Object) (t : T)
      → deleted (c.delete_object dry o t).1 ≡ deleted t ++ (ref_of o ∷ [])
  pub scope_not : (o : Object) (t : T) → deleted (c.is_namespaced o t).1.0 ≡ deleted t
  pub apply_not :
      (manager : String) (dry : Bool) (o : Object) (t : T)
      → deleted (c.apply_object manager dry o t).1.0 ≡ deleted t
  pub get_not : (o : Object) (t : T) → deleted (c.get_object o t).1.0 ≡ deleted t
  pub patch_not :
      (o : Object) (p : c.Patch) (t : T) → deleted (c.patch_object o p t).1.0 ≡ deleted t
  pub list_not :
      (g : GroupVersionKind) (selector : Selector) (t : T)
      → deleted (c.list_objects g selector t).1.0 ≡ deleted t
  pub mapping_not : (k : GroupKind) (t : T) → deleted (c.rest_mapping k t).1 ≡ deleted t
  pub read_not : (key : ObjectKey) (t : T) → deleted (c.get_config_map key t).1.0 ≡ deleted t
  pub write_not :
      (manager : String) (key : ObjectKey) (text : c.Text) (t : T)
      → deleted (c.apply_config_map manager key text t).1 ≡ deleted t
  pub wait_not : (names : List String) (t : T) → deleted (c.wait_established names t).1 ≡ deleted t
  -- A retry only calls the function.
  pub retries :
      {S : Type 0} (P : S → Type 0) (fn : S → Option Error × S)
      → ((s : S) → P s → P (fn s).1)
      → (s : S) → P s
      → P (c.retry_on_conflict S fn s).1

module _ {T : Type 0} {c : Client T} {deleted : T → List ObjectRef} (log : DeletionLog c deleted)
    (G : List ObjectRef → Type 0) where
  -- A property of the objects deleted so far.
  abbrev pub OfDeleted : T → Type 0
  OfDeleted t = G (deleted t)

  unchanged : {t t' : T} → deleted t' ≡ deleted t → G (deleted t) → G (deleted t')
  unchanged e g = subst G (sym e) g

  pub request-OfDeleted :
      (send : T → Option Error × T) (op : String)
      → ((t : T) → deleted (send t).1 ≡ deleted t)
      → Keeps OfDeleted (request send op)
  request-OfDeleted send op same = record {
    from = λ t g.
        (Keeps-check OfDeleted (fail_with kube_client (send t).0 op)).from (send t).1
          (unchanged (same t) g);
  }

  checked_value : {A : Type 0} (e : Option Error) (a : A) → Keeps OfDeleted (check e >> pure a)
  checked_value e a = Leads-before _ _ (Keeps-check _ e) λ _. Keeps-done _ (ok a)

  default_namespace-OfDeleted : (o : Object) → Keeps OfDeleted (default_namespace c true o)
  unfolding default_namespace
  default_namespace-OfDeleted o = record {
    from = λ t g.
        let asked = retry_on_no_match c (λ s. c.is_namespaced o s.0) (t, false) in
        let kept =
          retry_on_no_match-keeps c (λ s. G (deleted s.0)) (λ s. c.is_namespaced o s.0)
            (λ s p. unchanged (log.scope_not o s.0) p) (t, false) g in
        by_namespace (not (is_empty o.namespace)) t asked.1.0 (scoped c o asked.0 asked.1.1) g kept;
  }
    where
      by_namespace :
          (b : Bool) (t t' : T) (r : Outcome Object)
          → OfDeleted t
          → OfDeleted t'
          → OfDeleted (if◌then◌else◌ {A = Outcome Object × T} b (ok o, t) (r, t')).1
      by_namespace true t t' r p q = p
      by_namespace false t t' r p q = q

  send_apply-OfDeleted :
      (fm : String) (dry : Bool) (o : Object) → Keeps OfDeleted (send_apply c fm dry o)
  unfolding send_apply
  send_apply-OfDeleted fm dry o = record {
    from = λ t g.
        let send = λ (s : T × Object). c.apply_object fm dry s.1 s.0 in
        let kept =
          retry_on_no_match-keeps c (λ s. G (deleted s.0)) send
            (λ s p. unchanged (log.apply_not fm dry s.1 s.0) p) (t, o) g in
        let (r, (t', live)) = retry_on_no_match c send (t, o) in
        (checked_value (fail_with kube_client r "applying") live).from t' kept;
  }

  migrate_patched-OfDeleted :
      (migrated : Bool) (r : Option Error) (patched : Object) (t : T)
      → OfDeleted t
      → OfDeleted (migrate_patched c migrated r patched t).1.0
  unfolding migrate_patched
  migrate_patched-OfDeleted migrated none patched t g = g
  migrate_patched-OfDeleted migrated (some e) patched t g = unchanged (log.get_not patched t) g

  migrate_wanted-OfDeleted :
      (w : Option Error × Option c.Patch) (s : T × (Object × Bool))
      → OfDeleted s.0
      → OfDeleted (migrate_wanted c w s).1.0
  unfolding migrate_wanted
  migrate_wanted-OfDeleted (some e, w) s g = g
  migrate_wanted-OfDeleted (none, none) s g = g
  migrate_wanted-OfDeleted (none, some patch) (t, (live, migrated)) g =
      let (r, (t', patched)) = c.patch_object live patch t in
      migrate_patched-OfDeleted migrated r patched t' (unchanged (log.patch_not live patch t) g)

  migrate-OfDeleted :
      (fm : String) (live : Object) → Keeps OfDeleted (migrate_client_side_apply c fm live)
  unfolding migrate_client_side_apply migrate_attempt
  migrate-OfDeleted fm live = record {
    from = λ t g.
        let attempt = migrate_attempt c fm in
        let kept =
          log.retries (λ s. OfDeleted s.0) attempt
            (λ (t, (o, m)) k. migrate_wanted-OfDeleted (c.upgrade_patch o fm) (t, (o, m)) k)
            (t, (live, false)) g in
        let (r, (t', (_, migrated))) =
          c.retry_on_conflict (T × (Object × Bool)) attempt (t, (live, false)) in
        (checked_value (fail_with kube_client r "migrating managed fields") migrated).from t' kept;
  }

  pub apply_one-OfDeleted :
      (fm : String) (dry : Bool) (o : Object) → Keeps OfDeleted (apply_one c fm dry o)
  unfolding apply_one
  apply_one-OfDeleted fm dry o =
      let finish = λ (x : Object × Bool). Keeps-done OfDeleted (ok x) in
      Leads-before _ _ (default_namespace-OfDeleted o) λ desired.
        Leads-before _ _ (send_apply-OfDeleted fm dry desired) λ live.
          Keeps-choice _ dry _ _ (λ _. finish (desired, false))
            λ _. Leads-before _ _ (migrate-OfDeleted fm live) λ migrated.
              Keeps-choice _ (not migrated) _ _ (λ _. finish (desired, false))
                λ _.
                  Leads-before _ _
                    (request-OfDeleted (apply_again c fm dry desired) _
                      (λ t. log.apply_not fm dry desired t))
                    λ _. finish (desired, true)

  pub wait_for_crds-OfDeleted :
      (names : List String) (dry : Bool) → Keeps OfDeleted (wait_for_crds c names dry)
  unfolding wait_for_crds
  wait_for_crds-OfDeleted [] dry = Keeps-done _ (ok tt)
  wait_for_crds-OfDeleted (n ∷ ns) true = Keeps-done _ (ok tt)
  wait_for_crds-OfDeleted (n ∷ ns) false = request-OfDeleted _ _ (log.wait_not (n ∷ ns))

  pub add_mapped-OfDeleted :
      (ks : List GroupKind) (f : Found) (t : T) → OfDeleted t → OfDeleted (add_mapped c f ks t).1
  unfolding add_mapped
  add_mapped-OfDeleted [] f t g = g
  add_mapped-OfDeleted (k ∷ ks) f t g =
      add_mapped-OfDeleted ks _ (c.rest_mapping k t).1 (unchanged (log.mapping_not k t) g)

  module _ (texts : KindTexts c.Text) (fm : String) where
    write-OfDeleted :
        (key : ObjectKey) (ks : List GroupKind)
        → Keeps OfDeleted (write_inventory c texts fm key ks)
    unfolding write_inventory
    write-OfDeleted key ks = request-OfDeleted _ _ (log.write_not fm key _)

    answered :
        (r : Option Error) (read : List GroupKind) (t : T)
        → OfDeleted t
        → OfDeleted
            (elim r as (λ _. Outcome (List GroupKind) × T) [
              | none ↦ (ok read, t)
              | some e ↦
                  (check (fail_with kube_client (ignore_not_found c (some e)) "reading inventory")
                      >> pure [])
                    t
            ]).1
    answered none read t g = g
    answered (some e) read t g = (checked_value _ []).from t g

    read-OfDeleted : (key : ObjectKey) → Keeps OfDeleted (read_inventory c texts fm key)
    unfolding read_inventory
    read-OfDeleted key = record {
      from = λ t g.
          let (r, (t', text)) = c.get_config_map key t in
          answered r (read_kinds c texts fm (texts.lines text)) t'
            (unchanged (log.read_not key t) g);
    }

    pub prepare_inventory-OfDeleted :
        (os : List Object) (opts : ApplyOptions)
        → Keeps OfDeleted (prepare_inventory c texts fm os opts)
    unfolding prepare_inventory
    prepare_inventory-OfDeleted os opts = for_key opts.inventory
      where
        for_key :
            (inventory : Option ObjectKey)
            → Keeps OfDeleted
                (prepare_inventory c texts fm os (record opts { inventory = inventory }))
        for_key none = Keeps-done _ (ok [])
        for_key (some key) = Leads-before _ _ (read-OfDeleted key) λ previous.
            Keeps-choice _ opts.dry_run _ _ (λ _. Keeps-done _ (ok previous))
              λ _. Leads-before _ _ (write-OfDeleted key _) λ _. Keeps-done _ (ok previous)

    pub finalize_inventory-OfDeleted :
        (os : List Object) (opts : ApplyOptions)
        → Keeps OfDeleted (finalize_inventory c texts fm os opts)
    unfolding finalize_inventory
    finalize_inventory-OfDeleted os opts = for_key opts.inventory opts.prune_selector
      where
        for_key :
            (inventory : Option ObjectKey) (selector : Option Selector)
            → Keeps OfDeleted (
                finalize_inventory c texts fm os
                  (record opts { inventory = inventory; prune_selector = selector }))
        for_key none selector = Keeps-done _ (ok tt)
        for_key (some key) none = Keeps-done _ (ok tt)
        for_key (some key) (some selector) =
            Keeps-choice _ opts.dry_run _ _ (λ _. Keeps-done _ (ok tt)) λ _. write-OfDeleted key _
