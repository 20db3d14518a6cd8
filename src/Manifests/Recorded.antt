-- ===== src/Manifests/Recorded.antt =====
-- The inventory covers what is applied, however an apply ends: pkg/nativeclient/inventory.go and
-- applier.go.
use kubeone.Prelude.{
  String, true, false, Option, none, some, List, [], map, All, All-map, All-both, ◌≡◌, ◌⊎◌, inl,
  inr, refl,
}
use kubeone.Fail.{Error, kube_client, fail_with}
use kubeone.Fail.Outcome.{Outcome, ok, err, fault}
use kubeone.Fail.Exec.{Exec, pure, check, resume, ◌>>=◌, ◌>>◌}
use kubeone.Fail.Exec.Keeps.{Leads, Keeps-check, Leads-after}
use kubeone.Manifests.Objects.{GroupKind, GroupVersionKind, Object, has_kind, split_phases}
use kubeone.Manifests.Client.{Client, ObjectKey, Selector}
use kubeone.Manifests.Kinds.{union, group_kinds}
use kubeone.Manifests.KindSets.{has_kind-union, has_kind-group_kinds, split_phases-All}
use kubeone.Manifests.Inventory.{
  KindTexts, ApplyOptions, kinds_text, write_inventory, read_inventory, prepare_inventory,
  finalize_inventory,
}
use kubeone.Manifests.Applier.{
  Run, start, on_world, apply_phase, wait_for_crds, prune_stale, apply_manifest,
}
use kubeone.Manifests.Server.{Server}
use kubeone.Manifests.Sent.{Unnamed}
use kubeone.Manifests.Kept.{
  Covered, Listed, apply_phase-Covered, wait_for_crds-Covered, prune_stale-Covered,
}

-- An apply that keeps an inventory and is no dry run.
abbrev pub recording : Option Selector → List GroupVersionKind → ObjectKey → ApplyOptions
recording selector prune_types key = record {
  prune_selector = selector;
  prune_types = prune_types;
  inventory = some key;
  dry_run = false;
}

-- The inventory lists kinds among which are those of all applied objects.
abbrev pub Recorded :
    {T : Type 0} {c : Client T} {key : ObjectKey}
    → Server c key
    → KindTexts c.Text
    → String
    → Run T
    → Type 0
Recorded {c = c} server texts fm s =
    (ks : List GroupKind) × server.Holds (kinds_text c texts fm ks) s.world
    × All (λ r. has_kind r.group_kind ks ≡ true) s.applied

module _ {T : Type 0} (c : Client T) (key : ObjectKey) (server : Server c key)
    (texts : KindTexts c.Text) (fm : String) (os : List Object) where
  -- The first write stores the kinds of before and those of the manifest.
  abbrev Prepared : Outcome (List GroupKind) × T → Type 0
  Prepared (ok previous, t) =
      server.Holds (kinds_text c texts fm (union previous (group_kinds os))) t
  Prepared (err e, t) = Unit
  Prepared (fault, t) = Unit

  written :
      (ks : List GroupKind) (r : Option Error) (t : T)
      → (r ≡ none → server.Holds (kinds_text c texts fm (union ks (group_kinds os))) t)
      → Prepared (resume (check (fail_with kube_client r "writing inventory") t) (λ _. pure ks))
  written ks none t h = h refl
  written ks (some e) t h = tt

  after_read :
      (x : Outcome (List GroupKind) × T)
      → Prepared (
          resume x (λ previous.
            write_inventory c texts fm key (union previous (group_kinds os)) >> pure previous))
  unfolding write_inventory ◌>>=◌
  after_read (ok previous, t) =
      let text = kinds_text c texts fm (union previous (group_kinds os)) in
      let (r, t') = c.apply_config_map fm key text t in
      written previous r t' (server.stores fm text t)
  after_read (err e, t) = tt
  after_read (fault, t) = tt

  prepare_inventory-Prepared :
      (selector : Option Selector) (prune_types : List GroupVersionKind) (t : T)
      → Prepared (prepare_inventory c texts fm os (recording selector prune_types key) t)
  unfolding prepare_inventory ◌>>=◌
  prepare_inventory-Prepared selector prune_types t = after_read (read_inventory c texts fm key t)

  -- Afterwards the config map stays as it is until the last write, and that one lists the kinds of
  -- the manifest.
  module _ (text_kinds : List GroupKind)
      (all_kinds : (k : GroupKind)
        → has_kind k (group_kinds os) ≡ true
        → has_kind k text_kinds ≡ true) where
    abbrev kept_text : c.Text
    kept_text = kinds_text c texts fm text_kinds

    Covered-Recorded :
        (s : Run T) → Covered server kept_text (group_kinds os) s → Recorded server texts fm s
    Covered-Recorded s (h, a) =
        (text_kinds, h, All-map (λ r e. all_kinds r.group_kind e) s.applied a)

    finalized :
        (selector : Option Selector) (prune_types : List GroupVersionKind) (s : Run T)
        → Covered server kept_text (group_kinds os) s
        → Recorded server texts fm
            (on_world (finalize_inventory c texts fm os (recording selector prune_types key)) s).1
    unfolding finalize_inventory write_inventory
    finalized none prune_types s covered = Covered-Recorded s covered
    finalized (some selector) prune_types s (h, a) =
        let text = kinds_text c texts fm (group_kinds os) in
        let (r, t') = c.apply_config_map fm key text s.world in
        (Keeps-check (λ t. Recorded server texts fm (record s { world = t }))
            (fail_with kube_client r "writing inventory")).from
          t'
          (elim (server.may_store fm kept_text text s.world h) [
            | inl old ↦ Covered-Recorded (record s { world = t' }) (old, a)
            | inr new ↦ (group_kinds os, new, a)
          ])

    rest_of_apply :
        (sorted : List GroupKind → List GroupKind) (previous : List GroupKind)
        (selector : Option Selector) (prune_types : List GroupVersionKind)
        → All (Unnamed key) os
        → let p = split_phases os in
          let opts = recording selector prune_types key in
          Leads (Covered server kept_text (group_kinds os)) (Recorded server texts fm) (
            apply_phase c fm false p.crds
            >> (on_world (wait_for_crds c (map (λ o. o.name) p.crds) false)
                >> (apply_phase c fm false p.namespaces
                    >> (apply_phase c fm false p.rest
                        >> (prune_stale c sorted os previous opts
                            >> on_world (finalize_inventory c texts fm os opts))))))
    rest_of_apply sorted previous selector prune_types unnamed =
        let opts = recording selector prune_types key in
        let listed = All-both (λ o u k. (u, k)) os unnamed (has_kind-group_kinds os) in
        let (crds, namespaces, rest) = split_phases-All (Listed key (group_kinds os)) os listed in
        let kinds = group_kinds os in
        Leads-after _ _ Covered-Recorded
          (apply_phase-Covered c key server kept_text kinds fm false _ crds)
          λ _.
            Leads-after _ _ Covered-Recorded
              (wait_for_crds-Covered c key server kept_text kinds _ false)
              λ _.
                Leads-after _ _ Covered-Recorded
                  (apply_phase-Covered c key server kept_text kinds fm false _ namespaces)
                  λ _.
                    Leads-after _ _ Covered-Recorded
                      (apply_phase-Covered c key server kept_text kinds fm false _ rest)
                      λ _.
                        Leads-after _ _ Covered-Recorded
                          (prune_stale-Covered c key server kept_text kinds sorted os previous
                            selector opts refl)
                          λ _. record { from = λ s h. finalized selector prune_types s h }

  after_prepare :
      (sorted : List GroupKind → List GroupKind) (selector : Option Selector)
      (prune_types : List GroupVersionKind) (t : T) (x : Outcome (List GroupKind) × T)
      (next : List GroupKind → Exec (Run T) Unit)
      → All (Unnamed key) os
      → Prepared x
      → ((previous : List GroupKind)
          → Leads
              (Covered server
                (kinds_text c texts fm (union previous (group_kinds os)))
                (group_kinds os))
              (Recorded server texts fm)
              (next previous))
      → let s = (resume (x.0, record (start t) { world = x.1 }) next).1 in
        (s.applied ≡ []) ⊎ Recorded server texts fm s
  after_prepare sorted selector prune_types t (ok previous, t') next unnamed h lead =
      inr ((lead previous).from (record (start t) { world = t' }) (h, tt))
  after_prepare sorted selector prune_types t (err e, t') next unnamed h lead = inl refl
  after_prepare sorted selector prune_types t (fault, t') next unnamed h lead = inl refl

-- However an apply with an inventory ends, also with an error at any request, either nothing has
-- been applied or the inventory lists the kinds of all objects that were applied, so that a later
-- apply looks for them. The manifest has no config map of the inventory's name, and the server keeps
-- a config map that no request names.
pub apply_manifest-Recorded :
    {T : Type 0} (c : Client T) (key : ObjectKey) (server : Server c key) (texts : KindTexts c.Text)
    (fm : String) (os : List Object) (sorted : List GroupKind → List GroupKind)
    (selector : Option Selector) (prune_types : List GroupVersionKind) (t : T)
    → All (Unnamed key) os
    → let s =
        (apply_manifest c sorted texts fm os (recording selector prune_types key) (start t)).1 in
      (s.applied ≡ []) ⊎ Recorded server texts fm s
unfolding apply_manifest ◌>>=◌
apply_manifest-Recorded c key server texts fm os sorted selector prune_types t unnamed =
    let opts = recording selector prune_types key in
    after_prepare c key server texts fm os sorted selector prune_types t
      (prepare_inventory c texts fm os opts t) _ unnamed
      (prepare_inventory-Prepared c key server texts fm os selector prune_types t)
      λ previous.
        rest_of_apply c key server texts fm os (union previous (group_kinds os))
          (λ k e. has_kind-union k previous (group_kinds os) e) sorted previous selector prune_types
          unnamed
