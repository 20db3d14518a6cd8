-- ===== src/Manifests/Kept.antt =====
-- What an apply does after its first write leaves the inventory as it is:
-- pkg/nativeclient/applier.go.
use kubeone.Prelude.{
  String, Bool, true, false, Option, none, some, List, [], ◌∷◌, ◌||◌, All, All-append, ◌≡◌, sym,
  subst, arith,
}
use kubeone.Fail.{Error}
use kubeone.Fail.Outcome.{Outcome, ok, err, fault}
use kubeone.Fail.Exec.{Exec}
use kubeone.Fail.Exec.Keeps.{Keeps, Keeps-check, Keeps-done, Keeps-choice, Keeps-each, Leads-before}
use kubeone.Fail.Exec.Yields.{Returned, Returned-map}
use kubeone.Manifests.Objects.{
  GroupKind, GroupVersionKind, Object, ObjectRef, kind_of, ref_of, has_kind, has_ref,
}
use kubeone.Manifests.Client.{Client, ObjectKey, Selector}
use kubeone.Manifests.Kinds.{Found, add_mapped, add_requested, difference, prune_gvks}
use kubeone.Manifests.Inventory.{ApplyOptions, request}
use kubeone.Manifests.Applier.{
  Run, on_world, report, record_outcome, apply_one, apply_objects, apply_phase, wait_for_crds,
  delete_object, prune_item, prune_listed, prune_kind, kept_refs, prune_stale,
}
use kubeone.Manifests.Pruned.{is_inventory, is_protected, not_kept}
use kubeone.Manifests.Server.{Server}
use kubeone.Manifests.Sent.{Unnamed, apply_one-Yields, request-Yields}

-- The config map has the text, and every applied object is of one of the kinds.
abbrev pub Covered :
    {T : Type 0} {c : Client T} {key : ObjectKey}
    → Server c key
    → c.Text
    → List GroupKind
    → Run T
    → Type 0
Covered server text kinds s =
    server.Holds text s.world × All (λ r. has_kind r.group_kind kinds ≡ true) s.applied

-- An object of the manifest: it is not the inventory, and its kind is one of the kinds.
abbrev pub Listed : ObjectKey → List GroupKind → Object → Type 0
Listed key kinds o = Unnamed key o × (has_kind (kind_of o) kinds ≡ true)

abbrev Anything : {A : Type 0} → A → Type 0
Anything _ = Unit

everything : {A : Type 0} (xs : List A) → All Anything xs
everything [] = tt
everything (x ∷ xs) = (tt, everything xs)

module _ {T : Type 0} (c : Client T) (key : ObjectKey) (server : Server c key) (text : c.Text)
    (kinds : List GroupKind) where
  pub on_world-Covered :
      {A : Type 0} (m : Exec T A)
      → ((t : T) → server.Holds text t → server.Holds text (m t).1)
      → Keeps (Covered server text kinds) (on_world m)
  on_world-Covered m k = record { from = λ s (h, a). (k s.world h, a) }

  request-Covered :
      (send : T → Option Error × T) (op : String)
      → ((t : T) → server.Holds text t → server.Holds text (send t).1)
      → Keeps (Covered server text kinds) (on_world (request send op))
  request-Covered send op k =
      on_world-Covered (request send op)
        λ t h. ((request-Yields c key server text send op k).from t h).0

  report-Covered :
      (r : Outcome (Object × Bool)) (rest : Exec (Run T) (List Error))
      → Returned (λ done. has_kind (kind_of done.0) kinds ≡ true) r
      → Keeps (Covered server text kinds) rest
      → Keeps (Covered server text kinds) (report c r rest)
  unfolding report record_outcome
  report-Covered (ok (o, migrated)) rest e k = record {
    from = λ s (h, a). k.from (record_outcome c (o, migrated) s) (
      h,
      All-append (λ r. has_kind r.group_kind kinds ≡ true) s.applied (ref_of o ∷ []) a (e, tt),
    );
  }
  report-Covered (err x) rest e k = Leads-before rest _ k λ es. Keeps-done _ _
  report-Covered fault rest e k = record { from = λ s h. h }

  apply_objects-Covered :
      (fm : String) (dry : Bool) (os : List Object)
      → All (Listed key kinds) os
      → Keeps (Covered server text kinds) (apply_objects c fm dry os)
  unfolding apply_objects
  apply_objects-Covered fm dry [] a = record { from = λ s h. h }
  apply_objects-Covered fm dry (o ∷ os) ((unnamed, e), a) = record {
    from = λ s (h, l).
        let (holds, done) = (apply_one-Yields c key server text fm dry o unnamed).from s.world h in
        let (r, t') = apply_one c fm dry o s.world in
        let listed =
          Returned-map (λ x same. subst (λ k. has_kind k kinds ≡ true) (sym same) e) r done in
        (report-Covered r _ listed (apply_objects-Covered fm dry os a)).from
          (record s { world = t' }) (holds, l);
  }

  pub apply_phase-Covered :
      (fm : String) (dry : Bool) (os : List Object)
      → All (Listed key kinds) os
      → Keeps (Covered server text kinds) (apply_phase c fm dry os)
  unfolding apply_phase
  apply_phase-Covered fm dry os a =
      Leads-before _ _ (apply_objects-Covered fm dry os a) λ es. Keeps-check _ _

  pub wait_for_crds-Covered :
      (names : List String) (dry : Bool)
      → Keeps (Covered server text kinds) (on_world (wait_for_crds c names dry))
  unfolding wait_for_crds
  wait_for_crds-Covered [] dry = record { from = λ s h. h }
  wait_for_crds-Covered (n ∷ ns) true = record { from = λ s h. h }
  wait_for_crds-Covered (n ∷ ns) false = request-Covered _ _ (server.wait text (n ∷ ns))

  prune_item-Covered :
      (opts : ApplyOptions) (applied : List ObjectRef) (o : Object)
      → opts.inventory ≡ some key
      → Keeps (Covered server text kinds) (prune_item c opts.dry_run (kept_refs opts applied) o)
  unfolding prune_item delete_object
  prune_item-Covered opts applied o inventory =
      Keeps-choice _ (has_ref (ref_of o) (kept_refs opts applied) || o.deleting) _ _
        (λ _. Keeps-done _ (ok tt))
        λ e.
          Keeps-choice _ (is_protected (ref_of o)) _ _ (λ _. Keeps-done _ (ok tt))
            λ _.
              let (_, other) = not_kept opts applied (ref_of o) (ground (arith, e)) in
              let not_inventory = subst (λ i. is_inventory i (ref_of o) ≡ false) inventory other in
              Leads-before _ _
                (request-Covered (delete_object c opts.dry_run o) "pruning"
                  (λ t h. server.delete_other text opts.dry_run o t not_inventory h))
                λ _. record { from = λ s h. h }

  module _ (opts : ApplyOptions) (applied : List ObjectRef)
      (inventory : opts.inventory ≡ some key) where
    prune_listed-Covered :
        (r : Option Error) (items : List Object)
        → Keeps
            (Covered server text kinds)
            (prune_listed c opts.dry_run (kept_refs opts applied) r items)
    unfolding prune_listed
    prune_listed-Covered none items =
        Keeps-each Anything (prune_item c opts.dry_run (kept_refs opts applied))
          (λ o _. prune_item-Covered opts applied o inventory) items (everything items)
    prune_listed-Covered (some e) items =
        Keeps-choice _ (c.is_no_match e) _ _ (λ _. Keeps-done _ (ok tt)) λ _. Keeps-done _ _

    prune_kind-Covered :
        (selector : Selector) (g : GroupVersionKind)
        → Keeps
            (Covered server text kinds)
            (prune_kind c opts.dry_run (kept_refs opts applied) selector g)
    unfolding prune_kind
    prune_kind-Covered selector g = record {
      from = λ s (h, a).
          let (r, (t', items)) = c.list_objects g selector s.world in
          (prune_listed-Covered r items).from (record s { world = t' })
            (server.list text g selector s.world h, a);
    }

  add_mapped-Holds :
      (ks : List GroupKind) (f : Found) (t : T)
      → server.Holds text t
      → server.Holds text (add_mapped c f ks t).1
  unfolding add_mapped
  add_mapped-Holds [] f t h = h
  add_mapped-Holds (k ∷ ks) f t h =
      add_mapped-Holds ks _ (c.rest_mapping k t).1 (server.mapping text k t h)

  pub prune_stale-Covered :
      (sorted : List GroupKind → List GroupKind) (os : List Object) (previous : List GroupKind)
      (chosen : Option Selector) (opts : ApplyOptions)
      → opts.inventory ≡ some key
      → Keeps
          (Covered server text kinds)
          (prune_stale c sorted os previous (record opts { prune_selector = chosen }))
  unfolding prune_stale prune_gvks
  prune_stale-Covered sorted os previous none opts inventory = record { from = λ s h. h }
  prune_stale-Covered sorted os previous (some selector) opts inventory = record {
    from = λ s (h, a).
        let f = add_requested opts.prune_types os in
        let ks = sorted (difference previous f.seen) in
        let (g, t') = add_mapped c f ks s.world in
        (Keeps-each Anything (prune_kind c opts.dry_run (kept_refs opts s.applied) selector)
            (λ g _. prune_kind-Covered opts s.applied inventory selector g) g.found
            (everything g.found)).from
          (record s { world = t' }) (add_mapped-Holds ks f s.world h, a);
  }
