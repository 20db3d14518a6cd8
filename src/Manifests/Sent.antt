-- ===== src/Manifests/Sent.antt =====
-- Applying one object leaves the inventory as it is: pkg/nativeclient/applier.go and migrate.go.
use kubeone.Prelude.{
  String, Bool, true, false, not, Option, none, some, is_empty, str_eq, ◌&&◌, ◌≡◌, refl, sym, subst,
  arith, if◌then◌else◌,
}
use kubeone.Fail.{Error, kube_client, fail_with}
use kubeone.Fail.Outcome.{Outcome, ok}
use kubeone.Fail.Exec.{pure, check, ◌>>◌}
use kubeone.Fail.Exec.Yields.{Yields, Returned, Yields-pure, Yields-check, Yields-bind, Yields-if}
use kubeone.Manifests.Objects.{Object, kind_of, ref_of, same_kind, same_ref}
use kubeone.Manifests.Client.{Client, ObjectKey, retry_on_no_match}
use kubeone.Manifests.Inventory.{inventory_ref, request}
use kubeone.Manifests.Server.{Server, Other, retry_on_no_match-keeps}
use kubeone.Manifests.Applier.{
  scoped, default_namespace, send_apply, apply_again, migrate_patched, migrate_wanted,
  migrate_attempt, migrate_client_side_apply, apply_one,
}

-- An object that is the inventory's config map in no namespace.
abbrev pub Unnamed : ObjectKey → Object → Type 0
Unnamed key o =
    (same_kind (kind_of o) (record { group = ""; kind = "ConfigMap" }) && str_eq o.name key.name)
    ≡ false

Unnamed-Other : (key : ObjectKey) (o : Object) → Unnamed key o → Other key o
unfolding same_ref
Unnamed-Other key o h = ground arith

module _ {T : Type 0} (c : Client T) (key : ObjectKey) (server : Server c key) (text : c.Text) where
  -- A request with a result that is not used.
  pub request-Yields :
      (send : T → Option Error × T) (op : String)
      → ((t : T) → server.Holds text t → server.Holds text (send t).1)
      → Yields (server.Holds text) (λ _. Unit) (request send op)
  request-Yields send op k = record {
    from = λ t h.
        (Yields-check (server.Holds text) (fail_with kube_client (send t).0 op)).from (send t).1
          (k t h);
  }

  -- The object that is sent is the one of the manifest, perhaps in another namespace.
  abbrev SentFor : Object → Object → Type 0
  SentFor o desired = Unnamed key desired × (kind_of desired ≡ kind_of o)

  scoped-SentFor :
      (o : Object) (r : Option Error) (namespaced : Bool)
      → Unnamed key o
      → Returned (SentFor o) (scoped c o r namespaced)
  unfolding scoped
  scoped-SentFor o none true h = (h, refl)
  scoped-SentFor o none false h = (h, refl)
  scoped-SentFor o (some e) namespaced h = tt

  default_namespace-Yields :
      (o : Object)
      → Unnamed key o
      → Yields (server.Holds text) (SentFor o) (default_namespace c true o)
  unfolding default_namespace
  default_namespace-Yields o h = record {
    from = λ t p.
        let asked = retry_on_no_match c (λ s. c.is_namespaced o s.0) (t, false) in
        let kept =
          retry_on_no_match-keeps c (λ s. server.Holds text s.0) (λ s. c.is_namespaced o s.0)
            (λ s p. server.scope text o s.0 p) (t, false) p in
        by_namespace (not (is_empty o.namespace)) t asked.1.0 (scoped c o asked.0 asked.1.1) p kept
          (scoped-SentFor o asked.0 asked.1.1 h);
  }
    where
      by_namespace :
          (b : Bool) (t t' : T) (r : Outcome Object)
          → server.Holds text t
          → server.Holds text t'
          → Returned (SentFor o) r
          → server.Holds text (if◌then◌else◌ {A = Outcome Object × T} b (ok o, t) (r, t')).1
            × Returned (SentFor o) (if◌then◌else◌ {A = Outcome Object × T} b (ok o, t) (r, t')).0
      by_namespace true t t' r p q s = (p, (h, refl))
      by_namespace false t t' r p q s = (q, s)

  -- The state of the retries: the config map is as it was and the object is not it.
  abbrev Kept : {A : Type 0} → (A → Object) → T × A → Type 0
  Kept object s = server.Holds text s.0 × Other key (object s.1)

  -- `if err != nil { return err }` and the value.
  checked_value :
      {A : Type 0} (R : A → Type 0) (e : Option Error) (a : A)
      → R a
      → Yields (server.Holds text) R (check e >> pure a)
  checked_value R e a r =
      Yields-bind (λ _. Unit) (check e) (λ _. pure a) (Yields-check _ e) λ _ _. Yields-pure _ a r

  Other-ref : (o o' : Object) → ref_of o' ≡ ref_of o → Other key o → Other key o'
  Other-ref o o' e h = subst (λ r. same_ref r (inventory_ref key) ≡ false) (sym e) h

  send_apply-Yields :
      (fm : String) (dry : Bool) (o : Object)
      → Other key o
      → Yields (server.Holds text) (Other key) (send_apply c fm dry o)
  unfolding send_apply
  send_apply-Yields fm dry o h = record {
    from = λ t p.
        let send = λ (s : T × Object). c.apply_object fm dry s.1 s.0 in
        let (holds, other) =
          retry_on_no_match-keeps c (Kept (λ x. x)) send
            (λ s (q, k). (
              server.apply_other text fm dry s.1 s.0 k q,
              Other-ref s.1 (send s).1.1 (server.apply_ref fm dry s.1 s.0) k,
            ))
            (t, o) (p, h) in
        let (r, (t', live)) = retry_on_no_match c send (t, o) in
        (checked_value (Other key) (fail_with kube_client r "applying") live other).from t' holds;
  }

  migrate_patched-Kept :
      (migrated : Bool) (r : Option Error) (patched : Object) (t : T)
      → server.Holds text t
      → Other key patched
      → Kept (λ x. x.0) (migrate_patched c migrated r patched t).1
  unfolding migrate_patched
  migrate_patched-Kept migrated none patched t p k = (p, k)
  migrate_patched-Kept migrated (some e) patched t p k = (
    server.get_other text patched t p,
    Other-ref patched (c.get_object patched t).1.1 (server.get_ref patched t) k,
  )

  migrate_wanted-Kept :
      (w : Option Error × Option c.Patch) (s : T × (Object × Bool))
      → Kept (λ x. x.0) s
      → Kept (λ x. x.0) (migrate_wanted c w s).1
  unfolding migrate_wanted
  migrate_wanted-Kept (some e, w) s k = k
  migrate_wanted-Kept (none, none) s k = k
  migrate_wanted-Kept (none, some patch) (t, (live, migrated)) (p, k) =
      let (r, (t', patched)) = c.patch_object live patch t in
      migrate_patched-Kept migrated r patched t' (server.patch_other text live patch t k p)
        (Other-ref live patched (server.patch_ref live patch t) k)

  migrate-Yields :
      (fm : String) (live : Object)
      → Other key live
      → Yields (server.Holds text) (λ _. Unit) (migrate_client_side_apply c fm live)
  unfolding migrate_client_side_apply migrate_attempt
  migrate-Yields fm live h = record {
    from = λ t p.
        let attempt = migrate_attempt c fm in
        let (holds, _) =
          server.retries (Kept (λ x. x.0)) attempt
            (λ (t, (o, m)) k. migrate_wanted-Kept (c.upgrade_patch o fm) (t, (o, m)) k)
            (t, (live, false)) (p, h) in
        let (r, (t', (_, migrated))) =
          c.retry_on_conflict (T × (Object × Bool)) attempt (t, (live, false)) in
        (checked_value (λ _. Unit) (fail_with kube_client r "migrating managed fields") migrated
            tt).from
          t' holds;
  }

  pub apply_one-Yields :
      (fm : String) (dry : Bool) (o : Object)
      → Unnamed key o
      → Yields (server.Holds text) (λ r. kind_of r.0 ≡ kind_of o) (apply_one c fm dry o)
  unfolding apply_one
  apply_one-Yields fm dry o h =
      Yields-bind (SentFor o) _ _ (default_namespace-Yields o h) λ desired (unnamed, same).
        let other = Unnamed-Other key desired unnamed in
        Yields-bind (Other key) _ _ (send_apply-Yields fm dry desired other) λ live other_live.
          Yields-if dry _ _ (λ _. Yields-pure _ _ same)
            λ _.
              Yields-bind (λ _. Unit) _ _ (migrate-Yields fm live other_live)
                λ migrated _.
                  Yields-if (not migrated) _ _ (λ _. Yields-pure _ _ same)
                    λ _.
                      Yields-bind (λ _. Unit) _ _
                        (request-Yields (apply_again c fm dry desired) _
                          (λ t p. server.apply_other text fm dry desired t other p))
                        λ _ _. Yields-pure _ _ same
