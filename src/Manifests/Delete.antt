-- ===== src/Manifests/Delete.antt =====
-- Deleting the objects of a manifest: `Delete` of pkg/nativeclient/applier.go.
use kubeone.Prelude.{
  Bool, true, false, not, Option, none, some, List, [], ◌∷◌, ◌++◌, ◌||◌, if◌then◌else◌,
}
use kubeone.Fail.{Error, kube_client}
use kubeone.Fail.Outcome.{Outcome, ok, err, fault}
use kubeone.Fail.Exec.{Exec, pure, lift, modify, each, ◌>>◌}
use kubeone.Manifests.Objects.{Object, ObjectRef, ref_of, sort_for_delete}
use kubeone.Manifests.Client.{Client, ObjectKey, Selector}
use kubeone.Manifests.Inventory.{request, delete_inventory}
use kubeone.Manifests.Applier.{default_namespace, delete_object}

-- The cluster and the references that are returned.
pub record Deletion (T : Type 0) : Type 0 where
  pub world : T
  pub deleted : List ObjectRef

abbrev on_cluster : {T A : Type 0} → Exec T A → Exec (Deletion T) A
on_cluster m s = let (r, t') = m s.world in (r, record s { world = t' })

abbrev selected : Option Selector → Object → Bool
selected none o = true
selected (some matches) o = matches o.labels

module _ {T : Type 0} (c : Client T) (selector : Option Selector) where
  -- What is done with the answer to a read of the object.
  unfoldable pub delete_found : ObjectRef → Option Error → Object → Exec (Deletion T) Unit
  unfolding delete_object
  delete_found ref (some e) live =
      if c.is_not_found e || c.is_no_match e then pure tt else lift (err (kube_client e "getting"))
  delete_found ref none live = if not (selected selector live) then pure tt else do
    on_cluster (request (delete_object c false live) "deleting")
    modify (λ s. record s { deleted = s.deleted ++ (ref ∷ []) })

  -- The object with its namespace, or the error of looking for it.
  unfoldable pub delete_named : Outcome Object → Exec (Deletion T) Unit
  unfolding delete_found
  delete_named (ok o) s =
      let (r, (t', live)) = c.get_object o s.world in
      delete_found (ref_of o) r live (record s { world = t' })
  delete_named (err e) s = (if c.is_no_match e then ok tt else err e, s)
  delete_named fault s = (fault, s)

  -- One turn of the loop over the objects.
  unfoldable pub delete_one : Object → Exec (Deletion T) Unit
  unfolding default_namespace delete_named
  delete_one o s =
      let (r, t') = default_namespace c false o s.world in delete_named r (record s { world = t' })

  unfoldable pub delete_manifest : List Object → Option ObjectKey → Exec (Deletion T) Unit
  unfolding delete_one sort_for_delete delete_inventory
  delete_manifest os inventory = do
    each delete_one (sort_for_delete os)
    elim inventory [ none ↦ pure tt | some key ↦ on_cluster (delete_inventory c key) ]
