-- ===== src/Manifests/Server.antt =====
-- What the inventory relies on: the cluster keeps a config map that no request names.
use kubeone.Prelude.{
  ℕ, zero, suc, String, Bool, true, false, Option, none, some, List, ◌≡◌, ◌⊎◌, sym, subst,
  if◌then◌else◌,
}
use kubeone.Fail.{Error}
use kubeone.Tasks.Task.{Wait, Waited, finished, failed}
use kubeone.Manifests.Objects.{GroupKind, GroupVersionKind, Object, ref_of, same_ref}
use kubeone.Manifests.Client.{Client, ObjectKey, Selector, no_match_check, retry_on_no_match}
use kubeone.Manifests.Inventory.{inventory_ref}

abbrev pub Other : ObjectKey → Object → Type 0
Other key o = same_ref (ref_of o) (inventory_ref key) ≡ false

-- `Holds text t`: in the cluster `t` the config map `key` has the text. A write that fails may have
-- reached the cluster or not. The answer to a request is the object that was named in it.
pub record Server {T : Type 0} (c : Client T) (key : ObjectKey) : Type 1 where
  pub Holds : c.Text → T → Type 0
  pub stores :
      (manager : String) (text : c.Text) (t : T)
      → (c.apply_config_map manager key text t).0 ≡ none
      → Holds text (c.apply_config_map manager key text t).1
  pub may_store :
      (manager : String) (old text : c.Text) (t : T)
      → Holds old t
      → Holds old (c.apply_config_map manager key text t).1
        ⊎ Holds text (c.apply_config_map manager key text t).1
  pub scope :
      (text : c.Text) (o : Object) (t : T) → Holds text t → Holds text (c.is_namespaced o t).1.0
  pub apply_other :
      (text : c.Text) (manager : String) (dry : Bool) (o : Object) (t : T)
      → Other key o
      → Holds text t
      → Holds text (c.apply_object manager dry o t).1.0
  pub get_other :
      (text : c.Text) (o : Object) (t : T) → Holds text t → Holds text (c.get_object o t).1.0
  pub patch_other :
      (text : c.Text) (o : Object) (p : c.Patch) (t : T)
      → Other key o
      → Holds text t
      → Holds text (c.patch_object o p t).1.0
  pub delete_other :
      (text : c.Text) (dry : Bool) (o : Object) (t : T)
      → Other key o
      → Holds text t
      → Holds text (c.delete_object dry o t).1
  pub list :
      (text : c.Text) (g : GroupVersionKind) (selector : Selector) (t : T)
      → Holds text t
      → Holds text (c.list_objects g selector t).1.0
  pub mapping :
      (text : c.Text) (k : GroupKind) (t : T) → Holds text t → Holds text (c.rest_mapping k t).1
  pub wait :
      (text : c.Text) (names : List String) (t : T)
      → Holds text t
      → Holds text (c.wait_established names t).1
  pub apply_ref :
      (manager : String) (dry : Bool) (o : Object) (t : T)
      → ref_of (c.apply_object manager dry o t).1.1 ≡ ref_of o
  pub get_ref : (o : Object) (t : T) → ref_of (c.get_object o t).1.1 ≡ ref_of o
  pub patch_ref : (o : Object) (p : c.Patch) (t : T) → ref_of (c.patch_object o p t).1.1 ≡ ref_of o
  -- A retry only calls the function.
  pub retries :
      {S : Type 0} (P : S → Type 0) (fn : S → Option Error × S)
      → ((s : S) → P s → P (fn s).1)
      → (s : S) → P s
      → P (c.retry_on_conflict S fn s).1

-- A retry of `wait` keeps what each check keeps.
pub exponential_backoff-keeps :
    {S : Type 0} (w : Wait S) (P : S → Type 0) (check : S → (Bool × Option Error) × S)
    → ((s : S) → P s → P (check s).1)
    → (n : ℕ) (s : S) → P s
    → P (w.exponential_backoff n check s).1
exponential_backoff-keeps {S = S} w P check k zero s p =
    subst (λ r. P r.1) (sym (w.no_steps check s)) p
exponential_backoff-keeps {S = S} w P check k (suc n) s p =
    subst (λ r. P r.1) (sym (w.one_check n check s))
      (after (check s) (k s p) (exponential_backoff-keeps w P check k n (check s).1 (k s p)))
  where
    after :
        (r : (Bool × Option Error) × S)
        → P r.1
        → P (w.exponential_backoff n check r.1).1
        → P
            (elim r.0.1 as (λ _. Waited × S) [
              | some e ↦ (failed e, r.1)
              | none ↦ if r.0.0 then (finished, r.1) else w.exponential_backoff n check r.1
            ]).1
    after ((b, some e), s') p q = p
    after ((true, none), s') p q = p
    after ((false, none), s') p q = q

module _ {T : Type 0} (c : Client T) where
  no_match_check-keeps :
      {S : Type 0} (P : S → Type 0) (fn : S → Option Error × S)
      → ((s : S) → P s → P (fn s).1)
      → (s : S × Option Error) → P s.0
      → P (no_match_check c fn s).1.0
  unfolding no_match_check
  no_match_check-keeps P fn k (s, last) p = k s p

  pub retry_on_no_match-keeps :
      {S : Type 0} (P : S → Type 0) (fn : S → Option Error × S)
      → ((s : S) → P s → P (fn s).1)
      → (s : S) → P s
      → P (retry_on_no_match c fn s).1
  unfolding retry_on_no_match
  retry_on_no_match-keeps {S} P fn k s p =
      exponential_backoff-keeps (c.waits (S × Option Error)) (λ r. P r.0) (no_match_check c fn)
        (no_match_check-keeps P fn k) 6 (s, none) p
