-- ===== src/Manifests/Client.antt =====
-- What pkg/nativeclient uses of sigs.k8s.io/controller-runtime, k8s.io/client-go and
-- k8s.io/apimachinery, over a state `T` of the cluster, and its retries.
use kubeone.Prelude.{String, Bool, true, false, Option, none, some, List, if◌then◌else◌}
use kubeone.Fail.{Error}
use kubeone.Tasks.Task.{Wait, finished, failed, interrupted}
use kubeone.Manifests.Objects.{GroupKind, GroupVersionKind, Object}

-- `labels.Selector`, by the labels that match.
abbrev pub Selector : Type 0
Selector = List (String × String) → Bool

pub record ObjectKey : Type 0 where
  pub namespace : String
  pub name : String

-- Requests that take a pointer to an object decode the answer into it: the object comes back.
-- `list_objects` takes the kind of the items, which the client derives from the kind of the list.
-- `Text` is what a config map holds under a key.
pub record Client (T : Type 0) : Type 1 where
  pub Text : Type 0
  pub Patch : Type 0
  pub is_no_match : Error → Bool
  pub is_not_found : Error → Bool
  pub is_namespaced : Object → T → Option Error × (T × Bool)
  pub apply_object : String → Bool → Object → T → Option Error × (T × Object)
  pub get_object : Object → T → Option Error × (T × Object)
  pub patch_object : Object → Patch → T → Option Error × (T × Object)
  pub delete_object : Bool → Object → T → Option Error × T
  pub list_objects : GroupVersionKind → Selector → T → Option Error × (T × List Object)
  pub rest_mapping : GroupKind → T → Option GroupVersionKind × T
  pub get_config_map : ObjectKey → T → Option Error × (T × Text)
  pub apply_config_map : String → ObjectKey → Text → T → Option Error × T
  pub delete_config_map : ObjectKey → T → Option Error × T
  -- `csaupgrade.UpgradeManagedFieldsPatch`: no patch if nothing is to be handed over.
  pub upgrade_patch : Object → String → Option Error × Option Patch
  -- The wait for `clientutil.CRDsReadyCondition`.
  pub wait_established : List String → T → Option Error × T
  -- `wait.ExponentialBackoffWithContext` and `retry.RetryOnConflict`.
  pub waits : (S : Type 0) → Wait S
  pub retry_on_conflict : (S : Type 0) → (S → Option Error × S) → S → Option Error × S
  -- `errors.Join` of errors that are not nil.
  pub join_errors : List Error → Error

module _ {T : Type 0} (c : Client T) where
  -- Whether the retries end, the error that they end with, and `lastErr`.
  unfoldable pub no_match_verdict : Option Error → (Bool × Option Error) × Option Error
  no_match_verdict none = ((true, none), none)
  no_match_verdict (some e) =
      if c.is_no_match e then ((false, none), some e) else ((true, some e), some e)

  -- The condition of `retryOnNoMatch`; `lastErr` is the second part of its state.
  unfoldable pub no_match_check :
      {S : Type 0}
      → (S → Option Error × S)
      → S × Option Error
      → (Bool × Option Error) × (S × Option Error)
  unfolding no_match_verdict
  no_match_check fn (s, _) =
      let (r, s') = fn s in let (verdict, last) = no_match_verdict r in (verdict, (s', last))

  unfoldable pub retry_on_no_match : {S : Type 0} → (S → Option Error × S) → S → Option Error × S
  unfolding no_match_check
  retry_on_no_match {S} fn s =
      let (w, (s', last)) =
        (c.waits (S × Option Error)).exponential_backoff 6 (no_match_check fn) (s, none) in
      (elim w [ finished ↦ none | failed e ↦ some e | interrupted ↦ last ], s')
