-- ===== src/Tasks/Task.antt =====
-- One task and a list of tasks: pkg/tasks/task.go, and `Tasks` of pkg/tasks/tasks.go.
use kubeone.Prelude.{
  ℕ, suc, String, Bool, true, false, not, Option, none, some, List, [], ◌∷◌, ◌==◌, ◌≡◌, is_empty,
  if◌then◌else◌,
}
use kubeone.Fail.{Error, runtime}

-- `A` names the task's function; what it does to the state `S` is given by `perform` below.
pub record Task (A S : Type 0) : Type 0 where
  pub fn : A
  pub predicate : Option (S → Bool)
  pub description : String
  pub operation : String
  pub retries : ℕ

-- What `wait.ExponentialBackoff` returns: nil, the error of the condition, or its own error that
-- `wait.Interrupted` recognises.
pub data Waited : Type 0 where
  finished : Waited
  failed : Error → Waited
  interrupted : Waited

-- The function of k8s.io/apimachinery/pkg/util/wait over a state `T` that the condition changes.
-- As documented, it checks the condition until it holds or fails, and at most `steps` times; the
-- sleeps between the checks do not show here.
pub record Wait (T : Type 0) : Type 0 where
  pub exponential_backoff : ℕ → (T → (Bool × Option Error) × T) → T → Waited × T
  pub no_steps :
      (c : T → (Bool × Option Error) × T) (t : T) → exponential_backoff 0 c t ≡ (interrupted, t)
  pub one_check :
      (n : ℕ) (c : T → (Bool × Option Error) × T) (t : T)
      → exponential_backoff (suc n) c t ≡ elim (c t).0.1 [
        | some e ↦ (failed e, (c t).1)
        | none ↦ if (c t).0.0 then (finished, (c t).1) else exponential_backoff n c (c t).1
      ]

abbrev pub default_retries : ℕ → ℕ
default_retries n = if n == 0 then 10 else n

module _ {A S : Type 0} (perform : A → S → Option Error × S) where
  -- The closure of `Run`; `lastError` is the second part of its state.
  unfoldable pub attempt : A → S × Option Error → (Bool × Option Error) × (S × Option Error)
  attempt fn (s, last_error) =
      let (r, s') = perform fn s in
      elim r [ none ↦ ((true, none), (s', none)) | some e ↦ ((false, none), (s', some e)) ]

  unfoldable pub run_task : Wait (S × Option Error) → Task A S → S → Option Error × S
  run_task wait t s =
      let (w, (s', last_error)) =
        wait.exponential_backoff (default_retries t.retries) (attempt t.fn) (s, none) in
      (elim w [ finished ↦ none | failed e ↦ some e | interrupted ↦ last_error ], s')

abbrev pub holds : {S : Type 0} → Option (S → Bool) → S → Bool
holds none s = true
holds (some p) s = p s

module _ {A S : Type 0} (perform : A → S → Option Error × S) (wait : Wait (S × Option Error)) where
  unfoldable pub run_tasks : List (Task A S) → S → Option Error × S
  run_tasks [] s = (none, s)
  run_tasks (t ∷ ts) s = elim (holds t.predicate s) [
    | false ↦ run_tasks ts s
    | true ↦
        let (r, s') = run_task perform wait t s in
        elim r [ none ↦ run_tasks ts s' | some e ↦ (some (runtime e t.operation), s') ]
  ]

unfoldable pub descriptions : {A S : Type 0} → List (Task A S) → S → List String
descriptions [] s = []
descriptions (t ∷ ts) s =
    let rest = descriptions ts s in
    if not (holds t.predicate s)
    then rest
    else if not (is_empty t.description)
    then t.description ∷ rest
    else rest
