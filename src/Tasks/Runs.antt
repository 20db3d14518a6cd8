-- ===== src/Tasks/Runs.antt =====
-- What running tasks does: pkg/tasks/task.go and pkg/tasks/tasks.go.
use kubeone.Prelude.{
  ℕ, zero, suc, ◌<◌, String, Option, none, some, List, [], ◌∷◌, ◌++◌, ◌≡◌, refl, ap, subst, ◌∙◌,
  ◌≢◌, ◌⊎◌, inl, inr, arith, Option-cases, Bool-cases,
}
use kubeone.Fail.{Error, runtime, exit_code}
use kubeone.Tasks.Task.{
  Task, Waited, finished, failed, interrupted, Wait, attempt, default_retries, run_task, holds,
  run_tasks,
}

pub default_retries_pos : (n : ℕ) → 0 < default_retries n
default_retries_pos n = ground arith

module _ {A S : Type 0} (perform : A → S → Option Error × S) where
  -- At most `n` attempts, the first that succeeds being the last one.
  unfoldable pub attempts : ℕ → A → Option Error → S → Option Error × S
  attempts zero fn last s = (last, s)
  attempts (suc n) fn last s =
      let (r, s') = perform fn s in
      elim r [ none ↦ (none, s') | some e ↦ attempts n fn (some e) s' ]

  abbrev result : Waited × (S × Option Error) → Option Error × S
  result (w, (s, last)) = (elim w [ finished ↦ none | failed e ↦ some e | interrupted ↦ last ], s)

  backoff-attempts :
      (wait : Wait (S × Option Error)) (n : ℕ) (fn : A) (s : S) (last : Option Error)
      → result (wait.exponential_backoff n (attempt perform fn) (s, last)) ≡ attempts n fn last s
  unfolding attempts attempt
  backoff-attempts wait zero fn s last = ap result (wait.no_steps (attempt perform fn) (s, last))
  backoff-attempts wait (suc n) fn s last = elim (Option-cases (perform fn s).0) [
    | inl done ↦ ap result (wait.one_check n (attempt perform fn) (s, last)) ∙ ground arith
    | inr (e, broken) ↦
        ap result (wait.one_check n (attempt perform fn) (s, last))
        ∙ ground (arith, backoff-attempts wait n fn (perform fn s).1 (some e))
  ]

  -- A task makes its function at most as many times as it has retries, 10 if it names none: it ends
  -- with success at the first attempt that succeeds, and otherwise with the error of the last
  -- attempt, each attempt starting from the state that the one before it left.
  pub run_task-attempts :
      (wait : Wait (S × Option Error)) (t : Task A S) (s : S)
      → run_task perform wait t s ≡ attempts (default_retries t.retries) t.fn none s
  unfolding run_task
  run_task-attempts wait t s = backoff-attempts wait (default_retries t.retries) t.fn s none

  -- The state in which the k-th attempt starts, if all before it fail.
  pub after : ℕ → A → S → S
  after zero fn s = s
  after (suc k) fn s = after k fn (perform fn s).1

  -- A run of attempts ends well exactly by an attempt that succeeds.
  attempts_success :
      (n : ℕ) (fn : A) (e : Error) (s : S)
      → (attempts n fn (some e) s).0 ≡ none
      → (k : ℕ) × (k < n)
        × ((perform fn (after k fn s)).0 ≡ none)
        × ((attempts n fn (some e) s).1 ≡ (perform fn (after k fn s)).1)
  unfolding attempts after
  attempts_success zero fn e s h = cc
  attempts_success (suc n) fn e s h = elim (Option-cases (perform fn s).0) [
    | inl done ↦ (0, omega arith, done, ground arith)
    | inr (e', broken) ↦
        let (k, lt, done, same) = attempts_success n fn e' (perform fn s).1 (ground arith) in
        (suc k, omega arith, done, ground arith)
  ]

  -- A task that reports no error has made an attempt that succeeded, within its number of retries,
  -- and leaves the state of that attempt: it never gives up silently.
  run_task_success :
      (wait : Wait (S × Option Error)) (t : Task A S) (s : S)
      → (run_task perform wait t s).0 ≡ none
      → (k : ℕ) × (k < default_retries t.retries)
        × ((perform t.fn (after k t.fn s)).0 ≡ none)
        × ((run_task perform wait t s).1 ≡ (perform t.fn (after k t.fn s)).1)
  unfolding attempts after
  run_task_success wait t s h = rw (run_task-attempts wait t s) (
      first (default_retries t.retries) (default_retries_pos t.retries)
        (rw (run_task-attempts wait t s) at h))
    where
      first :
          (n : ℕ)
          → 0 < n
          → (attempts n t.fn none s).0 ≡ none
          → (k : ℕ) × (k < n)
            × ((perform t.fn (after k t.fn s)).0 ≡ none)
            × ((attempts n t.fn none s).1 ≡ (perform t.fn (after k t.fn s)).1)
      first zero lt h = elim lt [ ]
      first (suc n) lt h = elim (Option-cases (perform t.fn s).0) [
        | inl done ↦ (0, omega arith, done, ground arith)
        | inr (e, broken) ↦
            let (k, lt, done, same) = attempts_success n t.fn e (perform t.fn s).1 (ground arith) in
            (suc k, omega arith, done, ground arith)
      ]

module _ {A S : Type 0} (perform : A → S → Option Error × S) (wait : Wait (S × Option Error)) where
  -- Two lists in a row: the second runs exactly if the first ends without an error, from the state
  -- that the first leaves.
  pub run_tasks-append :
      (ts us : List (Task A S)) (s : S)
      → run_tasks perform wait (ts ++ us) s ≡ (
          let (r, s') = run_tasks perform wait ts s in
          elim r [ none ↦ run_tasks perform wait us s' | some e ↦ (some e, s') ])
  unfolding run_tasks
  run_tasks-append [] us s = refl
  run_tasks-append (t ∷ ts) us s =
      ground (arith, run_tasks-append ts us s, run_tasks-append ts us (run_task perform wait t s).1)

  -- No error, or a runtime error.
  abbrev Wrapped : Option Error → Type 0
  Wrapped r = (r ≡ none) ⊎ ((e : Error) × (op : String) × (r ≡ some (runtime e op)))

  run_tasks-Wrapped : (ts : List (Task A S)) (s : S) → Wrapped (run_tasks perform wait ts s).0
  unfolding run_tasks
  run_tasks-Wrapped [] s = inl refl
  run_tasks-Wrapped (t ∷ ts) s = elim (Bool-cases (holds t.predicate s)) [
    | inr skipped ↦
        let same : (run_tasks perform wait ts s).0 ≡ (run_tasks perform wait (t ∷ ts) s).0 =
          ground arith in
        subst Wrapped same (run_tasks-Wrapped ts s)
    | inl runs ↦ elim (Option-cases (run_task perform wait t s).0) [
      | inl ok ↦
          let s' = (run_task perform wait t s).1 in
          let same : (run_tasks perform wait ts s').0 ≡ (run_tasks perform wait (t ∷ ts) s).0 =
            ground arith in
          subst Wrapped same (run_tasks-Wrapped ts s')
      | inr (e, broken) ↦ inr (e, t.operation, ground arith)
    ]
  ]

  -- Whatever error a task fails with, a list of tasks exits with the code of a runtime error, 10,
  -- and with 0 exactly if it ends without an error.
  pub exit_code-run_tasks :
      (ts : List (Task A S)) (s : S)
      → (((run_tasks perform wait ts s).0 ≡ none) × (exit_code (run_tasks perform wait ts s).0 ≡ 0))
        ⊎ (((run_tasks perform wait ts s).0 ≢ none)
            × (exit_code (run_tasks perform wait ts s).0 ≡ 10))
  exit_code-run_tasks ts s = elim (run_tasks-Wrapped ts s) [
    | inl ok ↦ inl (ok, ap exit_code ok ∙ unfold exit_code in refl)
    | inr (e, op, broken) ↦ inr ((λ ok. cc), ap exit_code broken ∙ unfold exit_code in refl)
  ]
