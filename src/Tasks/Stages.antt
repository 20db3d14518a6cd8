-- ===== src/Tasks/Stages.antt =====
-- Rules for what a run of tasks leads to: pkg/tasks/task.go and pkg/tasks/tasks.go.
use kubeone.Prelude.{ℕ, String, zero, suc, ◌<◌, Option, none, some, List, ◌∷◌, sym, subst, arith}
use kubeone.Fail.{Error, runtime}
use kubeone.Tasks.Task.{Task, Wait, default_retries, run_task, run_tasks}
use kubeone.Tasks.Runs.{attempts, run_task-attempts, default_retries_pos}

-- A success has led to a state with `Q`, an error to one with `P`.
abbrev pub Outcome : {S : Type 0} → (S → Type 0) → (S → Type 0) → Option Error × S → Type 0
Outcome P Q x = elim x.0 [ none ↦ Q x.1 | some e ↦ P x.1 ]

-- A task without a condition.
abbrev pub always : {A S : Type 0} → A → String → String → ℕ → Task A S
always fn description operation retries = record {
  fn = fn;
  predicate = none;
  description = description;
  operation = operation;
  retries = retries;
}

module _ {A S : Type 0} (perform : A → S → Option Error × S) where
  -- From every state with `P` the function leads to one with `Q`, or fails and leaves one with `P`.
  abbrev pub Moves : (S → Type 0) → (S → Type 0) → A → Type 0
  Moves P Q fn = (s : S) → P s → Outcome P Q (perform fn s)

  one_more :
      (P Q : S → Type 0) (fn : A) (n : ℕ) (last : Option Error) (s : S)
      → Outcome P Q (perform fn s)
      → ((e : Error)
          → P (perform fn s).1
          → Outcome P Q (attempts perform n fn (some e) (perform fn s).1))
      → Outcome P Q (attempts perform (suc n) fn last s)
  unfolding attempts
  one_more P Q fn n last s = after (perform fn s).0
    where
      after :
          (r : Option Error)
          → Outcome P Q (r, (perform fn s).1)
          → ((e : Error)
              → P (perform fn s).1
              → Outcome P Q (attempts perform n fn (some e) (perform fn s).1))
          → Outcome P Q (elim r as (λ _. Option Error × S) [
            | none ↦ (none, (perform fn s).1)
            | some e ↦ attempts perform n fn (some e) (perform fn s).1
          ])
      after none q go = q
      after (some e) q go = go e q

  more_attempts :
      (P Q : S → Type 0) (fn : A)
      → Moves P Q fn
      → (n : ℕ) (e : Error) (s : S) → P s
      → Outcome P Q (attempts perform n fn (some e) s)
  unfolding attempts
  more_attempts P Q fn moves zero e s p = p
  more_attempts P Q fn moves (suc n) e s p =
      one_more P Q fn n (some e) s (moves s p)
        λ e' q. more_attempts P Q fn moves n e' (perform fn s).1 q

  first_attempt :
      (P Q : S → Type 0) (fn : A)
      → Moves P Q fn
      → (n : ℕ) → 0 < n
      → (s : S) → P s
      → Outcome P Q (attempts perform n fn none s)
  first_attempt P Q fn moves zero pos s p = absurd (omega (arith, pos))
  first_attempt P Q fn moves (suc n) pos s p =
      one_more P Q fn n none s (moves s p) λ e q. more_attempts P Q fn moves n e (perform fn s).1 q

  module _ (wait : Wait (S × Option Error)) where
    run_task-Outcome :
        (P Q : S → Type 0) (t : Task A S)
        → Moves P Q t.fn
        → (s : S) → P s
        → Outcome P Q (run_task perform wait t s)
    run_task-Outcome P Q t moves s p =
        subst (Outcome P Q) (sym (run_task-attempts perform wait t s)) (
          first_attempt P Q t.fn moves (default_retries t.retries) (default_retries_pos t.retries) s
            p)

    -- A task without a condition, ahead of others. What holds when it fails is `P`, which entails
    -- what is known of a failed run.
    pub run_tasks-step :
        (F P Q R : S → Type 0) (fn : A) (description operation : String) (retries : ℕ)
        (ts : List (Task A S))
        → Moves P Q fn
        → ((s : S) → P s → F s)
        → ((s : S) → Q s → Outcome F R (run_tasks perform wait ts s))
        → (s : S) → P s
        → Outcome F R (run_tasks perform wait (always fn description operation retries ∷ ts) s)
    unfolding run_tasks
    run_tasks-step F P Q R fn description operation retries ts moves weaken rest s p =
        let t = always fn description operation retries in
        after (run_task perform wait t s).0 (run_task-Outcome P Q t moves s p)
      where
        after :
            (r : Option Error)
            → Outcome P Q (r, (run_task perform wait (always fn description operation retries) s).1)
            → Outcome F R (elim r as (λ _. Option Error × S) [
              | none ↦
                  run_tasks perform wait ts
                    (run_task perform wait (always fn description operation retries) s).1
              | some e ↦ (
                some (runtime e operation),
                (run_task perform wait (always fn description operation retries) s).1,
              )
            ])
        after none q = rest _ q
        after (some e) q = weaken _ q
