-- ===== src/State/Nodes.antt =====
-- Running a task on hosts, one after another or all at once: pkg/state/task.go. `H` is what the
-- clones of the state share through pointers, `S` what each clone has for itself.
use kubeone.Prelude.{
  ℕ, suc, ◌-◌, Bool, true, false, not, if◌then◌else◌, Option, none, some, List, [], ◌∷◌, ◌++◌, ◌≡◌,
  join,
}
use kubeone.Fail.{Error, runtime, fail_with}
use kubeone.Api.Host.{HostConfig}

-- A task on one host, the executor that opens a connection to it, and the function that copies
-- from a clone into the original state, if there is one.
pub record NodeTask (H S : Type 0) : Type 0 where
  pub open_connection : HostConfig → H → Option Error
  pub run : HostConfig → H → S → Option Error × (H × S)
  pub state_mutator : Option (S → S → S)

module _ {H S : Type 0} (task : NodeTask H S) where
  -- `runTask`
  unfoldable pub run_on_host : HostConfig → H → S → Option Error × (H × S)
  run_on_host node heap ctx = elim (task.open_connection node heap) [
    | some e ↦ (some e, (heap, ctx))
    | none ↦ let (r, after) = task.run node heap ctx in (fail_with runtime r "", after)
  ]

  abbrev pub mutate : S → S → S
  mutate original tmp = elim task.state_mutator [ none ↦ original | some f ↦ f original tmp ]

  abbrev pub on_node : HostConfig → Error → Error
  on_node node e = runtime e (join "running task on " node.public_address)

  -- The sequential loop ends at the first error.
  unfoldable pub run_sequentially : List HostConfig → H → S → List Error × (H × S)
  run_sequentially [] heap s = ([], (heap, s))
  run_sequentially (n ∷ ns) heap s =
      let (r, (heap', ctx)) = run_on_host n heap s in
      let rest = run_sequentially ns heap' (mutate s ctx) in
      elim r [ some e ↦ (on_node n e ∷ [], (heap', s)) | none ↦ rest ]

  -- Where a goroutine is: it has its clone, it has run the task with this result, it has passed
  -- the report of an error, it has passed the mutator, it has called Done. The flag says whether it
  -- holds the lock of the errors, which is released when the function returns.
  pub data Phase : Type 0 where
    called : S → Phase
    ran : Option Error → S → Phase
    reported : Bool → S → Phase
    mutated : Bool → Phase
    leaving : Bool → Phase

  -- A parallel run in progress: the hosts whose goroutine is not started, the goroutines that have
  -- not returned, the errors and whether their lock is taken, the counter of the wait group, the
  -- shared part and the original state.
  pub record Progress : Type 0 where
    pub waiting : List HostConfig
    pub running : List (HostConfig × Phase)
    pub errors : List Error
    pub errors_locked : Bool
    pub wait_group : ℕ
    pub heap : H
    pub original : S

  -- The loop adds to the wait group and starts a goroutine with a clone of the state as it is then.
  unfoldable pub spawned : HostConfig → List HostConfig → Progress → Progress
  spawned n ns p = record p {
    waiting = ns;
    running = p.running ++ ((n, called p.original) ∷ []);
    wait_group = suc p.wait_group;
  }

  -- Whether a goroutine is not blocked: only that of the errors is held over several steps, the
  -- lock of the mutator is taken and released in one.
  abbrev pub ready : Phase → Progress → Bool
  ready (ran (some e) ctx) p = not p.errors_locked
  ready _ p = true

  -- What a goroutine does next; `before` and `after` are the others.
  unfoldable pub advanced :
      HostConfig
      → Phase
      → List (HostConfig × Phase)
      → List (HostConfig × Phase)
      → Progress
      → Progress
  unfolding run_on_host
  advanced n (called ctx) before after p =
      let (r, (heap', ctx')) = run_on_host n p.heap ctx in
      record p { running = before ++ ((n, ran r ctx') ∷ after); heap = heap' }
  advanced n (ran none ctx) before after p = record p {
    running = before ++ ((n, reported false ctx) ∷ after);
  }
  advanced n (ran (some e) ctx) before after p = record p {
    running = before ++ ((n, reported true ctx) ∷ after);
    errors = p.errors ++ (on_node n e ∷ []);
    errors_locked = true;
  }
  advanced n (reported holds ctx) before after p = record p {
    running = before ++ ((n, mutated holds) ∷ after);
    original = mutate p.original ctx;
  }
  advanced n (mutated holds) before after p = record p {
    running = before ++ ((n, leaving holds) ∷ after);
    wait_group = p.wait_group - 1;
  }
  advanced n (leaving holds) before after p = record p {
    running = before ++ after;
    errors_locked = if holds then false else p.errors_locked;
  }

  -- One step of a parallel run: the loop goes on, or any goroutine that is not blocked does. A task
  -- is one step here: what tasks do to the shared part between their own locks is not interleaved.
  pub data Step : Progress → Progress → Type 0 where
    spawn :
        {p : Progress} (n : HostConfig) (ns : List HostConfig)
        → p.waiting ≡ n ∷ ns
        → Step p (spawned n ns p)
    advance :
        {p : Progress} (n : HostConfig) (phase : Phase) (before after : List (HostConfig × Phase))
        → p.running ≡ before ++ ((n, phase) ∷ after)
        → ready phase p ≡ true
        → Step p (advanced n phase before after p)

  pub data Steps : ℕ → Progress → Progress → Type 0 where
    done : {p : Progress} → Steps 0 p p
    next : {k : ℕ} {p q r : Progress} → Step p q → Steps k q r → Steps (suc k) p r

  abbrev pub started : List HostConfig → H → S → Progress
  started nodes heap s = record {
    waiting = nodes;
    running = [];
    errors = [];
    errors_locked = false;
    wait_group = 0;
    heap = heap;
    original = s;
  }

  -- `wg.Wait` returns, and the errors are aggregated.
  abbrev pub Returns : Progress → Type 0
  Returns p = (p.waiting ≡ []) × (p.wait_group ≡ 0)
