-- ===== src/State/Parallel.antt =====
-- What running a task on hosts guarantees: pkg/state/task.go.
use kubeone.Prelude.{
  ℕ, zero, suc, ◌+◌, ◌*◌, ◌≤◌, Bool, true, false, none, some, List, [], ◌∷◌, ◌++◌, length, total,
  total-split, total-last, ◌≡◌, ◌≢◌, ◌⊎◌, refl, ap, ◌∙◌, inl, inr, arith, Option-cases, Bool-cases,
}
use kubeone.Api.Host.{HostConfig}
use kubeone.State.Nodes.{
  NodeTask, run_on_host, mutate, run_sequentially, Phase, called, ran, reported, mutated, leaving,
  Progress, ready, spawned, advanced, Step, spawn, advance, Steps, done, next, started, Returns,
}

Nat-cases : (n : ℕ) → (n ≡ 0) ⊎ (1 ≤ n)
Nat-cases zero = inl refl
Nat-cases (suc n) = inr (omega arith)

abbrev pub one : Bool → ℕ
one true = 1
one false = 0

module _ {H S : Type 0} {task : NodeTask H S} where
  -- Goroutines that have not called Done, that hold the lock of the errors, and the steps ahead.
  abbrev pub pending : HostConfig × Phase task → ℕ
  pending (n, leaving holds) = 0
  pending (n, _) = 1

  abbrev pub holding : HostConfig × Phase task → ℕ
  holding (n, reported holds ctx) = one holds
  holding (n, mutated holds) = one holds
  holding (n, leaving holds) = one holds
  holding (n, _) = 0

  abbrev pub ahead : HostConfig × Phase task → ℕ
  ahead (n, called ctx) = 5
  ahead (n, ran r ctx) = 4
  ahead (n, reported holds ctx) = 3
  ahead (n, mutated holds) = 2
  ahead (n, leaving holds) = 1

  abbrev pub work : Progress task → ℕ
  work p = 6 * length p.waiting + total ahead p.running

  -- The counter of the wait group and the lock say what the goroutines are at, and a step uses up
  -- one of the steps ahead.
  abbrev pub Regular : Progress task → Type 0
  Regular p =
      (p.wait_group ≡ total pending p.running) × (one p.errors_locked ≡ total holding p.running)

  pub moved :
      (running before after : List (HostConfig × Phase task)) (c : HostConfig × Phase task)
      (w : HostConfig × Phase task → ℕ)
      → running ≡ before ++ (c ∷ after)
      → total w running ≡ w c + total w (before ++ after)
  moved running before after c w e = ap (total w) e ∙ total-split w before c after

  Step-Regular :
      {p q : Progress task} → Step task p q → Regular p → Regular q × (work p ≡ suc (work q))
  unfolding spawned advanced
  Step-Regular (spawn {p} n ns w) (group, lock) =
      let here : HostConfig × Phase task = (n, called p.original) in
      let p1 = total-last pending p.running here in
      let h1 = total-last holding p.running here in
      let a1 = total-last ahead p.running here in
      let w1 = ap (λ (ms : List HostConfig). length ms) w in
      ((omega (arith, group, p1), omega (arith, lock, h1)), omega (arith, w1, a1))
  Step-Regular (advance {p} n (called ctx) before after e free) (group, lock) =
      let here : HostConfig × Phase task =
        (n, ran (run_on_host task n p.heap ctx).0 (run_on_host task n p.heap ctx).1.1) in
      let p1 = moved p.running before after _ pending e in
      let p2 = total-split pending before here after in
      let h1 = moved p.running before after _ holding e in
      let h2 = total-split holding before here after in
      let a1 = moved p.running before after _ ahead e in
      let a2 = total-split ahead before here after in
      ((ground (arith, group, p1, p2), ground (arith, lock, h1, h2, free)), ground (arith, a1, a2))
  Step-Regular (advance {p} n (ran none ctx) before after e free) (group, lock) =
      let here : HostConfig × Phase task = (n, reported false ctx) in
      let p1 = moved p.running before after _ pending e in
      let p2 = total-split pending before here after in
      let h1 = moved p.running before after _ holding e in
      let h2 = total-split holding before here after in
      let a1 = moved p.running before after _ ahead e in
      let a2 = total-split ahead before here after in
      ((ground (arith, group, p1, p2), ground (arith, lock, h1, h2, free)), ground (arith, a1, a2))
  Step-Regular (advance {p} n (ran (some x) ctx) before after e free) (group, lock) =
      let here : HostConfig × Phase task = (n, reported true ctx) in
      let p1 = moved p.running before after _ pending e in
      let p2 = total-split pending before here after in
      let h1 = moved p.running before after _ holding e in
      let h2 = total-split holding before here after in
      let a1 = moved p.running before after _ ahead e in
      let a2 = total-split ahead before here after in
      ((ground (arith, group, p1, p2), ground (arith, lock, h1, h2, free)), ground (arith, a1, a2))
  Step-Regular (advance {p} n (reported holds ctx) before after e free) (group, lock) =
      let here : HostConfig × Phase task = (n, mutated holds) in
      let p1 = moved p.running before after _ pending e in
      let p2 = total-split pending before here after in
      let h1 = moved p.running before after _ holding e in
      let h2 = total-split holding before here after in
      let a1 = moved p.running before after _ ahead e in
      let a2 = total-split ahead before here after in
      ((ground (arith, group, p1, p2), ground (arith, lock, h1, h2, free)), ground (arith, a1, a2))
  Step-Regular (advance {p} n (mutated holds) before after e free) (group, lock) =
      let here : HostConfig × Phase task = (n, leaving holds) in
      let p1 = moved p.running before after _ pending e in
      let p2 = total-split pending before here after in
      let h1 = moved p.running before after _ holding e in
      let h2 = total-split holding before here after in
      let a1 = moved p.running before after _ ahead e in
      let a2 = total-split ahead before here after in
      ((ground (arith, group, p1, p2), ground (arith, lock, h1, h2, free)), ground (arith, a1, a2))
  Step-Regular (advance {p} n (leaving holds) before after e free) (group, lock) =
      let p1 = moved p.running before after _ pending e in
      let h1 = moved p.running before after _ holding e in
      let a1 = moved p.running before after _ ahead e in
      ((ground (arith, group, p1), ground (arith, lock, h1)), ground (arith, a1))

  pub Steps-Regular :
      {k : ℕ} {p q : Progress task}
      → Steps task k p q
      → Regular p
      → Regular q × (work p ≡ k + work q)
  Steps-Regular done r = (r, omega arith)
  Steps-Regular (next s rest) r =
      let (r', used) = Step-Regular s r in
      let (r'', more) = Steps-Regular rest r' in (r'', omega (arith, used, more))

  -- A goroutine with a weight, if there is one.
  found :
      (w : HostConfig × Phase task → ℕ) (cs : List (HostConfig × Phase task))
      → 1 ≤ total w cs
      → (before : List (HostConfig × Phase task)) × (n : HostConfig) × (phase : Phase task)
        × (after : List (HostConfig × Phase task)) × (cs ≡ before ++ ((n, phase) ∷ after))
        × (1 ≤ w (n, phase))
  found w [] some_weight = absurd (omega (arith, some_weight))
  found w (c ∷ cs) some_weight = elim (Nat-cases (w c)) [
    | inl light ↦
        let (before, n, phase, after, e, heavy) = found w cs (omega (arith, some_weight, light)) in
        (c ∷ before, n, phase, after, ap (λ xs. c ∷ xs) e, heavy)
    | inr heavy ↦ ([], c.0, c.1, cs, refl, heavy)
  ]

  -- The goroutine that holds the lock of the errors is not blocked, and none is if nobody does.
  holding-ready :
      (n : HostConfig) (phase : Phase task) (p : Progress task)
      → 1 ≤ holding (n, phase)
      → ready task phase p ≡ true
  holding-ready n (called ctx) p h = refl
  holding-ready n (ran r ctx) p h = absurd (omega (arith, h))
  holding-ready n (reported holds ctx) p h = refl
  holding-ready n (mutated holds) p h = refl
  holding-ready n (leaving holds) p h = refl

  unlocked-ready :
      (phase : Phase task) (p : Progress task) → p.errors_locked ≡ false → ready task phase p ≡ true
  unlocked-ready (called ctx) p free = refl
  unlocked-ready (ran none ctx) p free = refl
  unlocked-ready (ran (some e) ctx) p free = ground (arith, free)
  unlocked-ready (reported holds ctx) p free = refl
  unlocked-ready (mutated holds) p free = refl
  unlocked-ready (leaving holds) p free = refl

  never_stuck :
      (p : Progress task) → Regular p → Returns task p ⊎ ((q : Progress task) × Step task p q)
  never_stuck p (group, lock) = by_waiting p.waiting refl
    where
      by_waiting :
          (ws : List HostConfig)
          → p.waiting ≡ ws
          → Returns task p ⊎ ((q : Progress task) × Step task p q)
      by_waiting (n ∷ ns) w = inr (_, spawn n ns w)
      by_waiting [] w = elim (Nat-cases p.wait_group) [
        | inl empty ↦ inl (w, empty)
        | inr busy ↦ elim (Bool-cases p.errors_locked) [
          | inl locked ↦
              let (before, n, phase, after, e, h) =
                found holding p.running (ground (arith, lock, locked)) in
              inr (_, advance n phase before after e (holding-ready n phase p h))
          | inr free ↦
              let (before, n, phase, after, e, h) =
                found pending p.running (omega (arith, group, busy)) in
              inr (_, advance n phase before after e (unlocked-ready phase p free))
        ]
      ]

module _ {H S : Type 0} (task : NodeTask H S) where
  -- A parallel run ends: it takes at most six steps for each host, and until Wait returns it is
  -- never stuck, neither at the lock of the errors nor at the counter of the wait group.
  pub run_parallel_bounded :
      (nodes : List HostConfig) (heap : H) (s : S) (k : ℕ) (q : Progress task)
      → Steps task k (started task nodes heap s) q
      → (k ≤ 6 * length nodes) × (Returns task q ⊎ ((q' : Progress task) × Step task q q'))
  run_parallel_bounded nodes heap s k q steps =
      let (regular, used) = Steps-Regular steps (refl, refl) in
      (omega (arith, used), never_stuck q regular)

  -- A sequential run has at most one error, and after one it touches no further host: more hosts
  -- behind it change neither the error nor the state.
  run_sequentially-append :
      (ns ms : List HostConfig) (heap : H) (s : S)
      → (length (run_sequentially task ns heap s).0 ≤ 1)
        × ((run_sequentially task ns heap s).0 ≢ []
            → run_sequentially task (ns ++ ms) heap s ≡ run_sequentially task ns heap s)
  unfolding run_sequentially
  run_sequentially-append [] ms heap s = (omega arith, λ h. absurd (h refl))
  run_sequentially-append (n ∷ ns) ms heap s =
      let r = run_on_host task n heap s in
      let rest = run_sequentially-append ns ms r.1.0 (mutate task s r.1.1) in
      elim (Option-cases r.0) [
        | inl fine ↦ (ground (arith, rest), λ h. ground (arith, rest))
        | inr (e, broken) ↦ (ground arith, λ h. ground arith)
      ]
