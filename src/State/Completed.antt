-- ===== src/State/Completed.antt =====
-- What a parallel run has done when it returns: pkg/state/task.go.
use kubeone.Prelude.{
  ℕ, ◌+◌, Bool, true, false, not, ◌&&◌, Option, none, some, List, [], ◌∷◌, ◌++◌, total, total-split,
  total-last, count, count-append, is_some, join, ◌≡◌, refl, ap, ◌∙◌, sym, arith, Option-cases, ◌⊎◌,
  inl, inr,
}
use kubeone.Fail.{Error, runtime, fail_with}
use kubeone.Api.Host.{HostConfig}
use kubeone.State.Nodes.{
  NodeTask, run_on_host, on_node, Phase, called, ran, reported, mutated, leaving, Progress, spawned,
  advanced, Step, spawn, advance, Steps, done, next, started, Returns,
}
use kubeone.State.Parallel.{one, pending, moved, Steps-Regular}

-- `refused n` is the error of the connection to a host, and `log` lists the hosts on which the task
-- was run, with its results: the task itself writes it.
pub record RunLog {H S : Type 0} (task : NodeTask H S) (refused : HostConfig → Option Error)
    (log : H → List (HostConfig × Option Error)) : Type 0 where
  pub opens : (n : HostConfig) (heap : H) → task.open_connection n heap ≡ refused n
  pub logs :
      (n : HostConfig) (heap : H) (s : S)
      → log (task.run n heap s).1.0 ≡ log heap ++ ((n, (task.run n heap s).0) ∷ [])

-- The errors that hosts and runs make, as they are reported.
abbrev pub weigh : (Error → Bool) → (Error → Error) → HostConfig → Option Error → ℕ
weigh u wrap n none = 0
weigh u wrap n (some e) = one (u (runtime (wrap e) (join "running task on " n.public_address)))

module _ {H S : Type 0} (task : NodeTask H S) (refused : HostConfig → Option Error)
    (log : H → List (HostConfig × Option Error)) where
  abbrev due : (HostConfig → Bool) → HostConfig → ℕ
  due t n = one (t n && not (is_some (refused n)))

  abbrev refusal : (Error → Bool) → HostConfig → ℕ
  refusal u n = weigh u (λ e. e) n (refused n)

  abbrev failure : (Error → Bool) → HostConfig × Option Error → ℕ
  failure u (n, r) = weigh u (λ e. runtime e "") n r

  abbrev to_log : (HostConfig → Bool) → HostConfig × Phase task → ℕ
  to_log t (n, called ctx) = due t n
  to_log t (n, _) = 0

  abbrev to_report : (Error → Bool) → HostConfig × Phase task → ℕ
  to_report u (n, called ctx) = refusal u n
  to_report u (n, ran r ctx) = weigh u (λ e. e) n r
  to_report u (n, _) = 0

  -- The runs logged and to come, and the errors reported and to come.
  abbrev runs : (HostConfig → Bool) → Progress task → ℕ
  runs t p =
      total (λ e. one (t e.0)) (log p.heap) + total (due t) p.waiting + total (to_log t) p.running

  abbrev errors : (Error → Bool) → Progress task → ℕ
  errors u p = count u p.errors + total (refusal u) p.waiting + total (to_report u) p.running

  abbrev failures : (Error → Bool) → Progress task → ℕ
  failures u p = total (failure u) (log p.heap)

  abbrev Balanced : Progress task → Progress task → Type 0
  Balanced p q =
      ((t : HostConfig → Bool) → runs t p ≡ runs t q)
      × ((u : Error → Bool) → errors u p + failures u q ≡ errors u q + failures u p)

  -- A host refuses the connection, or the task is run on it and logged.
  run_on_host-cases :
      RunLog task refused log
      → (n : HostConfig) (heap : H) (s : S)
      → let x = run_on_host task n heap s in
        let r = (task.run n heap s).0 in
        ((refused n ≡ none)
          × (x.0 ≡ fail_with runtime r "")
          × (log x.1.0 ≡ log heap ++ ((n, r) ∷ [])))
        ⊎ ((e : Error) × (refused n ≡ some e) × (x.0 ≡ some e) × (log x.1.0 ≡ log heap))
  unfolding run_on_host
  run_on_host-cases law n heap s = elim (Option-cases (task.open_connection n heap)) [
    | inl fine ↦ inl (
      sym (law.opens n heap) ∙ fine,
      ground (arith, fine),
      ground (arith, fine, law.logs n heap s),
    )
    | inr (e, broken) ↦
        inr (e, sym (law.opens n heap) ∙ broken, ground (arith, broken), ground (arith, broken))
  ]

  weigh-runtime :
      (u : Error → Bool) (n : HostConfig) (r : Option Error)
      → weigh u (λ e. e) n (fail_with runtime r "") ≡ weigh u (λ e. runtime e "") n r
  weigh-runtime u n none = refl
  weigh-runtime u n (some e) = refl

  Step-Balanced : {p q : Progress task} → RunLog task refused log → Step task p q → Balanced p q
  unfolding spawned advanced
  Step-Balanced law (spawn {p} n ns w) =
      let here : HostConfig × Phase task = (n, called p.original) in
      (
        (λ t.
            let w1 = ap (total (due t)) w in
            let r1 = total-last (to_log t) p.running here in omega (arith, w1, r1)),
        λ u.
            let w1 = ap (total (refusal u)) w in
            let r1 = total-last (to_report u) p.running here in omega (arith, w1, r1),
      )
  Step-Balanced law (advance {p} n (called ctx) before after e free) =
      let x = run_on_host task n p.heap ctx in
      let r = (task.run n p.heap ctx).0 in
      let here : HostConfig × Phase task = (n, ran x.0 x.1.1) in
      elim (run_on_host-cases law n p.heap ctx) [
        | inl (answers, result, logged) ↦ (
          (λ t.
              let r1 = moved p.running before after _ (to_log t) e in
              let r2 = total-split (to_log t) before here after in
              let l1 = ap (total (λ d. one (t d.0))) logged in
              let l2 = total-last (λ d. one (t d.0)) (log p.heap) (n, r) in
              let d1 = ap (λ o. one (t n && not (is_some o))) answers in
              ground (arith, r1, r2, l1, l2, d1)),
          λ u.
              let r1 = moved p.running before after _ (to_report u) e in
              let r2 = total-split (to_report u) before here after in
              let l1 = ap (total (failure u)) logged in
              let l2 = total-last (failure u) (log p.heap) (n, r) in
              let d1 = ap (weigh u (λ e'. e') n) answers in
              let d2 = ap (weigh u (λ e'. e') n) result ∙ weigh-runtime u n r in
              omega (arith, r1, r2, l1, l2, d1, d2),
        )
        | inr (x', closed, result, logged) ↦ (
          (λ t.
              let r1 = moved p.running before after _ (to_log t) e in
              let r2 = total-split (to_log t) before here after in
              let l1 = ap (total (λ d. one (t d.0))) logged in
              let d1 = ap (λ o. one (t n && not (is_some o))) closed in
              ground (arith, r1, r2, l1, d1)),
          λ u.
              let r1 = moved p.running before after _ (to_report u) e in
              let r2 = total-split (to_report u) before here after in
              let l1 = ap (total (failure u)) logged in
              let d1 = ap (weigh u (λ e'. e') n) closed in
              let d2 = ap (weigh u (λ e'. e') n) result in omega (arith, r1, r2, l1, d1, d2),
        )
      ]
  Step-Balanced law (advance {p} n (ran none ctx) before after e free) = (
    (λ t.
        let r1 = moved p.running before after _ (to_log t) e in
        let r2 = total-split (to_log t) before (n, reported false ctx) after in
        omega (arith, r1, r2)),
    λ u.
        let r1 = moved p.running before after _ (to_report u) e in
        let r2 = total-split (to_report u) before (n, reported false ctx) after in
        omega (arith, r1, r2),
  )
  Step-Balanced law (advance {p} n (ran (some x) ctx) before after e free) = (
    (λ t.
        let r1 = moved p.running before after _ (to_log t) e in
        let r2 = total-split (to_log t) before (n, reported true ctx) after in
        omega (arith, r1, r2)),
    λ u.
        let r1 = moved p.running before after _ (to_report u) e in
        let r2 = total-split (to_report u) before (n, reported true ctx) after in
        let c1 = count-append u p.errors (on_node task n x ∷ []) in ground (arith, r1, r2, c1),
  )
  Step-Balanced law (advance {p} n (reported holds ctx) before after e free) = (
    (λ t.
        let r1 = moved p.running before after _ (to_log t) e in
        let r2 = total-split (to_log t) before (n, mutated holds) after in omega (arith, r1, r2)),
    λ u.
        let r1 = moved p.running before after _ (to_report u) e in
        let r2 = total-split (to_report u) before (n, mutated holds) after in omega (arith, r1, r2),
  )
  Step-Balanced law (advance {p} n (mutated holds) before after e free) = (
    (λ t.
        let r1 = moved p.running before after _ (to_log t) e in
        let r2 = total-split (to_log t) before (n, leaving holds) after in omega (arith, r1, r2)),
    λ u.
        let r1 = moved p.running before after _ (to_report u) e in
        let r2 = total-split (to_report u) before (n, leaving holds) after in omega (arith, r1, r2),
  )
  Step-Balanced law (advance {p} n (leaving holds) before after e free) = (
    (λ t. let r1 = moved p.running before after _ (to_log t) e in omega (arith, r1)),
    λ u. let r1 = moved p.running before after _ (to_report u) e in omega (arith, r1),
  )

  Steps-Balanced :
      {k : ℕ} {p q : Progress task} → RunLog task refused log → Steps task k p q → Balanced p q
  Steps-Balanced law done = ((λ t. refl), λ u. refl)
  Steps-Balanced law (next s rest) =
      let (run, made) = Step-Balanced law s in
      let (run', made') = Steps-Balanced law rest in
      ((λ t. run t ∙ run' t), λ u. let a = made u in let b = made' u in omega (arith, a, b))

  -- A goroutine that has called Done has nothing left to log or to report.
  nothing_left :
      (t : HostConfig → Bool) (u : Error → Bool) (cs : List (HostConfig × Phase task))
      → total pending cs ≡ 0
      → (total (to_log t) cs ≡ 0) × (total (to_report u) cs ≡ 0)
  nothing_left t u [] idle = (refl, refl)
  nothing_left t u ((n, leaving holds) ∷ cs) idle =
      let (a, b) = nothing_left t u cs (omega (arith, idle)) in (omega (arith, a), omega (arith, b))
  nothing_left t u ((n, called ctx) ∷ cs) idle = absurd (omega (arith, idle))
  nothing_left t u ((n, ran r ctx) ∷ cs) idle = absurd (omega (arith, idle))
  nothing_left t u ((n, reported h ctx) ∷ cs) idle = absurd (omega (arith, idle))
  nothing_left t u ((n, mutated h) ∷ cs) idle = absurd (omega (arith, idle))

  -- However a parallel run is interleaved, when Wait returns the task has run on every host of the
  -- list that does not refuse the connection, as often as it stands there, and on no other host;
  -- and the errors are those of the hosts that refuse and of the runs that failed, none lost and
  -- none twice: a failure on one host stops no other.
  pub run_parallel_complete :
      RunLog task refused log
      → (nodes : List HostConfig) (heap : H) (s : S) (k : ℕ) (q : Progress task) → log heap ≡ []
      → Steps task k (started task nodes heap s) q
      → Returns task q
      → ((t : HostConfig → Bool)
          → total (λ e. one (t e.0)) (log q.heap)
            ≡ total (λ n. one (t n && not (is_some (refused n)))) nodes)
        × ((u : Error → Bool)
            → count u q.errors
              ≡ total (λ n. weigh u (λ e. e) n (refused n)) nodes
                + total (λ d. weigh u (λ e. runtime e "") d.0 d.1) (log q.heap))
  run_parallel_complete law nodes heap s k q fresh steps (waits, over) =
      let (run, made) = Steps-Balanced law steps in
      let ((group, _), _) = Steps-Regular steps (refl, refl) in
      let idle = sym group ∙ over in
      (
        (λ t.
            let a = run t in
            let (b, _) = nothing_left t (λ _. true) q.running idle in
            let c = ap (total (λ d. one (t d.0))) fresh in
            let w = ap (total (due t)) waits in omega (arith, a, b, c, w)),
        λ u.
            let a = made u in
            let (_, b) = nothing_left (λ _. true) u q.running idle in
            let c = ap (total (failure u)) fresh in
            let w = ap (total (refusal u)) waits in omega (arith, a, b, c, w),
      )
