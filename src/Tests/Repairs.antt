-- ===== src/Tests/Repairs.antt =====
-- The theorems on probes, runs over hosts and the repair of etcd at concrete values.
use kubeone.Prelude.{
  ℕ, suc, ◌+◌, ◌*◌, ◌≤◌, String, Bool, true, false, not, ◌&&◌, Option, none, some, List, [], ◌∷◌,
  ◌++◌, is_some, count, total, ◌≡◌, ◌↔◌, ◌⊎◌, inr, refl, str_eq,
}
use kubeone.Fail.{Error, plain, runtime}
use kubeone.Api.Host.{HostConfig}
use kubeone.Api.Cluster.{leader}
use kubeone.State.Nodes.{
  NodeTask, on_node, run_on_host, Phase, called, ran, reported, mutated, leaving, Progress, Step,
  spawn, advance, Steps, done, next, started, spawned, advanced, Returns,
}
use kubeone.State.Parallel.{one, run_parallel_bounded}
use kubeone.State.Completed.{RunLog, weigh, run_parallel_complete}
use kubeone.Probes.Investigate.{Answers, elect_leader}
use kubeone.Probes.Election.{
  first_healthy, leaders, sole_leader, marked, configs, elect_leader-sole,
}
use kubeone.Tasks.Etcd.{
  Peer, RepairClients, host_identities, url_hostnames, schedule_failing, schedule_peer,
  members_to_delete, remove_members, deletes_node, delete_nodes, remaining_members, repair_ring,
}
use kubeone.Tests.Samples.{host_config, state, degraded}

abbrev Ran : Type 0
Ran = List (HostConfig × Option Error)

-- A task that notes its runs in the shared part and fails on the host b.
abbrev broken_on_b : HostConfig → Option Error
broken_on_b h = elim (str_eq h.hostname "b") [ true ↦ some (plain "broken") | false ↦ none ]

abbrev fails_on_b : NodeTask Ran ℕ
fails_on_b = record {
  open_connection = λ _ _. none;
  run = λ h ran_on s. (broken_on_b h, (ran_on ++ ((h, broken_on_b h) ∷ []), s));
  state_mutator = none;
}

noted : RunLog fails_on_b (λ n. none) (λ ran_on. ran_on)
noted = record { opens = λ n heap. refl; logs = λ n heap s. refl }

abbrev a : HostConfig
a = host_config "a" false

abbrev b : HostConfig
b = host_config "b" false

abbrev at :
    List HostConfig
    → List (HostConfig × Phase fails_on_b)
    → List Error
    → Bool
    → ℕ
    → Ran
    → Progress fails_on_b
at waiting running errors locked group ran_on = record {
  waiting = waiting;
  running = running;
  errors = errors;
  errors_locked = locked;
  wait_group = group;
  heap = ran_on;
  original = 0;
}

abbrev reports : List Error
reports = on_node fails_on_b b (runtime (plain "broken") "") ∷ []

abbrev over : Progress fails_on_b
over = at ([]) [] reports false 0 ((b, some (plain "broken")) ∷ (a, none) ∷ [])

-- That of the host b reports its error and holds the lock while that of the host a runs and ends.
started_both :
    {k : ℕ} {q : Progress fails_on_b}
    → Steps fails_on_b k (at ([]) ((a, called 0) ∷ (b, called 0) ∷ []) [] false 2 []) q
    → Steps fails_on_b (suc (suc k)) (at (a ∷ b ∷ []) [] [] false 0 []) q
unfolding spawned advanced run_on_host
started_both rest =
    next {q = (at (b ∷ []) ((a, called 0) ∷ []) [] false 1 [])} (spawn a (b ∷ []) refl) (
      next {q = (at ([]) ((a, called 0) ∷ (b, called 0) ∷ []) [] false 2 [])} (spawn b [] refl)
        (rest))

b_reports :
    {k : ℕ} {q : Progress fails_on_b}
    → Steps fails_on_b k
        (at
          ([])
          ((a, called 0) ∷ (b, reported true 0) ∷ [])
          reports
          true
          2
          ((b, some (plain "broken")) ∷ []))
        q
    → Steps fails_on_b (suc (suc k)) (at ([]) ((a, called 0) ∷ (b, called 0) ∷ []) [] false 2 []) q
unfolding spawned advanced run_on_host
b_reports rest =
    next
      {q = (at ([]) ((a, called 0) ∷ (b, ran (some (runtime (plain "broken") "")) 0) ∷ []) [] false
        2 ((b, some (plain "broken")) ∷ []))}
      (advance b (called 0) ((a, called 0) ∷ []) [] refl refl)
      (next
        {q = (at ([]) ((a, called 0) ∷ (b, reported true 0) ∷ []) reports true 2
          ((b, some (plain "broken")) ∷ []))}
        (advance b (ran (some (runtime (plain "broken") "")) 0) ((a, called 0) ∷ []) [] refl refl)
        (rest))

a_ends :
    {k : ℕ} {q : Progress fails_on_b}
    → Steps fails_on_b k
        (at
          ([])
          ((b, reported true 0) ∷ [])
          reports
          true
          1
          ((b, some (plain "broken")) ∷ (a, none) ∷ []))
        q
    → Steps fails_on_b
        (suc (suc (suc (suc (suc k)))))
        (at
          ([])
          ((a, called 0) ∷ (b, reported true 0) ∷ [])
          reports
          true
          2
          ((b, some (plain "broken")) ∷ []))
        q
unfolding spawned advanced run_on_host
a_ends rest =
    next
      {q = (at ([]) ((a, ran none 0) ∷ (b, reported true 0) ∷ []) reports true 2
        ((b, some (plain "broken")) ∷ (a, none) ∷ []))}
      (advance a (called 0) [] ((b, reported true 0) ∷ []) refl refl)
      (next
        {q = (at ([]) ((a, reported false 0) ∷ (b, reported true 0) ∷ []) reports true 2
          ((b, some (plain "broken")) ∷ (a, none) ∷ []))}
        (advance a (ran none 0) [] ((b, reported true 0) ∷ []) refl refl)
        (next
          {q = (at ([]) ((a, mutated false) ∷ (b, reported true 0) ∷ []) reports true 2
            ((b, some (plain "broken")) ∷ (a, none) ∷ []))}
          (advance a (reported false 0) [] ((b, reported true 0) ∷ []) refl refl)
          (next
            {q = (at ([]) ((a, leaving false) ∷ (b, reported true 0) ∷ []) reports true 1
              ((b, some (plain "broken")) ∷ (a, none) ∷ []))}
            (advance a (mutated false) [] ((b, reported true 0) ∷ []) refl refl)
            (next
              {q = (at ([]) ((b, reported true 0) ∷ []) reports true 1
                ((b, some (plain "broken")) ∷ (a, none) ∷ []))}
              (advance a (leaving false) [] ((b, reported true 0) ∷ []) refl refl) (rest)))))

b_ends :
    {k : ℕ} {q : Progress fails_on_b}
    → Steps fails_on_b k
        (at ([]) [] reports false 0 ((b, some (plain "broken")) ∷ (a, none) ∷ []))
        q
    → Steps fails_on_b
        (suc (suc (suc k)))
        (at
          ([])
          ((b, reported true 0) ∷ [])
          reports
          true
          1
          ((b, some (plain "broken")) ∷ (a, none) ∷ []))
        q
unfolding spawned advanced run_on_host
b_ends rest =
    next
      {q = (at ([]) ((b, mutated true) ∷ []) reports true 1
        ((b, some (plain "broken")) ∷ (a, none) ∷ []))}
      (advance b (reported true 0) [] [] refl refl)
      (next
        {q = (at ([]) ((b, leaving true) ∷ []) reports true 0
          ((b, some (plain "broken")) ∷ (a, none) ∷ []))}
        (advance b (mutated true) [] [] refl refl)
        (next {q = (at ([]) [] reports false 0 ((b, some (plain "broken")) ∷ (a, none) ∷ []))}
          (advance b (leaving true) [] [] refl refl) (rest)))

to_the_end : Steps fails_on_b 12 (started fails_on_b (a ∷ b ∷ []) [] 0) over
to_the_end = started_both (b_reports (a_ends (b_ends done)))

abbrev accepts : HostConfig → Option Error
accepts n = none

run_parallel_complete_example :
    ((t : HostConfig → Bool)
      → total (λ e. one (t e.0)) over.heap
        ≡ total (λ n. one (t n && not (is_some (accepts n)))) (a ∷ b ∷ []))
    × ((u : Error → Bool)
        → count u over.errors
          ≡ total (λ n. weigh u (λ e. e) n (accepts n)) (a ∷ b ∷ [])
            + total (λ d. weigh u (λ e. runtime e "") d.0 d.1) over.heap)
run_parallel_complete_example =
    run_parallel_complete fails_on_b accepts (λ ran_on. ran_on) noted (a ∷ b ∷ []) [] 0 12 over refl
      to_the_end (refl, refl)

run_parallel_bounded_example :
    (12 ≤ 6 * 2) × (Returns fails_on_b over ⊎ ((q : Progress fails_on_b) × Step fails_on_b over q))
run_parallel_bounded_example = run_parallel_bounded fails_on_b (a ∷ b ∷ []) [] 0 12 over to_the_end

-- Only the API server of the host b is healthy.
abbrev answers : Answers ℕ
answers = record {
  apiserver_health = λ h. some (str_eq h.hostname "b");
  member_list = λ _. none;
  etcd_status = λ _. some (true, true);
  build_clientset = λ _. none;
  node_names = λ _. inr ("a" ∷ "b" ∷ []);
  authentication_config_enabled = λ _. inr false;
  encryption_providers_enabled = λ _. inr (false, false);
  fetch_encryption_providers_file = λ s. (none, s);
}

elect_leader-sole_example :
    let first = first_healthy answers.apiserver_health (configs degraded.control_plane) in
    let (r, s') = elect_leader answers (state degraded) in
    (leaders s'.cluster.control_plane.hosts ≡ sole_leader first)
    × ((leader s'.cluster).0 ≡ marked first)
    × ((r ≡ none) ↔ (is_some first ≡ true))
elect_leader-sole_example = elect_leader-sole answers (state degraded)

-- The members and the nodes that were removed, in order.
record Removed : Type 0 where
  members : List ℕ
  nodes : List String

-- Every endpoint answers, and a loop goes through a map as it was filled.
abbrev clients : RepairClients Removed
clients = record {
  connect = λ _. none;
  member_list = λ _. inr [];
  parse_hostname = λ u. some u;
  status_fails = λ _. false;
  member_remove = λ id w. (none, record w { members = w.members ++ (id ∷ []) });
  control_plane_nodes = λ _. inr ("a" ∷ "b" ∷ []);
  delete_node = λ n w. (none, record w { nodes = w.nodes ++ (n ∷ []) });
  arrange = λ m. m;
}

-- Two members that never started, with no name, beside the member a.
abbrev ring : List Peer
ring =
    record { name = "a"; id = 1; client_urls = "a" ∷ [] }
    ∷ record { name = ""; id = 2; client_urls = [] }
    ∷ record { name = ""; id = 3; client_urls = [] }
    ∷ []

abbrev untouched : Removed
untouched = record { members = []; nodes = [] }

-- The last of the members without a name goes, and the node that no member has the name of.
ring_repaired :
    repair_ring clients (a ∷ []) ring untouched
    ≡ (none, record { members = 3 ∷ []; nodes = "b" ∷ [] })
unfolding repair_ring remove_members delete_nodes members_to_delete schedule_peer schedule_failing
    url_hostnames host_identities deletes_node remaining_members
ring_repaired = refl
