-- ===== src/Probes/Election.antt =====
-- The leader that the probes elect: pkg/tasks/probes.go.
use kubeone.Prelude.{
  Bool, true, false, Option, is_some, none, some, List, [], ◌∷◌, keep, map, ◌≡◌, refl, ap, ◌∙◌, ◌↔◌,
  arith, if◌then◌else◌,
}
use kubeone.Api.Host.{HostConfig, set_leader}
use kubeone.Api.Cluster.{leader, find_leader}
use kubeone.State.Host.{Host}
use kubeone.State.Context.{State}
use kubeone.Probes.Investigate.{Answers, is_healthy, lead, elect, with_control_plane, elect_leader}

-- The first host whose API server is healthy, asked with no host marked as the leader.
pub first_healthy : (HostConfig → Option Bool) → List HostConfig → Option HostConfig
first_healthy status [] = none
first_healthy status (c ∷ cs) =
    let rest = first_healthy status cs in
    if is_healthy (status (set_leader c false)) then some c else rest

-- The hosts that are marked as leaders.
abbrev pub leaders : List HostConfig → List HostConfig
leaders = keep (λ c. c.is_leader)

-- That host alone.
abbrev pub sole_leader : Option HostConfig → List HostConfig
sole_leader none = []
sole_leader (some c) = set_leader c true ∷ []

abbrev pub marked : Option HostConfig → Option HostConfig
marked none = none
marked (some c) = some (set_leader c true)

abbrev head : List HostConfig → Option HostConfig
head [] = none
head (c ∷ cs) = some c

find_leader-head : (cs : List HostConfig) → find_leader cs ≡ head (leaders cs)
unfolding find_leader
find_leader-head [] = refl
find_leader-head (c ∷ cs) = ground (arith, find_leader-head cs)

head-sole_leader : (first : Option HostConfig) → head (sole_leader first) ≡ marked first
head-sole_leader none = refl
head-sole_leader (some c) = refl

module _ {V : Type 0} where
  abbrev pub configs : List (Host V) → List HostConfig
  configs = map (λ h. h.config)

  abbrev cleared : List (Host V) → List (Host V)
  cleared = map (lead false)

  elect-again :
      (status : HostConfig → Option Bool) (hs : List (Host V))
      → leaders (configs (elect status true (cleared hs)).0) ≡ []
  unfolding elect lead set_leader
  elect-again status [] = refl
  elect-again status (h ∷ hs) = ground (arith, elect-again status hs)

  elect-first :
      (status : HostConfig → Option Bool) (hs : List (Host V))
      → leaders (configs (elect status false (cleared hs)).0)
        ≡ sole_leader (first_healthy status (configs hs))
  unfolding elect lead set_leader first_healthy
  elect-first status [] = refl
  elect-first status (h ∷ hs) = ground (arith, elect-again status hs, elect-first status hs)

  elect-flag :
      (status : HostConfig → Option Bool) (flag : Bool) (hs : List (Host V))
      → (elect status flag (cleared hs)).1
        ≡ (if flag then true else is_some (first_healthy status (configs hs)))
  unfolding elect lead set_leader first_healthy
  elect-flag status flag [] = ground arith
  elect-flag status flag (h ∷ hs) =
      ground (arith, elect-flag status true hs, elect-flag status flag hs)

  -- The election of the probes picks the first host of the control plane with a healthy API server:
  -- it alone is marked as the leader among the configured hosts afterwards, and it is the leader of
  -- the configuration. The election fails exactly if no API server is healthy, and then no host is
  -- the leader.
  pub elect_leader-sole :
      (w : Answers V) (s : State V)
      → let first = first_healthy w.apiserver_health (configs s.live_cluster.control_plane) in
        let (r, s') = elect_leader w s in
        (leaders s'.cluster.control_plane.hosts ≡ sole_leader first)
        × ((leader s'.cluster).0 ≡ marked first)
        × ((r ≡ none) ↔ (is_some first ≡ true))
  unfolding elect_leader with_control_plane leader
  elect_leader-sole w s =
      let hs = s.live_cluster.control_plane in
      let first = first_healthy w.apiserver_health (configs hs) in
      let alone = elect-first w.apiserver_health hs in
      let hosts = configs (elect w.apiserver_health false (cleared hs)).0 in
      let found : find_leader hosts ≡ marked first =
        find_leader-head hosts ∙ (ap head alone ∙ head-sole_leader first) in
      (alone, ground arith, ground (arith, elect-flag w.apiserver_health false hs))
