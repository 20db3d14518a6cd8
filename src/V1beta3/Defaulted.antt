-- ===== src/V1beta3/Defaulted.antt =====
-- What the defaults of hosts achieve: pkg/apis/kubeone/v1beta3/defaults.go.
use kubeone.Prelude.{
  ℕ, zero, suc, ◌+◌, String, Bool, true, false, ◌||◌, Option, none, some, List, [], ◌∷◌, ◌++◌, map,
  any, length, is_empty, is_some, ◌==◌, ◌≡◌, ◌≢◌, refl, ap, ◌∙◌, arith, All, Bool-cases, ◌⊎◌, inl,
  inr, if◌then◌else◌,
}
use mathlib.Core.List.{map-append}
use kubeone.Prelude.Int.{ℤ, pos}
use kubeone.V1beta3.Types.{HostConfig, Taint, KubeOneCluster}
use kubeone.V1beta3.Hosts.{
  default_text, default_number, is_zero, or_default, default_addresses, default_host_config,
  default_host, default_hosts, control_plane_taint, set_first_leader, leads, set_defaults_hosts,
}

pub default_text_full : (s d : String) → is_empty d ≡ false → is_empty (default_text s d) ≡ false
default_text_full s d h = elim (Bool-cases (is_empty s)) [ inl e ↦ rw e h | inr e ↦ rw e e ]

pub default_text_again :
    (s d : String) → is_empty d ≡ false → default_text (default_text s d) d ≡ default_text s d
default_text_again s d h = rw (default_text_full s d h) refl

pub default_number_full : (n d : ℤ) → is_zero d ≡ false → is_zero (default_number n d) ≡ false
default_number_full n d h = elim (Bool-cases (is_zero n)) [ inl e ↦ rw e h | inr e ↦ rw e e ]

or_default_some : {A : Type 0} (o : Option A) (d : A) → is_some (or_default o d) ≡ true
or_default_some none d = refl
or_default_some (some a) d = refl

-- What a host needs so that it can be connected to, and that it is not nil where nil means a default.
pub record Reachable (h : HostConfig) : Type 0 where
  pub port : is_zero h.ssh_port ≡ false
  pub user : is_empty h.ssh_username ≡ false
  pub bastion_port : is_zero h.bastion_port ≡ false
  pub bastion_user : is_empty h.bastion_user ≡ false
  pub addresses : is_empty h.public_address ≡ is_empty h.private_address
  pub identity : (is_empty h.ssh_private_key_file ≡ false) ⊎ (is_empty h.ssh_agent_socket ≡ false)
  pub tainted : is_some h.taints ≡ true

default_addresses-same :
    (h : HostConfig)
    → is_empty (default_addresses h).public_address ≡ is_empty (default_addresses h).private_address
unfolding default_addresses
default_addresses-same h = elim (Bool-cases (is_empty h.public_address)) [
  | inl public ↦ elim (Bool-cases (is_empty h.private_address)) [
    | inl private ↦ ground arith
    | inr private ↦ ground arith
  ]
  | inr public ↦ elim (Bool-cases (is_empty h.private_address)) [
    | inl private ↦ ground arith
    | inr private ↦ ground arith
  ]
]

default_host-Reachable :
    (taints : List Taint) (i : ℕ) (h : HostConfig) → Reachable (default_host taints i h)
unfolding default_host default_host_config default_addresses
default_host-Reachable taints i h = record {
  port = default_number_full h.ssh_port (pos 22) refl;
  user = default_text_full h.ssh_username "root" refl;
  bastion_port = default_number_full h.bastion_port (pos 22) refl;
  bastion_user = default_text_full h.bastion_user _ (default_text_full h.ssh_username "root" refl);
  addresses = default_addresses-same (record h { id = pos i });
  identity = elim (Bool-cases (is_empty h.ssh_private_key_file)) [
    | inl missing ↦ inr (rw missing (default_text_full h.ssh_agent_socket "env:SSH_AUTH_SOCK" refl))
    | inr given ↦ inl given
  ];
  tainted = or_default_some h.taints taints;
}

-- The numbers from `i` on.
abbrev pub count_up : ℕ → ℕ → List ℤ
count_up i zero = []
count_up i (suc n) = pos i ∷ count_up (suc i) n

count_up-append : (i m n : ℕ) → count_up i m ++ count_up (i + m) n ≡ count_up i (m + n)
count_up-append i zero n =
    let here : i + 0 ≡ i = omega arith in let all : 0 + n ≡ n = omega arith in rw (here, all) refl
count_up-append i (suc m) n =
    let here : i + suc m ≡ suc i + m = omega arith in
    let all : suc m + n ≡ suc (m + n) = omega arith in
    rw (here, all) (ap (λ r. pos i ∷ r) (count_up-append (suc i) m n))

abbrev pub ids : List HostConfig → List ℤ
ids hs = map (λ h. h.id) hs

default_hosts-ids :
    (taints : List Taint) (i : ℕ) (hs : List HostConfig)
    → ids (default_hosts taints i hs) ≡ count_up i (length hs)
unfolding default_hosts default_host default_host_config default_addresses
default_hosts-ids taints i [] = refl
default_hosts-ids taints i (h ∷ hs) = ap (λ r. pos i ∷ r) (default_hosts-ids taints (suc i) hs)

default_hosts-Reachable :
    (taints : List Taint) (i : ℕ) (hs : List HostConfig) → All Reachable (default_hosts taints i hs)
unfolding default_hosts
default_hosts-Reachable taints i [] = tt
default_hosts-Reachable taints i (h ∷ hs) =
    (default_host-Reachable taints i h, default_hosts-Reachable taints (suc i) hs)

default_hosts-leads :
    (taints : List Taint) (i : ℕ) (hs : List HostConfig)
    → map leads (default_hosts taints i hs) ≡ map leads hs
unfolding default_hosts default_host default_host_config default_addresses
default_hosts-leads taints i [] = refl
default_hosts-leads taints i (h ∷ hs) =
    ap (λ r. h.is_leader ∷ r) (default_hosts-leads taints (suc i) hs)

-- Who leads: the hosts that are marked, or else the first one.
abbrev pub leaders : List Bool → List Bool
leaders [] = []
leaders (b ∷ bs) = if any (λ x. x) (b ∷ bs) then b ∷ bs else true ∷ bs

-- The control plane hosts after the loop and the choice of a leader.
abbrev pub finished : List HostConfig → List HostConfig
finished hosts =
    let hosts' = default_hosts (control_plane_taint ∷ []) 0 hosts in
    if any leads hosts then hosts' else set_first_leader hosts'

set_first_leader-ids : (hs : List HostConfig) → ids (set_first_leader hs) ≡ ids hs
set_first_leader-ids [] = refl
set_first_leader-ids (h ∷ hs) = refl

set_first_leader-Reachable :
    (hs : List HostConfig) → All Reachable hs → All Reachable (set_first_leader hs)
set_first_leader-Reachable [] a = tt
set_first_leader-Reachable (h ∷ hs) (r, a) = (
  record {
    port = r.port;
    user = r.user;
    bastion_port = r.bastion_port;
    bastion_user = r.bastion_user;
    addresses = r.addresses;
    identity = r.identity;
    tainted = r.tainted;
  },
  a,
)

any-leads : (hs : List HostConfig) → any (λ x. x) (map leads hs) ≡ any leads hs
any-leads [] = refl
any-leads (h ∷ hs) = ap (λ b. h.is_leader || b) (any-leads hs)

module _ (hosts : List HostConfig) where
  finished-ids : ids (finished hosts) ≡ count_up 0 (length hosts)
  finished-ids = elim (Bool-cases (any leads hosts)) [
    | inl marked ↦ rw marked (default_hosts-ids (control_plane_taint ∷ []) 0 hosts)
    | inr unmarked ↦ rw unmarked (
        set_first_leader-ids (default_hosts (control_plane_taint ∷ []) 0 hosts)
        ∙ default_hosts-ids (control_plane_taint ∷ []) 0 hosts)
  ]

  finished-Reachable : All Reachable (finished hosts)
  finished-Reachable =
      let a = default_hosts-Reachable (control_plane_taint ∷ []) 0 hosts in
      elim (Bool-cases (any leads hosts)) [
        | inl marked ↦ rw marked a
        | inr unmarked ↦ rw unmarked (set_first_leader-Reachable _ a)
      ]

finished-leads : (hosts : List HostConfig) → map leads (finished hosts) ≡ leaders (map leads hosts)
unfolding default_hosts default_host default_host_config default_addresses
finished-leads [] = refl
finished-leads (h ∷ hs) = elim (Bool-cases (any leads (h ∷ hs))) [
  | inl marked ↦
      rw (any-leads hs, marked) (default_hosts-leads (control_plane_taint ∷ []) 0 (h ∷ hs))
  | inr unmarked ↦
      rw (any-leads hs, unmarked)
        (ap (λ r. true ∷ r) (default_hosts-leads (control_plane_taint ∷ []) 1 hs))
]

pub not_empty : (hs : List HostConfig) → hs ≢ [] → (length hs == 0) ≡ false
not_empty [] ne = absurd (ne refl)
not_empty (h ∷ hs) ne = ground arith

-- Where there are control plane hosts, after their defaults: the control plane hosts and the static
-- workers have the positions in both lists as their IDs, each of them has what a connection needs,
-- an address for both or for none, and taints, and the hosts that are marked as leaders are those of
-- before, or the first host if there were none.
pub set_defaults_hosts-Reachable :
    (c : KubeOneCluster)
    → c.control_plane.hosts ≢ []
    → (ids ((set_defaults_hosts c).control_plane.hosts ++ (set_defaults_hosts c).static_workers)
        ≡ count_up 0 (length c.control_plane.hosts + length c.static_workers))
      × All Reachable (set_defaults_hosts c).control_plane.hosts
      × All Reachable (set_defaults_hosts c).static_workers
      × (map leads (set_defaults_hosts c).control_plane.hosts
          ≡ leaders (map leads c.control_plane.hosts))
unfolding set_defaults_hosts
set_defaults_hosts-Reachable c some_host =
    let hosts = c.control_plane.hosts in
    let workers = default_hosts [] (length hosts) c.static_workers in
    rw (not_empty hosts some_host) (
      map-append (λ h. h.id) (finished hosts) workers
          ∙ ap (λ r. r ++ ids workers) (finished-ids hosts)
          ∙ ap (λ r. count_up 0 (length hosts) ++ r)
              (default_hosts-ids [] (length hosts) c.static_workers)
          ∙ ap (λ k. count_up 0 (length hosts) ++ count_up k (length c.static_workers))
              (omega arith)
          ∙ count_up-append 0 (length hosts) (length c.static_workers),
      finished-Reachable hosts,
      default_hosts-Reachable [] (length hosts) c.static_workers,
      finished-leads hosts,
    )
