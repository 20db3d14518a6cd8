-- ===== src/V1beta3/Again.antt =====
-- Defaults that are set a second time: pkg/apis/kubeone/v1beta3/defaults.go.
use kubeone.Prelude.{
  ℕ, suc, String, true, false, ◌||◌, Option, none, some, List, [], ◌∷◌, any, length, is_empty, ◌==◌,
  ◌≡◌, ◌≢◌, refl, sym, ap, ◌∙◌, arith, Bool-cases, inl, inr, if◌then◌else◌,
}
use kubeone.Prelude.Int.{ℤ, pos}
use kubeone.V1beta3.Types.{HostConfig, Taint, KubeOneCluster}
use kubeone.V1beta3.Hosts.{
  default_text, default_number, is_zero, or_default, default_addresses, default_host_config,
  default_host, default_hosts, control_plane_taint, set_first_leader, leads, set_defaults_hosts,
}
use kubeone.V1beta3.Defaulted.{default_text_full, default_text_again, default_number_full, finished}

number_again :
    (n d : ℤ) → is_zero d ≡ false → default_number (default_number n d) d ≡ default_number n d
number_again n d h = rw (default_number_full n d h) refl

or_default_again :
    {A : Type 0} (o : Option A) (d : A) → or_default (or_default o d) d ≡ or_default o d
or_default_again none d = refl
or_default_again (some a) d = refl

addresses_again : (h : HostConfig) → default_addresses (default_addresses h) ≡ default_addresses h
unfolding default_addresses
addresses_again h = elim (Bool-cases (is_empty h.public_address)) [
  | inl public ↦ elim (Bool-cases (is_empty h.private_address)) [
    | inl private ↦ ground arith
    | inr private ↦ ground arith
  ]
  | inr public ↦ elim (Bool-cases (is_empty h.private_address)) [
    | inl private ↦ ground arith
    | inr private ↦ ground arith
  ]
]

socket_again :
    (key socket : String)
    → (if is_empty key
        then default_text
            (if is_empty key then default_text socket "env:SSH_AUTH_SOCK" else socket)
            "env:SSH_AUTH_SOCK"
        else (if is_empty key then default_text socket "env:SSH_AUTH_SOCK" else socket))
      ≡ (if is_empty key then default_text socket "env:SSH_AUTH_SOCK" else socket)
socket_again key socket = elim (Bool-cases (is_empty key)) [
  | inl missing ↦ rw missing (default_text_again socket "env:SSH_AUTH_SOCK" refl)
  | inr given ↦ rw given refl
]

bastion_user_again :
    (user bastion : String)
    → default_text
        (default_text bastion (default_text user "root"))
        (default_text (default_text user "root") "root")
      ≡ default_text bastion (default_text user "root")
bastion_user_again user bastion =
    ap (default_text (default_text bastion (default_text user "root")))
      (default_text_again user "root" refl)
    ∙ default_text_again bastion (default_text user "root") (default_text_full user "root" refl)

default_host-again :
    (taints : List Taint) (i : ℕ) (h : HostConfig)
    → default_host taints i (default_host taints i h) ≡ default_host taints i h
unfolding default_host default_host_config default_addresses
default_host-again taints i h =
    let h' = default_addresses h in
    let addresses = addresses_again h in
    λ k. record (default_host taints i h) {
      public_address = (addresses k).public_address;
      private_address = (addresses k).private_address;
      ssh_agent_socket = socket_again h.ssh_private_key_file h.ssh_agent_socket k;
      ssh_username = default_text_again h.ssh_username "root" refl k;
      ssh_port = number_again h.ssh_port (pos 22) refl k;
      bastion_port = number_again h.bastion_port (pos 22) refl k;
      bastion_user = bastion_user_again h.ssh_username h.bastion_user k;
      taints = or_default_again h.taints taints k;
    }

default_hosts-again :
    (taints : List Taint) (i : ℕ) (hs : List HostConfig)
    → default_hosts taints i (default_hosts taints i hs) ≡ default_hosts taints i hs
unfolding default_hosts
default_hosts-again taints i [] = refl
default_hosts-again taints i (h ∷ hs) =
    λ k. default_host-again taints i h k ∷ default_hosts-again taints (suc i) hs k

default_hosts-length :
    (taints : List Taint) (i : ℕ) (hs : List HostConfig)
    → length (default_hosts taints i hs) ≡ length hs
unfolding default_hosts
default_hosts-length taints i [] = refl
default_hosts-length taints i (h ∷ hs) = ap suc (default_hosts-length taints (suc i) hs)

set_first_leader-length : (hs : List HostConfig) → length (set_first_leader hs) ≡ length hs
set_first_leader-length [] = refl
set_first_leader-length (h ∷ hs) = refl

default_hosts-any :
    (taints : List Taint) (i : ℕ) (hs : List HostConfig)
    → any leads (default_hosts taints i hs) ≡ any leads hs
unfolding default_hosts default_host default_host_config default_addresses
default_hosts-any taints i [] = refl
default_hosts-any taints i (h ∷ hs) =
    ap (λ b. h.is_leader || b) (default_hosts-any taints (suc i) hs)

finished-length : (hs : List HostConfig) → length (finished hs) ≡ length hs
finished-length hs = elim (Bool-cases (any leads hs)) [
  | inl marked ↦ rw marked (default_hosts-length (control_plane_taint ∷ []) 0 hs)
  | inr unmarked ↦ rw unmarked (
      set_first_leader-length (default_hosts (control_plane_taint ∷ []) 0 hs)
      ∙ default_hosts-length (control_plane_taint ∷ []) 0 hs)
]

finished-again : (hs : List HostConfig) → hs ≢ [] → finished (finished hs) ≡ finished hs
unfolding default_hosts default_host default_host_config default_addresses
finished-again [] some_host = absurd (some_host refl)
finished-again (h ∷ hs) some_host = elim (Bool-cases (any leads (h ∷ hs))) [
  | inl marked ↦
      rw (marked, default_hosts-any (control_plane_taint ∷ []) 0 (h ∷ hs), marked)
        (default_hosts-again (control_plane_taint ∷ []) 0 (h ∷ hs))
  | inr unmarked ↦ rw unmarked (
      ap set_first_leader (λ k.
        default_host-again (control_plane_taint ∷ []) 0 h k
        ∷ default_hosts-again (control_plane_taint ∷ []) 1 hs k))
]

-- The configuration with the defaults where there are control plane hosts.
abbrev with_hosts : KubeOneCluster → KubeOneCluster
with_hosts c = record c {
  control_plane = record c.control_plane { hosts = finished c.control_plane.hosts };
  static_workers = default_hosts [] (length c.control_plane.hosts) c.static_workers;
}

set_defaults_hosts-with_hosts :
    (c : KubeOneCluster)
    → (length c.control_plane.hosts == 0) ≡ false
    → set_defaults_hosts c ≡ with_hosts c
unfolding set_defaults_hosts
set_defaults_hosts-with_hosts c some_host = rw some_host refl

set_defaults_hosts_none :
    (c : KubeOneCluster) → (length c.control_plane.hosts == 0) ≡ true → set_defaults_hosts c ≡ c
unfolding set_defaults_hosts
set_defaults_hosts_none c no_host = rw no_host refl

with_hosts-again :
    (c : KubeOneCluster) → c.control_plane.hosts ≢ [] → with_hosts (with_hosts c) ≡ with_hosts c
with_hosts-again c some_host =
    let hosts = c.control_plane.hosts in
    let workers =
      ap (λ n. default_hosts [] n (default_hosts [] (length hosts) c.static_workers))
        (finished-length hosts)
      ∙ default_hosts-again [] (length hosts) c.static_workers in
    λ k. record c {
      control_plane = record c.control_plane { hosts = finished-again hosts some_host k };
      static_workers = workers k;
    }

-- Setting the defaults of hosts a second time, as is done for a configuration with node sets,
-- changes nothing.
pub set_defaults_hosts-again :
    (c : KubeOneCluster) → set_defaults_hosts (set_defaults_hosts c) ≡ set_defaults_hosts c
set_defaults_hosts-again c =
    let hosts = c.control_plane.hosts in
    elim (Bool-cases (length hosts == 0)) [
      | inl no_host ↦ ap set_defaults_hosts (set_defaults_hosts_none c no_host)
      | inr some_host ↦
          let first = set_defaults_hosts-with_hosts c some_host in
          let still = ap (λ n. n == 0) (finished-length hosts) ∙ some_host in
          ap set_defaults_hosts first
          ∙ set_defaults_hosts-with_hosts (with_hosts c) still
          ∙ with_hosts-again c (λ e. ground (arith, ap length e))
          ∙ sym first
    ]
