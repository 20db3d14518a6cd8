-- ===== src/V1beta3/Hosts.antt =====
-- The defaults of hosts and node sets: pkg/apis/kubeone/v1beta3/defaults.go.
use kubeone.Prelude.{
  ℕ, suc, String, Bool, true, false, not, ◌&&◌, Option, none, some, List, [], ◌∷◌, map, any, length,
  is_empty, ◌==◌, if◌then◌else◌,
}
use kubeone.Prelude.Int.{ℤ, pos, negsuc}
use kubeone.V1beta3.Types.{HostConfig, Taint, NodeSet, KubeOneCluster}

-- `defaults` at texts and at numbers.
abbrev pub default_text : String → String → String
default_text input value = if is_empty input then value else input

abbrev pub is_zero : ℤ → Bool
is_zero (pos n) = n == 0
is_zero (negsuc n) = false

abbrev pub default_number : ℤ → ℤ → ℤ
default_number input value = if is_zero input then value else input

abbrev pub or_default : {A : Type 0} → Option A → A → Option A
or_default none value = some value
or_default (some a) value = some a

abbrev pub control_plane_taint : Taint
control_plane_taint = record {
  key = "node-role.kubernetes.io/control-plane";
  effect = "NoSchedule";
}

-- Each address is taken for the other if that one is missing.
unfoldable pub default_addresses : HostConfig → HostConfig
default_addresses h =
    let h' = record h {
      public_address =
          if is_empty h.public_address && not (is_empty h.private_address)
          then h.private_address
          else h.public_address;
    } in
    record h' {
      private_address =
          if is_empty h'.private_address && not (is_empty h'.public_address)
          then h'.public_address
          else h'.private_address;
    }

unfoldable pub default_host_config : HostConfig → HostConfig
unfolding default_addresses
default_host_config h =
    let h' = default_addresses h in
    let username = default_text h'.ssh_username "root" in
    record h' {
      ssh_agent_socket =
          if is_empty h'.ssh_private_key_file
          then default_text h'.ssh_agent_socket "env:SSH_AUTH_SOCK"
          else h'.ssh_agent_socket;
      ssh_username = username;
      ssh_port = default_number h'.ssh_port (pos 22);
      bastion_port = default_number h'.bastion_port (pos 22);
      bastion_user = default_text h'.bastion_user username;
    }

-- One turn of the loop over the hosts, with the taints that stand in for nil.
unfoldable pub default_host : List Taint → ℕ → HostConfig → HostConfig
unfolding default_host_config
default_host taints i h =
    let h' = default_host_config (record h { id = pos i }) in
    record h' { taints = or_default h'.taints taints }

unfoldable pub default_hosts : List Taint → ℕ → List HostConfig → List HostConfig
default_hosts taints i [] = []
default_hosts taints i (h ∷ hs) = default_host taints i h ∷ default_hosts taints (suc i) hs

abbrev pub set_first_leader : List HostConfig → List HostConfig
set_first_leader [] = []
set_first_leader (h ∷ hs) = record h { is_leader = true } ∷ hs

abbrev pub leads : HostConfig → Bool
leads h = h.is_leader

-- The flag `setDefaultLeader` is left if no host is marked.
unfoldable pub set_defaults_hosts : KubeOneCluster → KubeOneCluster
unfolding default_hosts
set_defaults_hosts c =
    let hosts = c.control_plane.hosts in
    let hosts' = default_hosts (control_plane_taint ∷ []) 0 hosts in
    if length hosts == 0 then c else record c {
      control_plane = record c.control_plane {
        hosts = if any leads hosts then hosts' else set_first_leader hosts';
      };
      static_workers = default_hosts [] (length hosts) c.static_workers;
    }

unfoldable pub set_defaults_node_sets : NodeSet → NodeSet
set_defaults_node_sets ns = record ns {
  replicas = default_number ns.replicas (pos 1);
  taints = or_default ns.taints (control_plane_taint ∷ []);
  ssh = record ns.ssh {
    port = default_number ns.ssh.port (pos 22);
    bastion_port = default_number ns.ssh.bastion_port (pos 22);
    username = default_text ns.ssh.username "root";
    bastion_user = default_text ns.ssh.bastion_user "root";
    agent_socket = default_text ns.ssh.agent_socket "env:SSH_AUTH_SOCK";
  };
}

unfoldable pub set_defaults_node_set : KubeOneCluster → KubeOneCluster
unfolding set_defaults_node_sets
set_defaults_node_set c = record c {
  control_plane = record c.control_plane {
    node_sets = elim c.control_plane.node_sets [
      | none ↦ none
      | some sets ↦ some (map set_defaults_node_sets sets)
    ];
  };
}
