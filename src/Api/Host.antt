-- ===== src/Api/Host.antt =====
-- Hosts of the configuration: pkg/apis/kubeone/types.go and pkg/apis/kubeone/helpers.go.
use kubeone.Prelude.{ℕ, String, Bool, true, false, Option, List, none, some, if◌then◌else◌}
use kubeone.Prelude.Int.{ℤ}
use kubeone.Fail.{Error, plain, config_validation}

-- A string type: `other` holds a text that is none of the declared constants, and `unknown` is "".
pub data OperatingSystemName : Type 0 where
  ubuntu debian centos rhel rockylinux flatcar unknown : OperatingSystemName
  other : String → OperatingSystemName

abbrev pub is_valid_os : OperatingSystemName → Bool
is_valid_os (other _) = false
is_valid_os ubuntu = true
is_valid_os _ = true

-- The part of corev1.Taint that the program reads.
pub record Taint : Type 0 where
  pub key : String

-- Maps are association lists, in the order in which a loop over them runs.
pub record KubeletConfig : Type 0 where
  pub system_reserved : List (String × String)
  pub kube_reserved : List (String × String)
  pub eviction_hard : List (String × String)
  pub max_pods : Option ℤ
  pub pod_pids_limit : Option ℤ
  pub image_gc_high_threshold_percent : Option ℤ
  pub image_gc_low_threshold_percent : Option ℤ
  pub image_minimum_gc_age : ℤ
  pub image_maximum_gc_age : ℤ

pub record HostConfig : Type 0 where
  pub id : ℤ
  pub public_address : String
  pub ipv6_addresses : List String
  pub private_address : String
  pub ssh_port : ℤ
  pub ssh_username : String
  pub ssh_private_key_file : String
  pub ssh_cert_file : String
  pub ssh_host_public_key : List ℕ
  pub ssh_agent_socket : String
  pub bastion : String
  pub bastion_port : ℤ
  pub bastion_user : String
  pub bastion_host_public_key : List ℕ
  pub bastion_private_key_file : String
  pub hostname : String
  pub is_leader : Bool
  pub taints : List Taint
  pub labels : List (String × String)
  pub annotations : List (String × String)
  pub kubelet : KubeletConfig
  pub operating_system : OperatingSystemName

unfoldable pub set_hostname : HostConfig → String → HostConfig
set_hostname h name = record h { hostname = name }

unfoldable pub set_leader : HostConfig → Bool → HostConfig
set_leader h leader = record h { is_leader = leader }

-- The receiver's old value is tested, not the argument.
unfoldable pub set_operating_system : HostConfig → OperatingSystemName → HostConfig × Option Error
set_operating_system h os =
    if is_valid_os h.operating_system
    then (record h { operating_system = os }, none)
    else (h, config_validation (some (plain "unknown operating system")))
