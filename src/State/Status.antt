-- ===== src/State/Status.antt =====
-- Component and container status words: pkg/state/cluster.go.
use kubeone.Prelude.{ℕ, String, Bool, not, ◌&&◌, Option, bit_and, bit_or, ◌==◌}

-- `1 << iota`, a bit each.
abbrev pub systemd_status_unknown : ℕ
systemd_status_unknown = 1

abbrev pub systemd_status_dead : ℕ
systemd_status_dead = 2

abbrev pub systemd_status_restarting : ℕ
systemd_status_restarting = 4

abbrev pub component_installed : ℕ
component_installed = 8

abbrev pub systemd_status_active : ℕ
systemd_status_active = 16

abbrev pub systemd_status_running : ℕ
systemd_status_running = 32

abbrev pub kubelet_initialized : ℕ
kubelet_initialized = 64

abbrev pub pod_running : ℕ
pod_running = 128

abbrev pub kernel_release_4_19_plus : ℕ
kernel_release_4_19_plus = 256

-- `V` is the type of semantic versions; a nil version is `none`.
pub record ComponentStatus (V : Type 0) : Type 0 where
  pub version : Option V
  pub status : ℕ
  pub name : String

pub record ContainerStatus : Type 0 where
  pub status : ℕ

-- `status & mask != 0`
unfoldable pub has : ℕ → ℕ → Bool
has status mask = not (bit_and status mask == 0)

module _ {V : Type 0} where
  unfoldable pub component_is_provisioned : ComponentStatus V → Bool
  unfolding has
  component_is_provisioned cs =
      has cs.status
        (bit_or (bit_or systemd_status_running component_installed) systemd_status_active)

  unfoldable pub component_healthy : ComponentStatus V → Bool
  unfolding has
  component_healthy cs =
      has cs.status systemd_status_running && bit_and cs.status systemd_status_restarting == 0

unfoldable pub container_healthy : ContainerStatus → Bool
unfolding has
container_healthy cs = has cs.status pod_running
