-- ===== src/State/Host.antt =====
-- One host of the live cluster and its health checks: pkg/state/cluster.go.
use kubeone.Prelude.{ℕ, String, Bool, ◌&&◌, Option, List}
use kubeone.Api.Host.{HostConfig}
use kubeone.State.Status.{
  ComponentStatus, ContainerStatus, has, component_is_provisioned, component_healthy,
  container_healthy, kubelet_initialized,
}

-- `config` is the configured host that the live host points to. The zero time is `none`; another
-- time is in nanoseconds.
pub record Host (V : Type 0) : Type 0 where
  pub config : HostConfig
  pub kernel_release : ComponentStatus V
  pub containerd : ComponentStatus V
  pub kubelet : ComponentStatus V
  pub api_server : ContainerStatus
  pub etcd : ContainerStatus
  pub earliest_cert_expiry : Option ℕ
  pub authentication_config_checksum : String
  pub is_in_cluster : Bool
  pub kubeconfig : List ℕ

module _ {V : Type 0} where
  unfoldable pub is_provisioned : Host V → Bool
  is_provisioned h = component_is_provisioned h.containerd && component_is_provisioned h.kubelet

  unfoldable pub initialized : Host V → Bool
  initialized h = is_provisioned h && has h.kubelet.status kubelet_initialized

  unfoldable pub healthy : Host V → Bool
  healthy h = h.is_in_cluster && component_healthy h.containerd && component_healthy h.kubelet

  unfoldable pub control_plane_healthy : Host V → Bool
  control_plane_healthy h = healthy h && container_healthy h.api_server

  unfoldable pub worker_healthy : Host V → Bool
  worker_healthy h = healthy h
