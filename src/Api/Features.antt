-- ===== src/Api/Features.antt =====
-- The features of a cluster: pkg/apis/kubeone/types.go. The fields that only templates print are
-- left out.
use kubeone.Prelude.{String, Bool, Option}
use kubeone.Prelude.Int.{ℤ}

pub record CoreDns : Type 0 where
  pub replicas : Option ℤ
  pub deploy_pod_disruption_budget : Option Bool
  pub image_repository : String

-- A feature that is enabled with the path of one file: EventRateLimit, PodNodeSelector and
-- AuthenticationConfiguration.
pub record FileFeature : Type 0 where
  pub enable : Bool
  pub config_file_path : String

pub record StaticAuditLog : Type 0 where
  pub enable : Bool
  pub policy_file_path : String
  pub log_path : String
  pub log_max_age : ℤ
  pub log_max_backup : ℤ
  pub log_max_size : ℤ

pub record WebhookAuditLog : Type 0 where
  pub enable : Bool
  pub policy_file_path : String
  pub config_file_path : String

pub record OpenIdConnect : Type 0 where
  pub enable : Bool
  pub issuer_url : String
  pub client_id : String

pub record EncryptionProviders : Type 0 where
  pub enable : Bool
  pub custom_encryption_configuration : String

pub record NodeLocalDns : Type 0 where
  pub deploy : Bool

pub record Features : Type 0 where
  pub core_dns : Option CoreDns
  pub event_rate_limit : Option FileFeature
  pub pod_node_selector : Option FileFeature
  pub static_audit_log : Option StaticAuditLog
  pub webhook_audit_log : Option WebhookAuditLog
  pub openid_connect : Option OpenIdConnect
  pub authentication_configuration : Option FileFeature
  pub encryption_providers : Option EncryptionProviders
  pub node_local_dns : Option NodeLocalDns
