-- ===== src/Validation/Features.antt =====
-- The features and the registry: `ValidateFeatures`, the functions that it calls, and
-- `ValidateRegistryConfiguration` of pkg/apis/kubeone/validation/validation.go.
use kubeone.Prelude.{
  String, Bool, true, false, ◌&&◌, Option, none, some, List, [], ◌++◌, is_empty, append-eq-nil, ◌≡◌,
  refl, arith, if◌then◌else◌,
}
use kubeone.Prelude.Int.{pos, negsuc, leb_ℤ}
use kubeone.Api.Features.{
  CoreDns, FileFeature, StaticAuditLog, WebhookAuditLog, OpenIdConnect, Features,
}
use kubeone.Api.Cluster.{RegistryConfiguration}
use kubeone.Validation.Field.{FieldError, ErrorType, required, invalid, forbidden, error_if}

-- `*f.CoreDNS.Replicas < 0`
abbrev pub negative_replicas : Option CoreDns → Bool
negative_replicas none = false
negative_replicas (some d) = elim d.replicas [
  | none ↦ false
  | some r ↦ elim r [ pos n ↦ false | negsuc n ↦ true ]
]

-- `f.X != nil && f.X.Enable`, and what is checked then.
abbrev pub if_enabled :
    {A : Type 0} → (A → Bool) → (A → List FieldError) → Option A → List FieldError
if_enabled enable check none = []
if_enabled enable check (some a) = if enable a then check a else []

-- The checks of EventRateLimit, PodNodeSelector and AuthenticationConfiguration.
abbrev pub validate_file_feature : FileFeature → List FieldError
validate_file_feature f = error_if (is_empty f.config_file_path) required "configFilePath"

abbrev pub validate_static_audit_log_config : StaticAuditLog → List FieldError
validate_static_audit_log_config s =
    error_if (is_empty s.policy_file_path) required "policyFilePath"
    ++ error_if (is_empty s.log_path) required "logPath"
    ++ error_if (leb_ℤ s.log_max_age (pos 0)) invalid "logMaxAge"
    ++ error_if (leb_ℤ s.log_max_backup (pos 0)) invalid "logMaxBackup"
    ++ error_if (leb_ℤ s.log_max_size (pos 0)) invalid "logMaxSize"

abbrev pub validate_webhook_audit_log_config : WebhookAuditLog → List FieldError
validate_webhook_audit_log_config s =
    error_if (is_empty s.policy_file_path) required "policyFilePath"
    ++ error_if (is_empty s.config_file_path) required "configFilePath"

abbrev pub validate_oidc_config : OpenIdConnect → List FieldError
validate_oidc_config o =
    error_if (is_empty o.issuer_url) required "issuerURL"
    ++ error_if (is_empty o.client_id) required "clientID"

abbrev pub enables_oidc : Features → Bool
enables_oidc f = elim f.openid_connect [ none ↦ false | some o ↦ o.enable ]

abbrev pub enables_authentication : Features → Bool
enables_authentication f = elim f.authentication_configuration [ none ↦ false | some a ↦ a.enable ]

-- The features that are checked alone, and the one that is checked against another.
abbrev pub validate_single_features : Features → List FieldError
validate_single_features f =
    error_if (negative_replicas f.core_dns) invalid "replicas"
    ++ if_enabled (λ e. e.enable) validate_file_feature f.event_rate_limit
    ++ if_enabled (λ e. e.enable) validate_file_feature f.pod_node_selector
    ++ if_enabled (λ e. e.enable) validate_static_audit_log_config f.static_audit_log
    ++ if_enabled (λ e. e.enable) validate_webhook_audit_log_config f.webhook_audit_log
    ++ if_enabled (λ e. e.enable) validate_oidc_config f.openid_connect

abbrev pub validate_authentication : Features → FileFeature → List FieldError
validate_authentication f a =
    validate_file_feature a ++ error_if (enables_oidc f) forbidden "authenticationConfiguration"

unfoldable pub validate_features : Features → List FieldError
validate_features f =
    validate_single_features f
    ++ if_enabled (λ e. e.enable) (validate_authentication f) f.authentication_configuration

unfoldable pub validate_registry_configuration : Option RegistryConfiguration → List FieldError
validate_registry_configuration none = []
validate_registry_configuration (some r) =
    error_if (r.insecure_registry && is_empty r.overwrite_registry) invalid "insecureRegistry"

if_enabled-accepted :
    {A : Type 0} (enable : A → Bool) (check : A → List FieldError) (o : Option A)
    → if_enabled enable check o ≡ []
    → elim o [ none ↦ false | some a ↦ enable a ] ≡ true
    → (a : A) × (o ≡ some a) × (check a ≡ [])
if_enabled-accepted enable check none h on = ground (arith, on)
if_enabled-accepted enable check (some a) h on = (a, refl, ground (arith, h, on))

error_if-accepted :
    (test : Bool) (t : ErrorType) (field : String) → error_if test t field ≡ [] → test ≡ false
error_if-accepted true t field h = ground (arith, h)
error_if-accepted false t field h = refl

-- Accepted features have not both, OpenID Connect and an authentication configuration.
validate_features-exclusive :
    (f : Features)
    → validate_features f ≡ []
    → enables_authentication f ≡ true
    → enables_oidc f ≡ false
unfolding validate_features
validate_features-exclusive f h on =
    let checked =
      if_enabled (λ e. e.enable) (validate_authentication f) f.authentication_configuration in
    let last = (append-eq-nil (validate_single_features f) checked).0 h in
    let (a, _, accepted) =
      if_enabled-accepted (λ e. e.enable) (validate_authentication f) f.authentication_configuration
        last.1 on in
    error_if-accepted (enables_oidc f) forbidden "authenticationConfiguration"
      ((append-eq-nil (validate_file_feature a) _).0 accepted).1
