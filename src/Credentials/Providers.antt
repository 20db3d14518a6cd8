-- ===== src/Credentials/Providers.antt =====
-- The credentials of each provider: pkg/credentials/credentials.go. The functions of os, of the
-- YAML and AWS libraries and of encoding/base64 are a parameter.
use kubeone.Prelude.{
  String, not, is_some, List, [], ◌∷◌, ◌&&◌, ◌||◌, str_eq, is_empty, join, if◌then◌else◌,
}
use kubeone.Fail.Outcome.{Outcome, ok, err, ◌>>=◌}
use kubeone.Api.Cloud.{CloudProviderSpec}
use kubeone.Credentials.Finder.{
  Values, value, put_value, CredentialsFinder, find, ProviderEnvironmentVariable, credentials_error,
  parse_credential_variables,
}
use kubeone.Credentials.Checks.{
  default_validation, nutanix_validation, openstack_validation, vmware_cloud_director_validation,
}

pub record AwsKeys : Type 0 where
  pub access_key_id : String
  pub secret_access_key : String

pub record Environment : Type 0 where
  pub getenv : String → String
  -- `os.ReadFile` and `yaml.Unmarshal` into the map.
  pub read_values : String → Outcome Values
  pub trim_space : String → String
  pub encode_base64 : String → String
  -- `LoadDefaultConfig` with a profile and `Credentials.Retrieve`.
  pub shared_aws_keys : String → Outcome AwsKeys

abbrev variable : String → ProviderEnvironmentVariable
variable name = record { name = name; machine_controller_name = "" }

abbrev renamed : String → String → ProviderEnvironmentVariable
renamed name mc = record { name = name; machine_controller_name = mc }

-- The variables of each provider.
abbrev pub azure_variables : List ProviderEnvironmentVariable
azure_variables =
    renamed "ARM_CLIENT_ID" "AZURE_CLIENT_ID"
    ∷ renamed "ARM_CLIENT_SECRET" "AZURE_CLIENT_SECRET"
    ∷ renamed "ARM_TENANT_ID" "AZURE_TENANT_ID"
    ∷ renamed "ARM_SUBSCRIPTION_ID" "AZURE_SUBSCRIPTION_ID"
    ∷ []

abbrev pub nutanix_variables : List ProviderEnvironmentVariable
nutanix_variables =
    variable "NUTANIX_ENDPOINT"
    ∷ variable "NUTANIX_PORT"
    ∷ variable "NUTANIX_USERNAME"
    ∷ variable "NUTANIX_PASSWORD"
    ∷ variable "NUTANIX_INSECURE"
    ∷ variable "NUTANIX_PROXY_URL"
    ∷ variable "NUTANIX_CLUSTER_NAME"
    ∷ []

abbrev pub openstack_variables : List ProviderEnvironmentVariable
openstack_variables =
    variable "OS_AUTH_URL"
    ∷ variable "OS_USERNAME"
    ∷ variable "OS_PASSWORD"
    ∷ variable "OS_APPLICATION_CREDENTIAL_ID"
    ∷ variable "OS_APPLICATION_CREDENTIAL_SECRET"
    ∷ variable "OS_DOMAIN_NAME"
    ∷ variable "OS_REGION_NAME"
    ∷ variable "OS_TENANT_ID"
    ∷ variable "OS_TENANT_NAME"
    ∷ []

abbrev pub vmware_variables : List ProviderEnvironmentVariable
vmware_variables =
    variable "VCD_USER"
    ∷ variable "VCD_PASSWORD"
    ∷ variable "VCD_API_TOKEN"
    ∷ variable "VCD_ORG"
    ∷ variable "VCD_URL"
    ∷ variable "VCD_VDC"
    ∷ variable "VCD_ALLOW_UNVERIFIED_SSL"
    ∷ []

abbrev pub vsphere_variables : List ProviderEnvironmentVariable
vsphere_variables =
    renamed "VSPHERE_SERVER" "VSPHERE_ADDRESS"
    ∷ renamed "VSPHERE_USER" "VSPHERE_USERNAME"
    ∷ variable "VSPHERE_PASSWORD"
    ∷ []

-- `newCredentialsFinder` with a credentials file and a type; no file is read for the empty path.
unfoldable pub new_credentials_finder : Environment → String → String → Outcome CredentialsFinder
new_credentials_finder env path typ =
    (if is_empty path then ok [] else env.read_values path) >>= λ static.
    ok (record { static = static; dynamic = env.getenv; typ = typ })

abbrev aws_values : String → String → Values
aws_values id secret = ("AWS_ACCESS_KEY_ID", id) ∷ ("AWS_SECRET_ACCESS_KEY", secret) ∷ []

unfoldable pub aws : Environment → (String → String) → Outcome Values
aws env lookup =
    let id = lookup "AWS_ACCESS_KEY_ID" in
    let secret = lookup "AWS_SECRET_ACCESS_KEY" in
    let profile = env.getenv "AWS_PROFILE" in
    if not (is_empty id) && not (is_empty secret)
    then ok (aws_values id secret)
    else if is_empty profile
    then err (credentials_error "lookup" "no ENV credentials found, AWS_PROFILE is empty")
    else (env.shared_aws_keys profile >>= λ keys.
        ok (aws_values keys.access_key_id keys.secret_access_key))

abbrev metal_values : String → String → Values
metal_values token project = ("METAL_AUTH_TOKEN", token) ∷ ("METAL_PROJECT_ID", project) ∷ []

unfoldable pub equinixmetal : (String → String) → Outcome Values
equinixmetal lookup =
    let packet_key = lookup "PACKET_API_KEY" in
    let packet_project = lookup "PACKET_PROJECT_ID" in
    let metal_token = lookup "METAL_AUTH_TOKEN" in
    let metal_project = lookup "METAL_PROJECT_ID" in
    let has_key = not (is_empty packet_key) in
    let has_project = not (is_empty packet_project) in
    let has_token = not (is_empty metal_token) in
    let has_metal_project = not (is_empty metal_project) in
    if has_key && has_project && has_token && has_metal_project
    then err (credentials_error "lookup" "found both PACKET_ and METAL_ environment variables")
    else if (has_key && not has_project) || (not has_key && has_project)
    then err (credentials_error "lookup" "found only one of PACKET_API_KEY and PACKET_PROJECT_ID")
    else if (has_token && not has_metal_project) || (not has_token && has_metal_project)
    then err (credentials_error "lookup" "found only one of METAL_AUTH_TOKEN and METAL_PROJECT_ID")
    else if not has_key && not has_project && not has_token && not has_metal_project
    then err (credentials_error "lookup" "METAL_AUTH_TOKEN and METAL_PROJECT_ID are required")
    else if has_key && has_project
    then ok (metal_values packet_key packet_project)
    else ok (metal_values metal_token metal_project)

-- The service account, encoded twice for machine-controller and operating-system-manager.
abbrev gce_account : Environment → String → Values → Values
gce_account env typ gsa =
    if str_eq typ "MC" || str_eq typ "OSM"
    then put_value "GOOGLE_SERVICE_ACCOUNT" (env.encode_base64 (value "GOOGLE_SERVICE_ACCOUNT" gsa))
        gsa
    else gsa

-- The switch of `ProviderCredentials`.
unfoldable pub credentials_of :
    Environment → CloudProviderSpec → String → (String → String) → Outcome Values
unfolding aws equinixmetal parse_credential_variables put_value value openstack_validation
    nutanix_validation default_validation vmware_cloud_director_validation
credentials_of env p typ lookup =
    let parse = parse_credential_variables env.trim_space lookup in
    if is_some p.aws
    then aws env lookup
    else if is_some p.azure
    then parse azure_variables default_validation
    else if is_some p.digital_ocean
    then parse (renamed "DIGITALOCEAN_TOKEN" "DO_TOKEN" ∷ []) default_validation
    else if is_some p.gce
    then (parse (renamed "GOOGLE_CREDENTIALS" "GOOGLE_SERVICE_ACCOUNT" ∷ []) default_validation
        >>= λ gsa. ok (gce_account env typ gsa))
    else if is_some p.hetzner
    then parse (renamed "HCLOUD_TOKEN" "HZ_TOKEN" ∷ []) default_validation
    else if is_some p.kubevirt
    then parse (variable "KUBEVIRT_KUBECONFIG" ∷ []) default_validation
    else if is_some p.nutanix
    then parse nutanix_variables nutanix_validation
    else if is_some p.openstack
    then parse openstack_variables openstack_validation
    else if is_some p.equinix_metal
    then equinixmetal lookup
    else if is_some p.vmware_cloud_director
    then parse vmware_variables vmware_cloud_director_validation
    else if is_some p.vsphere
    then (parse vsphere_variables default_validation >>= λ vs.
        ok (put_value "VSPHERE_ADDRESS" (join "https://" (value "VSPHERE_ADDRESS" vs)) vs))
    else if is_some p.none_spec
    then ok []
    else err (credentials_error "lookup" "unknown provider")

unfoldable pub provider_credentials :
    Environment → CloudProviderSpec → String → String → Outcome Values
unfolding new_credentials_finder credentials_of find
provider_credentials env p path typ =
    new_credentials_finder env path typ >>= λ cf. credentials_of env p typ (find cf)
