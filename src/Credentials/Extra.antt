-- ===== src/Credentials/Extra.antt =====
-- The credentials of every provider at once, and the sections of the credentials file for addons:
-- `Any`, `Custom` and `AddonParams` of pkg/credentials/credentials.go.
use kubeone.Prelude.{String, List, [], ◌∷◌, str_eq, is_empty, if◌then◌else◌}
use kubeone.Fail.Outcome.{Outcome, ok, ◌>>=◌}
use kubeone.Credentials.Finder.{Values, value, put_value, find}
use kubeone.Credentials.Providers.{Environment, new_credentials_finder}

abbrev pub all_keys : List String
all_keys =
    "AWS_ACCESS_KEY_ID" ∷ "AWS_SECRET_ACCESS_KEY" ∷ "ARM_CLIENT_ID" ∷ "ARM_CLIENT_SECRET"
    ∷ "ARM_TENANT_ID" ∷ "ARM_SUBSCRIPTION_ID" ∷ "DIGITALOCEAN_TOKEN" ∷ "GOOGLE_CREDENTIALS"
    ∷ "HCLOUD_TOKEN" ∷ "NUTANIX_ENDPOINT" ∷ "NUTANIX_PORT" ∷ "NUTANIX_USERNAME" ∷ "NUTANIX_PASSWORD"
    ∷ "NUTANIX_INSECURE" ∷ "NUTANIX_PROXY_URL" ∷ "NUTANIX_CLUSTER_NAME" ∷ "OS_AUTH_URL"
    ∷ "OS_DOMAIN_NAME" ∷ "OS_PASSWORD" ∷ "OS_REGION_NAME" ∷ "OS_TENANT_ID" ∷ "OS_TENANT_NAME"
    ∷ "OS_USERNAME" ∷ "METAL_AUTH_TOKEN" ∷ "METAL_PROJECT_ID" ∷ "PACKET_API_KEY"
    ∷ "PACKET_PROJECT_ID" ∷ "VSPHERE_SERVER" ∷ "VSPHERE_PASSWORD" ∷ "VSPHERE_USER" ∷ "VCD_USER"
    ∷ "VCD_PASSWORD" ∷ "VCD_API_TOKEN" ∷ "VCD_ORG" ∷ "VCD_URL" ∷ "VCD_VDC"
    ∷ "VCD_ALLOW_UNVERIFIED_SSL" ∷ []

-- One turn of the loop of `Any`. The variables of Packet also set those of Equinix Metal.
unfoldable pub collect_key : String → String → Values → Values
unfolding put_value
collect_key key v creds =
    if is_empty v
    then creds
    else if str_eq key "PACKET_API_KEY"
    then put_value "METAL_AUTH_TOKEN" v (put_value key v creds)
    else if str_eq key "PACKET_PROJECT_ID"
    then put_value "METAL_PROJECT_ID" v (put_value key v creds)
    else put_value key v creds

unfoldable pub collect : (String → String) → List String → Values → Values
unfolding collect_key
collect lookup [] creds = creds
collect lookup (k ∷ ks) creds = collect lookup ks (collect_key k (lookup k) creds)

unfoldable pub any_credentials : Environment → String → Outcome Values
unfolding new_credentials_finder collect find
any_credentials env path =
    new_credentials_finder env path "" >>= λ cf. ok (collect (find cf) all_keys [])

-- A section of the file that holds YAML as a text; `unmarshal` is `yaml.Unmarshal`.
unfoldable pub section :
    {A : Type 0} → (String → Outcome A) → A → String → Environment → String → Outcome A
unfolding new_credentials_finder value
section unmarshal empty key env path = new_credentials_finder env path "" >>= λ cf.
    let raw = value key cf.static in if is_empty raw then ok empty else unmarshal raw

abbrev pub custom : (String → Outcome Values) → Environment → String → Outcome Values
custom unmarshal = section unmarshal [] "customSecrets"

abbrev pub addon_params :
    (String → Outcome (List (String × Values)))
    → Environment
    → String
    → Outcome (List (String × Values))
addon_params unmarshal = section unmarshal [] "addonParams"
