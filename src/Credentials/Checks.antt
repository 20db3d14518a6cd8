-- ===== src/Credentials/Checks.antt =====
-- The validation of what was read: the `ValidationFunc`s of pkg/credentials/credentials.go.
use kubeone.Prelude.{
  String, Bool, not, Option, none, some, List, [], ◌∷◌, ◌&&◌, ◌||◌, is_empty, if◌then◌else◌,
}
use kubeone.Fail.{Error}
use kubeone.Credentials.Finder.{Values, value, credentials_error}

-- Every key of the map needs a value. Which one is reported depends on the order of the map.
unfoldable pub default_validation : Values → Option Error
default_validation [] = none
default_validation ((k, v) ∷ m) =
    let rest = default_validation m in
    if is_empty v
    then some (credentials_error "validating" "a key is required but is not present")
    else rest

-- The loop over the keys that are always required.
unfoldable pub require_keys : List String → Values → Option Error
unfolding value
require_keys [] creds = none
require_keys (k ∷ ks) creds =
    let rest = require_keys ks creds in
    if is_empty (value k creds)
    then some (credentials_error "validating" "a key is required but is not present")
    else rest

abbrev pub is_set : String → Values → Bool
is_set k creds = not (is_empty (value k creds))

unfoldable pub nutanix_validation : Values → Option Error
unfolding require_keys
nutanix_validation creds =
    require_keys
      ("NUTANIX_ENDPOINT" ∷ "NUTANIX_PORT" ∷ "NUTANIX_USERNAME" ∷ "NUTANIX_PASSWORD" ∷ []) creds

-- The tests of the OpenStack validation behind the required keys, in their order.
unfoldable pub openstack_pairs : Bool → Bool → Bool → Bool → Bool → Option Error
openstack_pairs app_id app_secret user password tenant =
    if (app_id || app_secret) && (user || password)
    then some (credentials_error "validating" "both app credentials and user credentials found")
    else if (app_id && not app_secret) || (not app_id && app_secret)
    then some (credentials_error "validating" "only one is set for application credentials")
    else if (user && not password) || (not user && password)
    then some (credentials_error "validating" "only one is set for user credentials")
    else if (not app_id && not app_secret) && (not user && not password)
    then some (credentials_error "validating" "no valid credentials found")
    else if (user && password) && not tenant
    then some (credentials_error "validating" "a tenant is required but isn't present")
    else none

unfoldable pub openstack_validation : Values → Option Error
unfolding require_keys openstack_pairs value
openstack_validation creds =
    let app_id = is_set "OS_APPLICATION_CREDENTIAL_ID" creds in
    let app_secret = is_set "OS_APPLICATION_CREDENTIAL_SECRET" creds in
    let always_required =
      "OS_AUTH_URL"
      ∷ "OS_REGION_NAME"
      ∷ (if not app_id && not app_secret then "OS_DOMAIN_NAME" ∷ [] else []) in
    elim (require_keys always_required creds) [
      | some e ↦ some e
      | none ↦
          openstack_pairs app_id app_secret (is_set "OS_USERNAME" creds)
            (is_set "OS_PASSWORD" creds)
            (is_set "OS_TENANT_ID" creds || is_set "OS_TENANT_NAME" creds)
    ]

unfoldable pub vmware_pairs : Bool → Bool → Bool → Option Error
vmware_pairs api_token username password =
    if (username || password) && api_token
    then some (credentials_error "validating" "both api token and user credentials found")
    else if not (username || password) && not api_token
    then some (credentials_error "validating" "no valid credentials found")
    else if not api_token && (not username || not password)
    then some (credentials_error "validating" "user and password are required but not present")
    else none

unfoldable pub vmware_cloud_director_validation : Values → Option Error
unfolding require_keys vmware_pairs value
vmware_cloud_director_validation creds =
    elim (require_keys ("VCD_ORG" ∷ "VCD_URL" ∷ "VCD_VDC" ∷ []) creds) [
      | some e ↦ some e
      | none ↦
          vmware_pairs (is_set "VCD_API_TOKEN" creds) (is_set "VCD_USER" creds)
            (is_set "VCD_PASSWORD" creds)
    ]
