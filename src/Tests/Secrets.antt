-- ===== src/Tests/Secrets.antt =====
-- The theorems on credentials at a concrete environment.
use kubeone.Prelude.{
  String, true, not, [], ◌∷◌, ◌++◌, ◌&&◌, ◌||◌, is_empty, str_eq, ◌≡◌, refl, if◌then◌else◌,
}
use kubeone.Credentials.Finder.{
  CredentialsFinder, typed_key, fetch, find, value, put_value, read_variables,
  parse_credential_variables,
}
use kubeone.Credentials.Checks.{openstack_validation, openstack_pairs, require_keys}
use kubeone.Credentials.Providers.{openstack_variables}
use kubeone.Credentials.Sources.{first_set, places, find-first_set}
use kubeone.Credentials.Accepted.{is_ok, parse_credential_variables-openstack}

abbrev environment : String → String
environment name = if str_eq name "MC_HCLOUD_TOKEN" then "from-env" else ""

abbrev finder : CredentialsFinder
finder = record { static = ("HCLOUD_TOKEN", "from-file") ∷ []; dynamic = environment; typ = "MC" }

-- The environment under the name with the type goes before the file under the plain name.
finds_typed : find finder "HCLOUD_TOKEN" ≡ "from-env"
unfolding find fetch value typed_key
finds_typed = refl

find-first_set_example :
    find finder "HCLOUD_TOKEN"
    ≡ first_set (
        (if is_empty finder.typ then [] else places finder (typed_key finder "HCLOUD_TOKEN"))
        ++ places finder "HCLOUD_TOKEN")
find-first_set_example = find-first_set finder "HCLOUD_TOKEN"

abbrev variables : String → String
variables name =
    if str_eq name "OS_AUTH_URL"
    then "https://auth"
    else if str_eq name "OS_REGION_NAME"
    then "eu"
    else if str_eq name "OS_APPLICATION_CREDENTIAL_ID"
    then "id"
    else if str_eq name "OS_APPLICATION_CREDENTIAL_SECRET"
    then "secret"
    else ""

accepts_application :
    is_ok (parse_credential_variables (λ v. v) variables openstack_variables openstack_validation)
    ≡ true
unfolding parse_credential_variables read_variables openstack_validation openstack_pairs
    require_keys value put_value
accepts_application = refl

parse_credential_variables-openstack_example :
    let given = λ (k : String). not (is_empty (variables k)) in
    is_ok (parse_credential_variables (λ v. v) variables openstack_variables openstack_validation)
    ≡ (given "OS_AUTH_URL"
        && given "OS_REGION_NAME"
        && ((given "OS_APPLICATION_CREDENTIAL_ID"
              && given "OS_APPLICATION_CREDENTIAL_SECRET"
              && not (given "OS_USERNAME")
              && not (given "OS_PASSWORD"))
            || (not (given "OS_APPLICATION_CREDENTIAL_ID")
                && not (given "OS_APPLICATION_CREDENTIAL_SECRET")
                && given "OS_USERNAME"
                && given "OS_PASSWORD"
                && given "OS_DOMAIN_NAME"
                && (given "OS_TENANT_ID" || given "OS_TENANT_NAME"))))
parse_credential_variables-openstack_example =
    parse_credential_variables-openstack (λ v. v) variables
