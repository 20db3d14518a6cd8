-- ===== src/Credentials/Accepted.antt =====
-- Which credentials are accepted: pkg/credentials/credentials.go.
use kubeone.Prelude.{String, Bool, true, false, not, ◌&&◌, ◌||◌, is_empty, ◌≡◌, arith}
use kubeone.Fail.Outcome.{Outcome, ok, err, fault}
use kubeone.Credentials.Finder.{value, put_value, read_variables, parse_credential_variables}
use kubeone.Credentials.Checks.{
  require_keys, openstack_pairs, openstack_validation, vmware_pairs,
  vmware_cloud_director_validation,
}
use kubeone.Credentials.Providers.{openstack_variables, vmware_variables, equinixmetal}

abbrev pub is_ok {ℓ} : {A : Type ℓ} → Outcome A → Bool
is_ok (ok a) = true
is_ok (err e) = false
is_ok fault = false

-- OpenStack credentials are accepted exactly if the URL and the region are given, and either an
-- application credential is given whole and neither a user name nor a password, or these two, a
-- domain and a tenant are given and no part of an application credential. Each value counts
-- without the space around it.
pub parse_credential_variables-openstack :
    (trim lookup : String → String)
    → let given = λ (k : String). not (is_empty (trim (lookup k))) in
      is_ok (parse_credential_variables trim lookup openstack_variables openstack_validation) ≡ (
        given "OS_AUTH_URL"
        && given "OS_REGION_NAME"
        && ((given "OS_APPLICATION_CREDENTIAL_ID"
              && given "OS_APPLICATION_CREDENTIAL_SECRET"
              && not (given "OS_USERNAME")
              && not (given "OS_PASSWORD"))
            || (not (given "OS_APPLICATION_CREDENTIAL_ID")
                && not (given "OS_APPLICATION_CREDENTIAL_SECRET")
                && given "OS_USERNAME"
                && given "OS_PASSWORD"
                && given "OS_DOMAIN_NAME"
                && (given "OS_TENANT_ID" || given "OS_TENANT_NAME"))))
unfolding parse_credential_variables read_variables openstack_validation require_keys
    openstack_pairs value put_value
parse_credential_variables-openstack trim lookup = ground arith

-- VMware Cloud Director: the organisation, the URL and the data centre, and either an API token
-- alone or a user with a password alone.
pub parse_credential_variables-vmware :
    (trim lookup : String → String)
    → let given = λ (k : String). not (is_empty (trim (lookup k))) in
      is_ok
        (parse_credential_variables trim lookup vmware_variables vmware_cloud_director_validation)
      ≡ (given "VCD_ORG"
          && given "VCD_URL"
          && given "VCD_VDC"
          && ((given "VCD_API_TOKEN" && not (given "VCD_USER") && not (given "VCD_PASSWORD"))
              || (not (given "VCD_API_TOKEN") && given "VCD_USER" && given "VCD_PASSWORD")))
unfolding parse_credential_variables read_variables vmware_cloud_director_validation vmware_pairs
    require_keys value put_value
parse_credential_variables-vmware trim lookup = ground arith

-- Equinix Metal: exactly one of the two pairs of variables is given, and it is given whole.
pub equinixmetal-whole :
    (lookup : String → String)
    → let given = λ (k : String). not (is_empty (lookup k)) in
      is_ok (equinixmetal lookup) ≡ (
        (given "PACKET_API_KEY"
          && given "PACKET_PROJECT_ID"
          && not (given "METAL_AUTH_TOKEN")
          && not (given "METAL_PROJECT_ID"))
        || (given "METAL_AUTH_TOKEN"
            && given "METAL_PROJECT_ID"
            && not (given "PACKET_API_KEY")
            && not (given "PACKET_PROJECT_ID")))
unfolding equinixmetal
equinixmetal-whole lookup = ground arith
