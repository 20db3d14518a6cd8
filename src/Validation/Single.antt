-- ===== src/Validation/Single.antt =====
-- Which cloud providers are accepted: `ValidateCloudProviderSpec` of
-- pkg/apis/kubeone/validation/validation.go.
use kubeone.Prelude.{
  ℕ, ◌+◌, ◌≤◌, String, Bool, true, false, not, ◌&&◌, ◌||◌, Option, List, [], ◌∷◌, ◌++◌,
  append-eq-nil, is_some, All, is_empty, ◌≡◌, ◌↔◌, ◌⊎◌, refl, sym, ◌∙◌, arith,
}
use kubeone.Api.Cloud.{CloudProviderSpec}
use kubeone.Api.Cluster.{KubeOneCluster}
use kubeone.Validation.Field.{FieldError, error_if, forbidden, invalid}
use kubeone.Validation.Machines.{DropletConfig}
use kubeone.Validation.Gce.{GceConfig, Cidr}
use kubeone.Validation.Provider.{Branch, branches, validate_branches, validate_cloud_provider_spec}
use kubeone.Validation.Accepted.{one_if}

-- How many providers are set.
abbrev pub providers : CloudProviderSpec → ℕ
providers p =
    one_if (is_some p.aws)
    + one_if (is_some p.azure)
    + one_if (is_some p.digital_ocean)
    + one_if (is_some p.gce)
    + one_if (is_some p.hetzner)
    + one_if (is_some p.kubevirt)
    + one_if (is_some p.nutanix)
    + one_if (is_some p.openstack)
    + one_if (is_some p.equinix_metal)
    + one_if (is_some p.vmware_cloud_director)
    + one_if (is_some p.vsphere)
    + one_if (is_some p.none_spec)

abbrev count : List Branch → ℕ
count [] = 0
count (b ∷ bs) = one_if b.set + count bs

-- Whether a provider was found after the branches.
validate_branches_none :
    (found : Bool) (bs : List Branch)
    → (one_if (validate_branches found bs).1 ≡ 0) ↔ (one_if found + count bs ≡ 0)
unfolding validate_branches
validate_branches_none found [] = ((λ e. omega (arith, e)), λ e. omega (arith, e))
validate_branches_none found (b ∷ bs) =
    let ih = validate_branches_none (b.set || found) bs in
    ((λ e. let more = ih.0 e in ground arith), λ e. ih.1 (ground arith))

-- No branch reports an error exactly if at most one is set, with those before, and each is content.
validate_branches_iff :
    (found : Bool) (bs : List Branch)
    → ((validate_branches found bs).0 ≡ [])
      ↔ ((one_if found + count bs ≤ 1) × All (λ b. b.errors ≡ []) bs)
unfolding validate_branches
validate_branches_iff found [] = ((λ _. (ground arith, tt)), λ _. refl)
validate_branches_iff found (b ∷ bs) =
    let rest = (validate_branches (b.set || found) bs).0 in
    let ih = validate_branches_iff (b.set || found) bs in
    let second = error_if (b.set && found) forbidden b.field in
    let outer = append-eq-nil (second ++ b.errors) rest in
    let inner = append-eq-nil second b.errors in
    (
      (λ e.
          let (both, others) = outer.0 e in
          let (alone, content) = inner.0 both in
          let (few, all) = ih.0 others in (ground arith, (content, all))),
      λ p.
          let few : one_if found + (one_if b.set + count bs) ≤ 1 = p.0 in
          outer.1 (inner.1 (ground arith, p.1.0), ih.1 (ground arith, p.1.1)),
    )

-- The tests after the branches.
last_tests_iff :
    (errs : List FieldError) (found vsphere disabled no_config : Bool)
    → (errs
          ++ error_if (not found) invalid "cloudProvider"
          ++ error_if (disabled && not no_config) forbidden "csiConfig"
          ++ error_if (not vsphere && not no_config) forbidden "csiConfig"
        ≡ [])
      ↔ ((errs ≡ [])
          × (found ≡ true)
          × ((no_config ≡ true) ⊎ ((vsphere ≡ true) × (disabled ≡ false))))
last_tests_iff [] found vsphere disabled no_config = ground arith
last_tests_iff (e ∷ errs) found vsphere disabled no_config = ground arith

-- One branch is set, and all are content.
one_branch_iff :
    (bs : List Branch)
    → (((validate_branches false bs).0 ≡ []) × ((validate_branches false bs).1 ≡ true))
      ↔ ((count bs ≡ 1) × All (λ b. b.errors ≡ []) bs)
one_branch_iff bs =
    let alone = validate_branches_iff false bs in
    let empty = validate_branches_none false bs in
    (
      (λ e. let (few, all) = alone.0 e.0 in (ground arith, all)),
      λ p. (alone.1 (omega arith, p.1), ground arith),
    )

module _ (decode_droplet : String → Option DropletConfig) (decode_gce : String → Option GceConfig)
    (parse_cidr : String → Cidr) where
  count-branches :
      (c : KubeOneCluster)
      → count (branches decode_droplet decode_gce parse_cidr c) ≡ providers c.cloud_provider
  count-branches c = omega arith

  -- A cloud provider is accepted exactly if one provider is set, what is checked for each provider
  -- that is set finds no error, and a configuration of the CSI driver is given only for vSphere with
  -- the bundled drivers enabled.
  pub validate_cloud_provider_spec_iff :
      (c : KubeOneCluster)
      → (validate_cloud_provider_spec decode_droplet decode_gce parse_cidr c ≡ []) ↔ (
          (providers c.cloud_provider ≡ 1)
          × All (λ b. b.errors ≡ []) (branches decode_droplet decode_gce parse_cidr c)
          × ((is_empty c.cloud_provider.csi_config ≡ true)
              ⊎ ((is_some c.cloud_provider.vsphere ≡ true)
                  × (c.cloud_provider.disable_bundled_csi_drivers ≡ false))))
  unfolding validate_cloud_provider_spec
  validate_cloud_provider_spec_iff c =
      let p = c.cloud_provider in
      let bs = branches decode_droplet decode_gce parse_cidr c in
      let tests =
        last_tests_iff (validate_branches false bs).0 (validate_branches false bs).1
          (is_some p.vsphere) p.disable_bundled_csi_drivers (is_empty p.csi_config) in
      let one = one_branch_iff bs in
      (
        (λ e.
            let (fine, found, csi) = tests.0 e in
            let (number, content) = one.0 (fine, found) in
            (sym (count-branches c) ∙ number, content, csi)),
        λ q. let (fine, found) = one.1 (count-branches c ∙ q.0, q.1) in tests.1 (fine, found, q.2),
      )
