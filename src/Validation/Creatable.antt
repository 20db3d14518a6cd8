-- ===== src/Validation/Creatable.antt =====
-- When the droplets of a node set can be created: `validateDigitalOceanSpec` of
-- pkg/apis/kubeone/validation/validation.go.
use kubeone.Prelude.{
  ◌≤◌, ◌<◌, ℕ, Bool, ◌≢◌, String, true, false, Option, none, some, ◌∷◌, ◌++◌, eq_iff, is_empty, ◌≡◌,
  ◌⊎◌, inl, inr, refl, arith,
}
use kubeone.Prelude.Int.{ℤ, pos, negsuc, pos_part, minus_ℕ}
use kubeone.Api.Host.{
  OperatingSystemName, ubuntu, rockylinux, debian, centos, rhel, flatcar, unknown, other,
}
use kubeone.Prelude.Runes.{decimal, decimal_mono, byte_len-append, byte_len, runes}
use kubeone.Api.Cluster.{NodeSet}
use kubeone.Validation.Machines.{
  ConfigVar, DropletConfig, machine_name, last_index, supported_on_digital_ocean, is_given,
  turned_off,
}

-- The droplets of the node set can be created in the region, with the credentials of KubeOne: the
-- names of all its replicas are short enough for a host, machine-controller supports the operating
-- system, and the provider spec decodes to that region and a size, to no token of any source, and
-- to private networking that is not turned off.
abbrev pub Creatable : (String → Option DropletConfig) → String → String → NodeSet → Type 0
Creatable decode cluster_name region ns =
    ((i : ℕ) → i < pos_part ns.replicas → byte_len (machine_name ns cluster_name i) ≤ 63)
    × ((ns.operating_system ≡ ubuntu) ⊎ (ns.operating_system ≡ rockylinux))
    × ((d : DropletConfig) × (decode ns.cloud_provider_spec ≡ some d)
        × (d.region ≡ region)
        × (d.size ≢ "")
        × (d.token.value ≡ "")
        × (d.token.secret_key_ref_name ≡ "")
        × (d.token.config_map_key_ref_name ≡ "")
        × (d.private_networking ≢ some false))

-- The name of a replica is no longer than that of a later one.
machine_name_mono :
    (ns : NodeSet) (cluster_name : String) (i j : ℕ)
    → i ≤ j
    → byte_len (machine_name ns cluster_name i) ≤ byte_len (machine_name ns cluster_name j)
unfolding machine_name
machine_name_mono ns cluster_name i j le =
    let stem = runes cluster_name ++ b'-' ∷ runes ns.name in
    let first = byte_len-append stem (b'-' ∷ decimal i) in
    let second = byte_len-append stem (b'-' ∷ decimal j) in
    omega (arith, first, second, decimal_mono i j le)

last_index-greatest : (r : ℤ) (i : ℕ) → i < pos_part r → i ≤ pos_part (minus_ℕ r 1)
last_index-greatest (pos n) i lt = ground (arith, lt)
last_index-greatest (negsuc n) i lt = ground (arith, lt)

supported :
    (os : OperatingSystemName)
    → supported_on_digital_ocean os ≡ true
    → (os ≡ ubuntu) ⊎ (os ≡ rockylinux)
supported ubuntu e = inl refl
supported rockylinux e = inr refl
supported debian e = ground (arith, e)
supported centos e = ground (arith, e)
supported rhel e = ground (arith, e)
supported flatcar e = ground (arith, e)
supported unknown e = ground (arith, e)
supported (other name) e = ground (arith, e)

not_given :
    (v : ConfigVar)
    → is_given v ≡ false
    → (v.value ≡ "") × (v.secret_key_ref_name ≡ "") × (v.config_map_key_ref_name ≡ "")
not_given v e = (
  (eq_iff v.value "").0 (ground (arith, e)),
  (eq_iff v.secret_key_ref_name "").0 (ground (arith, e)),
  (eq_iff v.config_map_key_ref_name "").0 (ground (arith, e)),
)

not_off : (b : Option Bool) → turned_off b ≡ false → b ≢ some false
not_off none e same = ground (arith, same)
not_off (some b) e same = ground (arith, e, same)

pub creatable :
    (decode : String → Option DropletConfig) (cluster_name region : String) (ns : NodeSet)
    (d : DropletConfig)
    → byte_len (machine_name ns cluster_name (last_index ns)) ≤ 63
    → supported_on_digital_ocean ns.operating_system ≡ true
    → decode ns.cloud_provider_spec ≡ some d
    → d.region ≡ region
    → is_given d.token ≡ false
    → is_empty d.size ≡ false
    → turned_off d.private_networking ≡ false
    → Creatable decode cluster_name region ns
creatable decode cluster_name region ns d short os eq same token size net =
    let (value, secret, config) = not_given d.token token in
    (
      (λ i lt.
          let below = last_index-greatest ns.replicas i lt in
          let shorter = machine_name_mono ns cluster_name i (last_index ns) below in
          omega (arith, short, shorter)),
      supported ns.operating_system os,
      (
        d,
        eq,
        same,
        (λ e. ground (arith, size, (eq_iff d.size "").1 e)),
        value,
        secret,
        config,
        not_off d.private_networking net,
      ),
    )
