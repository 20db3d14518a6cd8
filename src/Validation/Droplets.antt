-- ===== src/Validation/Droplets.antt =====
-- What accepted node sets of DigitalOcean share: `validateDigitalOceanSpec` of
-- pkg/apis/kubeone/validation/validation.go.
use kubeone.Prelude.{
  ◌≤◌, String, true, false, not, ◌&&◌, Option, none, some, List, [], ◌∷◌, ◌++◌, any, length,
  append-eq-nil, All, str_eq, eq_iff, is_empty, ◌≡◌, ◌⊎◌, inl, inr, refl, ap, sym, ◌∙◌, ◌==◌, arith,
  Bool-cases, ltb,
}
use kubeone.Prelude.Runes.{byte_len, runes}
use kubeone.Api.Cloud.{DigitalOceanSpec}
use kubeone.Api.Cluster.{NodeSet}
use kubeone.Validation.Field.{error_if, one, invalid}
use kubeone.Validation.Machines.{
  DropletConfig, machine_name, last_index, supported_on_digital_ocean, is_given, turned_off,
  insert_region, validate_droplet, validate_droplet_node_set, validate_droplet_node_sets,
  validate_digital_ocean_spec, droplet_balancer,
}
use kubeone.Validation.Creatable.{Creatable, creatable}

validate_droplet_lem :
    (d : DropletConfig)
    → validate_droplet d ≡ []
    → (is_given d.token ≡ false)
      × (is_empty d.region ≡ false)
      × (is_empty d.size ≡ false)
      × (turned_off d.private_networking ≡ false)
unfolding validate_droplet
validate_droplet_lem d e = ground arith

-- What a turn of the loop without an error has found.
Decoded : Option DropletConfig → String → NodeSet → List String → Type 0
Decoded config cluster_name ns regions =
    (d : DropletConfig) × (config ≡ some d)
    × (byte_len (machine_name ns cluster_name (last_index ns)) ≤ 63)
    × (supported_on_digital_ocean ns.operating_system ≡ true)
    × (is_given d.token ≡ false)
    × (is_empty d.region ≡ false)
    × (is_empty d.size ≡ false)
    × (turned_off d.private_networking ≡ false)
    × ((validate_droplet_node_set config cluster_name ns regions).1
        ≡ insert_region d.region regions)

turn-Decoded :
    (config : Option DropletConfig) (cluster_name : String) (ns : NodeSet) (regions : List String)
    → (validate_droplet_node_set config cluster_name ns regions).0 ≡ []
    → Decoded config cluster_name ns regions
unfolding validate_droplet_node_set validate_droplet Decoded
turn-Decoded none cluster_name ns regions e =
    let long = ltb 63 (byte_len (machine_name ns cluster_name (last_index ns))) in
    let other = not (supported_on_digital_ocean ns.operating_system) in
    let first = error_if long invalid "nodeSets" ++ error_if other invalid "operatingSystem" in
    let failed = (append-eq-nil first (one invalid "cloudProviderSpec")).0 e in
    ground (arith, failed.1)
turn-Decoded (some d) cluster_name ns regions e =
    let long = ltb 63 (byte_len (machine_name ns cluster_name (last_index ns))) in
    let other = not (supported_on_digital_ocean ns.operating_system) in
    let first = error_if long invalid "nodeSets" in
    let second = error_if other invalid "operatingSystem" in
    let whole = (append-eq-nil (first ++ second) (validate_droplet d)).0 e in
    let before = (append-eq-nil first second).0 whole.0 in
    let fields = validate_droplet_lem d whole.1 in
    (
      d,
      refl,
      ground (arith, before.0),
      ground (arith, before.1),
      fields.0,
      fields.1,
      fields.2,
      fields.3,
      ground (arith, fields.1),
    )

-- A turn only adds to the regions.
turn-grows :
    (config : Option DropletConfig) (cluster_name : String) (ns : NodeSet) (regions : List String)
    → length regions ≤ length (validate_droplet_node_set config cluster_name ns regions).1
unfolding validate_droplet_node_set
turn-grows none cluster_name ns regions = ground arith
turn-grows (some d) cluster_name ns regions = ground arith

-- Whether the list is still single after a text is inserted.
insert_region-single :
    (r region : String)
    → length (insert_region r (region ∷ [])) ≤ 1
    → (r ≡ region) × (insert_region r (region ∷ []) ≡ region ∷ [])
insert_region-single r region few = elim (Bool-cases (str_eq r region)) [
  | inl same ↦ ((eq_iff r region).0 same, ground arith)
  | inr differs ↦ ground arith
]

-- The region of the load balancer is not set, or it is that of the node sets.
balancer_region :
    (balancer region : String) (regions : List String)
    → regions ≡ region ∷ []
    → error_if
        (not (is_empty balancer) && length regions == 1 && not (any (str_eq balancer) regions))
        invalid
        "region"
      ≡ []
    → (is_empty balancer ≡ true) ⊎ (balancer ≡ region)
balancer_region balancer region regions single e =
    let at_one =
      ap
        (λ rs.
          error_if (not (is_empty balancer) && length rs == 1 && not (any (str_eq balancer) rs))
            invalid "region")
        single in
    ground (arith, sym at_one ∙ e, eq_iff balancer region)

module _ (decode : String → Option DropletConfig) (cluster_name : String) where
  loop-grows :
      (nss : List NodeSet) (regions : List String)
      → length regions ≤ length (validate_droplet_node_sets decode cluster_name nss regions).1
  unfolding validate_droplet_node_sets
  loop-grows [] regions = omega arith
  loop-grows (ns ∷ nss) regions =
      let config = decode ns.cloud_provider_spec in
      let turn = turn-grows config cluster_name ns regions in
      let rest = loop-grows nss (validate_droplet_node_set config cluster_name ns regions).1 in
      omega arith

  loop-Creatable :
      (region : String) (nss : List NodeSet)
      → (validate_droplet_node_sets decode cluster_name nss (region ∷ [])).0 ≡ []
      → length (validate_droplet_node_sets decode cluster_name nss (region ∷ [])).1 ≤ 1
      → All (Creatable decode cluster_name region) nss
        × ((validate_droplet_node_sets decode cluster_name nss (region ∷ [])).1 ≡ region ∷ [])
  unfolding validate_droplet_node_sets Decoded
  loop-Creatable region [] e few = (tt, refl)
  loop-Creatable region (ns ∷ nss) e few =
      let config = decode ns.cloud_provider_spec in
      let turn = validate_droplet_node_set config cluster_name ns (region ∷ []) in
      let both =
        (append-eq-nil turn.0 (validate_droplet_node_sets decode cluster_name nss turn.1).0).0 e in
      let found = turn-Decoded config cluster_name ns (region ∷ []) both.0 in
      let (d, eq, short, os, token, named, size, net, regions) = found in
      let grows = loop-grows nss turn.1 in
      let number = ap length regions in
      let (same, single) = insert_region-single d.region region (omega arith) in
      let kept : turn.1 ≡ region ∷ [] = regions ∙ single in
      let errors = ap (λ rs. (validate_droplet_node_sets decode cluster_name nss rs).0) kept in
      let last = ap (λ rs. (validate_droplet_node_sets decode cluster_name nss rs).1) kept in
      let still = ap length last in
      let (all, end) = loop-Creatable region nss (sym errors ∙ both.1) (omega arith) in
      ((creatable decode cluster_name region ns d short os eq same token size net, all), last ∙ end)

  loop_start-Creatable :
      (ns : NodeSet) (nss : List NodeSet)
      → (validate_droplet_node_sets decode cluster_name (ns ∷ nss) []).0 ≡ []
      → length (validate_droplet_node_sets decode cluster_name (ns ∷ nss) []).1 ≤ 1
      → (region : String) × (is_empty region ≡ false)
        × All (Creatable decode cluster_name region) (ns ∷ nss)
        × ((validate_droplet_node_sets decode cluster_name (ns ∷ nss) []).1 ≡ region ∷ [])
  unfolding validate_droplet_node_sets Decoded
  loop_start-Creatable ns nss e few =
      let config = decode ns.cloud_provider_spec in
      let turn = validate_droplet_node_set config cluster_name ns [] in
      let both =
        (append-eq-nil turn.0 (validate_droplet_node_sets decode cluster_name nss turn.1).0).0 e in
      let found = turn-Decoded config cluster_name ns [] both.0 in
      let (d, eq, short, os, token, named, size, net, kept) = found in
      let errors = ap (λ rs. (validate_droplet_node_sets decode cluster_name nss rs).0) kept in
      let last = ap (λ rs. (validate_droplet_node_sets decode cluster_name nss rs).1) kept in
      let still = ap length last in
      let (all, end) = loop-Creatable d.region nss (sym errors ∙ both.1) (omega arith) in
      (
        d.region,
        named,
        (creatable decode cluster_name d.region ns d short os eq refl token size net, all),
        last ∙ end,
      )

  -- The droplets of accepted node sets can all be created, in one region that is not empty and is
  -- that of the load balancer if this has one: no replica of a node set has a name of more than 63
  -- bytes, the operating system is Ubuntu or Rocky Linux, and the provider spec decodes to that
  -- region, a size, no token of any source and no private networking that is turned off.
  pub validate_digital_ocean_spec-Creatable :
      (spec : DigitalOceanSpec) (ns : NodeSet) (nss : List NodeSet)
      → validate_digital_ocean_spec decode spec cluster_name (ns ∷ nss) ≡ []
      → (region : String) × (is_empty region ≡ false)
        × All (Creatable decode cluster_name region) (ns ∷ nss)
        × ((is_empty (droplet_balancer spec).region ≡ true)
            ⊎ ((droplet_balancer spec).region ≡ region))
  unfolding validate_digital_ocean_spec validate_droplet_node_sets Decoded
  validate_digital_ocean_spec-Creatable spec ns nss e =
      let lb = droplet_balancer spec in
      let loop = validate_droplet_node_sets decode cluster_name (ns ∷ nss) [] in
      let head =
        error_if (ltb 255 (byte_len (runes lb.name))) invalid "name"
        ++ error_if (ltb 100 lb.size_unit) invalid "sizeUnit" in
      let many = error_if (ltb 1 (length loop.1)) invalid "nodeSets" in
      let elsewhere =
        error_if
          (not (is_empty lb.region) && length loop.1 == 1 && not (any (str_eq lb.region) loop.1))
          invalid "region" in
      let outer = (append-eq-nil (head ++ loop.0 ++ many) elsewhere).0 e in
      let middle = (append-eq-nil (head ++ loop.0) many).0 outer.0 in
      let inner = (append-eq-nil head loop.0).0 middle.0 in
      let (region, named, all, single) =
        loop_start-Creatable ns nss inner.1 (ground (arith, middle.1)) in
      (region, named, all, balancer_region lb.region region loop.1 single outer.1)
