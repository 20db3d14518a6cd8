-- ===== src/Manifests/Objects.antt =====
-- Objects and their references, and the order in which they are applied and deleted:
-- pkg/nativeclient/manifest.go.
use kubeone.Prelude.{
  ◌≡◌, true, eq_iff, str_eq_refl, arith, ℕ, String, Bool, any, List, [], ◌∷◌, reverse, ◌&&◌, leb,
  str_eq, if◌then◌else◌,
}

-- A kind of the API, independent of its version, and with its version.
pub record GroupKind : Type 0 where
  pub group : String
  pub kind : String

pub record GroupVersionKind : Type 0 where
  pub group_kind : GroupKind
  pub version : String

unfoldable pub same_kind : GroupKind → GroupKind → Bool
same_kind a b = str_eq a.group b.group && str_eq a.kind b.kind

-- `content` stands for the fields that only the server reads.
pub record Object : Type 0 where
  pub gvk : GroupVersionKind
  pub namespace : String
  pub name : String
  pub labels : List (String × String)
  pub deleting : Bool
  pub content : String

pub record ObjectRef : Type 0 where
  pub group_kind : GroupKind
  pub namespace : String
  pub name : String

unfoldable pub same_ref : ObjectRef → ObjectRef → Bool
same_ref a b =
    same_kind a.group_kind b.group_kind && (str_eq a.namespace b.namespace && str_eq a.name b.name)

abbrev pub kind_of : Object → GroupKind
kind_of o = o.gvk.group_kind

abbrev pub ref_of : Object → ObjectRef
ref_of o = record { group_kind = kind_of o; namespace = o.namespace; name = o.name }

abbrev pub crd_group_kind : GroupKind
crd_group_kind = record { group = "apiextensions.k8s.io"; kind = "CustomResourceDefinition" }

abbrev pub namespace_group_kind : GroupKind
namespace_group_kind = record { group = ""; kind = "Namespace" }

unfoldable pub apply_priority : Object → ℕ
apply_priority o =
    if same_kind (kind_of o) crd_group_kind
    then 0
    else if same_kind (kind_of o) namespace_group_kind
    then 1
    else 2

pub record Phases : Type 0 where
  pub crds : List Object
  pub namespaces : List Object
  pub rest : List Object

-- The switch in the loop of `splitPhases`, which starts from the last object here.
abbrev pub into_phase : Object → Phases → Phases
into_phase o p =
    if same_kind (kind_of o) crd_group_kind
    then record p { crds = o ∷ p.crds }
    else if same_kind (kind_of o) namespace_group_kind
    then record p { namespaces = o ∷ p.namespaces }
    else record p { rest = o ∷ p.rest }

unfoldable pub split_phases : List Object → Phases
split_phases [] = record { crds = []; namespaces = []; rest = [] }
split_phases (o ∷ os) = into_phase o (split_phases os)

-- `slices.SortStableFunc` with the priorities: an element stays ahead of its equals.
abbrev pub insert_stable : Object → List Object → List Object
insert_stable o [] = o ∷ []
insert_stable o (x ∷ xs) =
    let rest = insert_stable o xs in
    if leb (apply_priority o) (apply_priority x) then o ∷ x ∷ xs else x ∷ rest

unfoldable pub sort_for_apply : List Object → List Object
sort_for_apply [] = []
sort_for_apply (o ∷ os) = insert_stable o (sort_for_apply os)

unfoldable pub sort_for_delete : List Object → List Object
unfolding sort_for_apply
sort_for_delete os = reverse (sort_for_apply os)

-- Whether a list that stands for a Go set has a kind or a reference.
abbrev pub has_kind : GroupKind → List GroupKind → Bool
has_kind k ks = any (same_kind k) ks

abbrev pub has_ref : ObjectRef → List ObjectRef → Bool
has_ref r rs = any (same_ref r) rs

both : (a b : Bool) → (a && b) ≡ true → (a ≡ true) × (b ≡ true)
both a b h = ground arith

pub same_kind-eq : (a b : GroupKind) → same_kind a b ≡ true → a ≡ b
unfolding same_kind
same_kind-eq a b h =
    let (e, e') = both (str_eq a.group b.group) (str_eq a.kind b.kind) h in
    let g = (eq_iff a.group b.group).0 e in
    let k = (eq_iff a.kind b.kind).0 e' in λ i. record { group = g i; kind = k i }

pub same_kind_refl : (a : GroupKind) → same_kind a a ≡ true
unfolding same_kind
same_kind_refl a = let g = str_eq_refl a.group in let k = str_eq_refl a.kind in ground arith
