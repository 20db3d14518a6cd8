-- ===== src/Manifests/KindSets.antt =====
-- The sets of kinds of pkg/nativeclient/inventory.go.
use kubeone.Prelude.{Bool, true, false, List, [], ◌∷◌, map, All, All-map, ◌≡◌, arith, if◌then◌else◌}
use kubeone.Manifests.Objects.{
  GroupKind, Object, Phases, kind_of, same_kind, has_kind, into_phase, split_phases, crd_group_kind,
  namespace_group_kind,
}
use kubeone.Manifests.Kinds.{insert_kind, union, group_kinds}
use kubeone.Manifests.Asked.{has_kind-insert_kind}

pub has_kind-insert_kind_of :
    (k j : GroupKind) (ks : List GroupKind)
    → has_kind k ks ≡ true
    → has_kind k (insert_kind j ks) ≡ true
unfolding insert_kind
has_kind-insert_kind_of k j ks h = ground arith

-- A union has the kinds of both sets.
pub has_kind-union :
    (k : GroupKind) (js ks : List GroupKind)
    → has_kind k ks ≡ true
    → has_kind k (union js ks) ≡ true
unfolding union
has_kind-union k [] ks h = h
has_kind-union k (j ∷ js) ks h =
    has_kind-insert_kind_of k j (union js ks) (has_kind-union k js ks h)

in_union :
    (os : List Object)
    → All (λ o. has_kind (kind_of o) (union (map (λ o. kind_of o) os) []) ≡ true) os
unfolding union
in_union [] = tt
in_union (o ∷ os) =
    let rest = union (map (λ o. kind_of o) os) [] in
    (
      has_kind-insert_kind (kind_of o) rest,
      All-map (λ x e. has_kind-insert_kind_of (kind_of x) (kind_of o) rest e) os (in_union os),
    )

-- The kinds of the objects have the kind of each.
pub has_kind-group_kinds :
    (os : List Object) → All (λ o. has_kind (kind_of o) (group_kinds os) ≡ true) os
unfolding group_kinds
has_kind-group_kinds os = in_union os

-- What holds of all objects holds of those of each phase.
abbrev pub AllPhases : (Object → Type 0) → Phases → Type 0
AllPhases P p = All P p.crds × All P p.namespaces × All P p.rest

into_phase-All :
    (P : Object → Type 0) (o : Object) (p : Phases)
    → P o
    → AllPhases P p
    → AllPhases P (into_phase o p)
into_phase-All P o p h (c, n, r) =
    placed (same_kind (kind_of o) crd_group_kind) (same_kind (kind_of o) namespace_group_kind)
  where
    placed :
        (crd ns : Bool)
        → AllPhases P (
            if crd
            then record p { crds = o ∷ p.crds }
            else if ns
            then record p { namespaces = o ∷ p.namespaces }
            else record p { rest = o ∷ p.rest })
    placed true ns = ((h, c), n, r)
    placed false true = (c, (h, n), r)
    placed false false = (c, n, (h, r))

pub split_phases-All :
    (P : Object → Type 0) (os : List Object) → All P os → AllPhases P (split_phases os)
unfolding split_phases
split_phases-All P [] a = (tt, tt, tt)
split_phases-All P (o ∷ os) (h, a) =
    into_phase-All P o (split_phases os) h (split_phases-All P os a)
