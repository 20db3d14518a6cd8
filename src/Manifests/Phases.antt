-- ===== src/Manifests/Phases.antt =====
-- The order of deletion is that of the phases of an apply, turned round:
-- pkg/nativeclient/manifest.go.
use kubeone.Prelude.{
  ◌<◌, ◌≤◌, All-map, All-append, List, [], ◌∷◌, ◌++◌, All, reverse, ◌≡◌, refl, ap, sym, ◌∙◌, arith,
  append_assoc, reverse-append,
}
use kubeone.Manifests.Objects.{
  Object, Phases, into_phase, apply_priority, split_phases, insert_stable, sort_for_apply,
  sort_for_delete,
}

-- The objects of the three phases one after another.
abbrev pub in_phases : Phases → List Object
in_phases p = p.crds ++ p.namespaces ++ p.rest

-- The three lists of a split hold the objects of their priority.
abbrev HasPriorities : Phases → Type 0
HasPriorities p =
    All (λ o. apply_priority o ≡ 0) p.crds
    × All (λ o. apply_priority o ≡ 1) p.namespaces
    × All (λ o. apply_priority o ≡ 2) p.rest

into_phase-HasPriorities :
    (o : Object) (p : Phases) → HasPriorities p → HasPriorities (into_phase o p)
unfolding apply_priority
into_phase-HasPriorities o p (c, n, r) = ground arith

split_phases-HasPriorities : (os : List Object) → HasPriorities (split_phases os)
unfolding split_phases
split_phases-HasPriorities [] = (tt, tt, tt)
split_phases-HasPriorities (o ∷ os) =
    into_phase-HasPriorities o (split_phases os) (split_phases-HasPriorities os)

-- An object goes behind those with a smaller priority and ahead of the others.
insert_stable-append :
    (o : Object) (cs xs : List Object)
    → All (λ x. apply_priority x < apply_priority o) cs
    → insert_stable o (cs ++ xs) ≡ cs ++ insert_stable o xs
insert_stable-append o [] xs a = refl
insert_stable-append o (c ∷ cs) xs (lt, a) =
    ground (arith, ap (λ r. c ∷ r) (insert_stable-append o cs xs a))

insert_stable-front :
    (o : Object) (xs : List Object)
    → All (λ x. apply_priority o ≤ apply_priority x) xs
    → insert_stable o xs ≡ o ∷ xs
insert_stable-front o [] a = refl
insert_stable-front o (x ∷ xs) (le, a) = ground arith

insert_crd : (o : Object) (xs : List Object) → apply_priority o ≡ 0 → insert_stable o xs ≡ o ∷ xs
insert_crd o [] h = refl
insert_crd o (x ∷ xs) h = ground arith

insert_namespace :
    (o : Object) (p : Phases)
    → HasPriorities p
    → apply_priority o ≡ 1
    → insert_stable o (in_phases p) ≡ p.crds ++ (o ∷ p.namespaces) ++ p.rest
insert_namespace o p (c, n, r) h =
    ap (insert_stable o) (append_assoc p.crds p.namespaces p.rest)
    ∙ insert_stable-append o p.crds _ (All-map (λ x e. omega arith) p.crds c)
    ∙ ap (λ l. p.crds ++ l)
        (insert_stable-front o (p.namespaces ++ p.rest) (
          All-append (λ x. apply_priority o ≤ apply_priority x) p.namespaces p.rest
            (All-map (λ x e. omega arith) p.namespaces n) (All-map (λ x e. omega arith) p.rest r)))
    ∙ sym (append_assoc p.crds (o ∷ p.namespaces) p.rest)

insert_other :
    (o : Object) (p : Phases)
    → HasPriorities p
    → apply_priority o ≡ 2
    → insert_stable o (in_phases p) ≡ p.crds ++ p.namespaces ++ (o ∷ p.rest)
insert_other o p (c, n, r) h =
    insert_stable-append o (p.crds ++ p.namespaces) p.rest (
      All-append (λ x. apply_priority x < apply_priority o) p.crds p.namespaces
        (All-map (λ x e. omega arith) p.crds c) (All-map (λ x e. omega arith) p.namespaces n))
    ∙ ap (λ l. p.crds ++ p.namespaces ++ l)
        (insert_stable-front o p.rest (All-map (λ x e. omega arith) p.rest r))

insert_stable-in_phases :
    (o : Object) (p : Phases)
    → HasPriorities p
    → insert_stable o (in_phases p) ≡ in_phases (into_phase o p)
unfolding apply_priority
insert_stable-in_phases o p h =
    let crd = insert_crd o (in_phases p) in
    let ns = insert_namespace o p h in let other = insert_other o p h in ground arith

sort_for_apply-in_phases : (os : List Object) → sort_for_apply os ≡ in_phases (split_phases os)
unfolding sort_for_apply split_phases
sort_for_apply-in_phases [] = refl
sort_for_apply-in_phases (o ∷ os) =
    ap (insert_stable o) (sort_for_apply-in_phases os)
    ∙ insert_stable-in_phases o (split_phases os) (split_phases-HasPriorities os)

-- Deletion goes through the objects in the exact reverse of the order in which an apply does:
-- first all objects but namespaces and custom resource definitions, then the namespaces, then the
-- definitions, each group from its last object to its first.
pub sort_for_delete-reverse_phases :
    (os : List Object)
    → let p = split_phases os in
      sort_for_delete os ≡ reverse p.rest ++ (reverse p.namespaces ++ reverse p.crds)
unfolding sort_for_delete
sort_for_delete-reverse_phases os =
    let p = split_phases os in
    ap reverse (sort_for_apply-in_phases os)
    ∙ reverse-append (p.crds ++ p.namespaces) p.rest
    ∙ ap (λ l. reverse p.rest ++ l) (reverse-append p.crds p.namespaces)
