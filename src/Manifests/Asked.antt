-- ===== src/Manifests/Asked.antt =====
-- The kinds in which a prune looks: `pruneGVKs` of pkg/nativeclient/applier.go.
use kubeone.Prelude.{
  Bool, true, false, Option, none, some, List, [], ◌∷◌, ◌++◌, map, All, All-map, All-append, ◌≡◌,
  refl, subst, arith, if◌then◌else◌,
}
use kubeone.Manifests.Objects.{
  GroupKind, GroupVersionKind, Object, same_kind, same_kind-eq, same_kind_refl, has_kind,
  crd_group_kind,
}
use kubeone.Manifests.Client.{Client}
use kubeone.Manifests.Kinds.{
  Found, add, add_all, add_requested, add_mapped, insert_kind, difference, prune_gvks,
  default_prune_types,
}

-- Kinds are only pruned as the definitions' when that is asked for.
abbrev pub Asked : List GroupVersionKind → GroupVersionKind → Type 0
Asked prune_types g =
    same_kind g.group_kind crd_group_kind ≡ true
    → has_kind crd_group_kind (map (λ p. p.group_kind) prune_types) ≡ true

-- The definitions' kind counts as seen, and every kind found so far was asked for.
record Guarded (prune_types : List GroupVersionKind) (f : Found) : Type 0 where
  crd_seen : has_kind crd_group_kind f.seen ≡ true
  asked : All (Asked prune_types) f.found

add_fresh :
    (prune_types : List GroupVersionKind) (f : Found) (g : GroupVersionKind)
    → Guarded prune_types f
    → has_kind g.group_kind f.seen ≡ false
    → Asked prune_types g
add_fresh prune_types f g h e same =
    let k = same_kind-eq g.group_kind crd_group_kind same in
    let clash = subst (λ x. has_kind x f.seen ≡ false) k e in ground (arith, h.crd_seen)

add-Guarded :
    (prune_types : List GroupVersionKind) (f : Found) (g : GroupVersionKind)
    → Guarded prune_types f
    → Guarded prune_types (add f g)
unfolding add
add-Guarded prune_types f g h = go (has_kind g.group_kind f.seen) refl
  where
    go :
        (b : Bool)
        → has_kind g.group_kind f.seen ≡ b
        → Guarded prune_types
            (if b then f else record { seen = g.group_kind ∷ f.seen; found = f.found ++ (g ∷ []) })
    go true e = h
    go false e = record {
      crd_seen = ground (arith, h.crd_seen);
      asked =
          All-append (Asked prune_types) f.found (g ∷ []) h.asked
            (add_fresh prune_types f g h e, tt);
    }

add_all-Guarded :
    (prune_types : List GroupVersionKind) (f : Found) (gs : List GroupVersionKind)
    → Guarded prune_types f
    → Guarded prune_types (add_all f gs)
unfolding add_all
add_all-Guarded prune_types f [] h = h
add_all-Guarded prune_types f (g ∷ gs) h =
    add_all-Guarded prune_types (add f g) gs (add-Guarded prune_types f g h)

-- The explicit types come before the definitions' kind is marked as seen.
add_all_explicit :
    (prune_types : List GroupVersionKind) (f : Found) (gs : List GroupVersionKind)
    → All (Asked prune_types) f.found
    → All (Asked prune_types) gs
    → All (Asked prune_types) (add_all f gs).found
unfolding add_all add
add_all_explicit prune_types f [] h a = h
add_all_explicit prune_types f (g ∷ gs) h (p, a) =
    add_all_explicit prune_types (add f g) gs (added (has_kind g.group_kind f.seen)) a
  where
    added :
        (b : Bool)
        → All
            (Asked prune_types)
            (if b
              then f
              else record { seen = g.group_kind ∷ f.seen; found = f.found ++ (g ∷ []) }).found
    added true = h
    added false = All-append (Asked prune_types) f.found (g ∷ []) h (p, tt)

listed :
    (gs : List GroupVersionKind)
    → All (λ g. has_kind g.group_kind (map (λ p. p.group_kind) gs) ≡ true) gs
listed [] = tt
listed (g ∷ gs) =
    let same = same_kind_refl g.group_kind in
    (ground arith, All-map (λ x e. ground arith) gs (listed gs))

all-Asked : (gs : List GroupVersionKind) → All (Asked gs) gs
all-Asked gs =
    All-map
      (λ g e same.
        subst (λ k. has_kind k (map (λ p. p.group_kind) gs) ≡ true)
          (same_kind-eq g.group_kind crd_group_kind same) e)
      gs (listed gs)

pub has_kind-insert_kind :
    (k : GroupKind) (ks : List GroupKind) → has_kind k (insert_kind k ks) ≡ true
unfolding insert_kind
has_kind-insert_kind k ks = let same = same_kind_refl k in ground arith

add_requested-Guarded :
    (prune_types : List GroupVersionKind) (os : List Object)
    → Guarded prune_types (add_requested prune_types os)
unfolding add_requested
add_requested-Guarded prune_types os =
    let explicit = add_all (record { seen = []; found = [] }) prune_types in
    add_all-Guarded prune_types
      (record explicit { seen = insert_kind crd_group_kind explicit.seen })
      (default_prune_types ++ map (λ o. o.gvk) os)
      record {
        crd_seen = has_kind-insert_kind crd_group_kind explicit.seen;
        asked = add_all_explicit prune_types _ prune_types tt (all-Asked prune_types);
      }

module _ {T : Type 0} (c : Client T) where
  add_mapped-Guarded :
      (prune_types : List GroupVersionKind) (ks : List GroupKind) (f : Found) (t : T)
      → Guarded prune_types f
      → Guarded prune_types (add_mapped c f ks t).0
  unfolding add_mapped
  add_mapped-Guarded prune_types [] f t h = h
  add_mapped-Guarded prune_types (k ∷ ks) f t h =
      add_mapped-Guarded prune_types ks _ (c.rest_mapping k t).1 (mapped (c.rest_mapping k t).0)
    where
      mapped :
          (m : Option GroupVersionKind)
          → Guarded prune_types (elim m as (λ _. Found) [ none ↦ f | some g ↦ add f g ])
      mapped none = h
      mapped (some g) = add-Guarded prune_types f g h

  pub prune_gvks-Asked :
      (sorted : List GroupKind → List GroupKind) (os : List Object) (previous : List GroupKind)
      (prune_types : List GroupVersionKind) (t : T)
      → All (Asked prune_types) (prune_gvks c sorted os previous prune_types t).0
  unfolding prune_gvks
  prune_gvks-Asked sorted os previous prune_types t =
      let f = add_requested prune_types os in
      (add_mapped-Guarded prune_types (sorted (difference previous f.seen)) f t
        (add_requested-Guarded prune_types os)).asked
