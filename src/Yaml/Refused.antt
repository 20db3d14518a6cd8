-- ===== src/Yaml/Refused.antt =====
-- Edits that are refused: pkg/yamled/document.go.
use kubeone.Prelude.{
  Bool, true, false, Option, none, some, inl, inr, ◌⊎◌, ◌≡◌, refl, sym, ap, ◌∙◌, subst,
}
use kubeone.Prelude.Int.{pos, negsuc}
use kubeone.Fail.Outcome.{Outcome, ok, err, fault}
use kubeone.Yaml.Nodes.{
  Node, null, scalar, array, string_map, map_slice, map_pointer, no_nodes, no_entries, Step, by_key,
  by_index, by_other, NodePath, top, ◌▸◌,
}
use kubeone.Yaml.Document.{
  Document, descend, descend_from, get, set_root, new_parent, put, store_parent, after_creation,
  create_parent, put_below, set_internal, set, or_nil,
}
use kubeone.Yaml.RoundTrip.{
  IsNamed, IsStorable, IsNamed-parent, IsStorable-none, IsStorable-put, set_internal-get,
}

-- Where a step finds a value, another can be put.
put-total :
    (m : Node) (s : Step) (n v : Node)
    → descend m s ≡ some n
    → (child : Node) × (put m s v ≡ ok (some child))
unfolding descend put
put-total (array ns) (by_index (pos i)) n v h = (_, refl)
put-total (string_map es) (by_key k) n v h = (_, refl)
put-total (map_slice es) (by_key k) n v h = (_, refl)
put-total null s n v h = absurd (cc h)
put-total (scalar t) s n v h = absurd (cc h)
put-total (map_pointer es) s n v h = absurd (cc h)
put-total (array ns) (by_index (negsuc i)) n v h = absurd (cc h)
put-total (array ns) (by_key k) n v h = absurd (cc h)
put-total (array ns) by_other n v h = absurd (cc h)
put-total (string_map es) (by_index i) n v h = absurd (cc h)
put-total (string_map es) by_other n v h = absurd (cc h)
put-total (map_slice es) (by_index i) n v h = absurd (cc h)
put-total (map_slice es) by_other n v h = absurd (cc h)

descend_from-some :
    (o : Option Node) (s : Step) (n : Node)
    → descend_from o s ≡ some n
    → (m : Node) × (o ≡ some m) × (descend m s ≡ some n)
descend_from-some none s n h = absurd (cc h)
descend_from-some (some m) s n h = (m, refl, h)

-- A write to a place that has a value succeeds.
set_internal-total :
    (p : NodePath) (v n : Node) (d : Document)
    → IsStorable p v
    → get p d ≡ some n
    → (d' : Document) × (set_internal p v d ≡ (ok true, d'))
unfolding set_internal get IsStorable set_root
set_internal-total top v n d (es, e) h = (_, ap (λ x. set_root x d) e)
set_internal-total (p ▸ s) v n d st h =
    let (m, g, at) = descend_from-some (get p d) s n h in
    let (child, e) = put-total m s n v at in
    let (d', done) = set_internal-total p child m d (IsStorable-put p d m s v child g e) g in
    (
      d',
      ap (λ o. put_below (set_internal p) p s v o d) g
          ∙ ap (λ r. store_parent (set_internal p) r d) e
          ∙ done,
    )

-- The value goes into a container that was made for it, or its index is negative.
put_created :
    (s : Step) (e v : Node)
    → new_parent s ≡ some e
    → ((child : Node) × (put e s v ≡ ok (some child))) ⊎ (put e s v ≡ fault)
unfolding new_parent put
put_created (by_key k) e v h = inl (_, ap (λ x. put x (by_key k) v) (sym (parent e h)))
  where
    parent : (e : Node) → some (string_map no_entries) ≡ some e → string_map no_entries ≡ e
    parent e h = cc h
put_created (by_index (pos i)) e v h =
    inl (_, ap (λ x. put x (by_index (pos i)) v) (sym (parent e h)))
  where
    parent : (e : Node) → some (array no_nodes) ≡ some e → array no_nodes ≡ e
    parent e h = cc h
put_created (by_index (negsuc i)) e v h =
    inr (ap (λ x. put x (by_index (negsuc i)) v) (sym (parent e h)))
  where
    parent : (e : Node) → some (array no_nodes) ≡ some e → array no_nodes ≡ e
    parent e h = cc h
put_created by_other e v h = absurd (cc h)

both_ends : {d d' : Document} → ¬ ◌≡◌ {A = Outcome Bool × Document} (ok true, d) (ok false, d')
both_ends h = cc h

no_fault : {d d' : Document} → ¬ ◌≡◌ {A = Outcome Bool × Document} (fault, d) (ok false, d')
no_fault h = cc h

module _ (p : NodePath) (s : Step) (v : Node) (named : IsNamed p)
    (below : (n : Node) (d d' : Document) → set_internal p n d ≡ (ok false, d') → d' ≡ d) where
  store_parent-refused :
      (d d' : Document) (m : Node) (r : Outcome (Option Node))
      → get p d ≡ some m
      → put m s v ≡ r
      → store_parent (set_internal p) r d ≡ (ok false, d')
      → d' ≡ d
  store_parent-refused d d' m (ok none) g e h = ap (λ x. x.1) (sym h)
  store_parent-refused d d' m (ok (some n)) g e h = below n d d' h
  store_parent-refused d d' m (err x) g e h = absurd (cc h)
  store_parent-refused d d' m fault g e h = absurd (cc h)

  after_creation-refused :
      (n : Node) (d d' d'' : Document) (r : Outcome Bool)
      → new_parent s ≡ some n
      → get p d ≡ none
      → set_internal p n d ≡ (r, d')
      → after_creation (set_internal p) p s v r d' ≡ (ok false, d'')
      → d'' ≡ d
  after_creation-refused n d d' d'' (ok true) made g e h =
      let b = set_internal-get p n d d' named (IsStorable-none p d n g) e in
      let k =
        subst (λ m. store_parent (set_internal p) (put m s v) d' ≡ (ok false, d'')) (ap or_nil b)
          h in
      elim (put_created s n v made) [
        | inl (child, fits) ↦
            let (last, done) =
              set_internal-total p child n d' (IsStorable-put p d' n s v child b fits) b in
            absurd (
              both_ends (
                sym done
                ∙ (subst (λ x. store_parent (set_internal p) x d' ≡ (ok false, d'')) fits k)))
        | inr faults ↦
            absurd (
              no_fault (subst (λ x. store_parent (set_internal p) x d' ≡ (ok false, d'')) faults k))
      ]
  after_creation-refused n d d' d'' (ok false) made g e h = ap (λ x. x.1) (sym h) ∙ below n d d' e
  after_creation-refused n d d' d'' (err x) made g e h = absurd (cc h)
  after_creation-refused n d d' d'' fault made g e h = absurd (cc h)

  create_parent-refused :
      (d d' : Document) (o : Option Node)
      → new_parent s ≡ o
      → get p d ≡ none
      → create_parent (set_internal p) p s v o d ≡ (ok false, d')
      → d' ≡ d
  create_parent-refused d d' none made g h = ap (λ x. x.1) (sym h)
  create_parent-refused d d' (some n) made g h =
      after_creation-refused n d (set_internal p n d).1 d' (set_internal p n d).0 made g refl h

  put_below-refused :
      (d d' : Document) (o : Option Node)
      → get p d ≡ o
      → put_below (set_internal p) p s v o d ≡ (ok false, d')
      → d' ≡ d
  put_below-refused d d' none g h = create_parent-refused d d' (new_parent s) refl g h
  put_below-refused d d' (some m) g h = store_parent-refused d d' m (put m s v) g refl h

set_internal-refused :
    (p : NodePath) (v : Node) (d d' : Document)
    → IsNamed p
    → set_internal p v d ≡ (ok false, d')
    → d' ≡ d
unfolding set_internal set_root
set_internal-refused top null d d' named h = ap (λ x. x.1) (sym h)
set_internal-refused top (scalar t) d d' named h = ap (λ x. x.1) (sym h)
set_internal-refused top (array ns) d d' named h = ap (λ x. x.1) (sym h)
set_internal-refused top (string_map es) d d' named h = absurd (cc h)
set_internal-refused top (map_slice es) d d' named h = absurd (cc h)
set_internal-refused top (map_pointer es) d d' named h = absurd (cc h)
set_internal-refused (p ▸ s) v d d' named h =
    let (np, ns) = IsNamed-parent p s named in
    put_below-refused p s v np (λ n d d' h. set_internal-refused p n d d' np h) d d' (get p d) refl
      h

-- A set that returns false leaves the document as it was, also where it would have had to create
-- parents first. The path has no empty key.
pub set-refused :
    (p : NodePath) (v : Node) (d d' : Document) → IsNamed p → set p v d ≡ (ok false, d') → d' ≡ d
unfolding set
set-refused top v d d' named h = ap (λ x. x.1) (sym h)
set-refused (p ▸ s) v d d' named h = set_internal-refused (p ▸ s) v d d' named h
