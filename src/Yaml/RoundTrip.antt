-- ===== src/Yaml/RoundTrip.antt =====
-- What is read after a value has been set: pkg/yamled/document.go.
use kubeone.Prelude.{
  ℕ, zero, suc, String, Bool, true, false, Option, none, some, is_empty, str_eq, str_eq_refl,
  eq_iff, Bool-cases, inl, inr, ◌≡◌, refl, sym, ap, ◌∙◌, subst, arith,
}
use kubeone.Prelude.Int.{pos, negsuc}
use kubeone.Fail.Outcome.{Outcome, ok, err, fault}
use kubeone.Yaml.Nodes.{
  Key, text_key, other_key, same_key, Node, null, scalar, array, string_map, map_slice, map_pointer,
  Nodes, no_nodes, node, Entries, no_entries, entry, Step, by_key, by_index, by_other, NodePath,
  top, ◌▸◌, nth, put_nth, set_value_in_map_slice, map_slice_get,
}
use kubeone.Yaml.Document.{
  Document, real_item, find_item, descend, descend_from, get, set_root, new_parent, put,
  store_parent, after_creation, create_parent, put_below, set_internal, set, or_nil,
}

-- A step by the empty key finds the first item whose key is no text; paths without one are named.
abbrev pub IsNamed : NodePath → Type 0
IsNamed top = Unit
IsNamed (p ▸ by_key k) = IsNamed p × (is_empty k ≡ false)
IsNamed (p ▸ by_index i) = IsNamed p
IsNamed (p ▸ by_other) = IsNamed p

abbrev pub IsNamedStep : Step → Type 0
IsNamedStep (by_key k) = is_empty k ≡ false
IsNamedStep _ = Unit

pub IsNamed-parent : (p : NodePath) (s : Step) → IsNamed (p ▸ s) → IsNamed p × IsNamedStep s
IsNamed-parent p (by_key k) (h, e) = (h, e)
IsNamed-parent p (by_index i) h = (h, tt)
IsNamed-parent p by_other h = (h, tt)

nth-put_nth : (i : ℕ) (v : Node) (ns : Nodes) → nth i (put_nth i v ns) ≡ some v
unfolding nth put_nth
nth-put_nth zero v no_nodes = refl
nth-put_nth zero v (node n ns) = refl
nth-put_nth (suc i) v no_nodes = nth-put_nth i v no_nodes
nth-put_nth (suc i) v (node n ns) = nth-put_nth i v ns

empty-ne : (k : String) → is_empty k ≡ false → str_eq "" k ≡ false
empty-ne k h = elim (Bool-cases (str_eq "" k)) [
  | inr e ↦ e
  | inl e ↦
      let same = subst (λ x. str_eq x "" ≡ true) ((eq_iff "" k).0 e) (str_eq_refl "") in
      ground (arith)
]

-- An item is found under a text that is not empty exactly if its key is that text.
real_item_named :
    (k : String) (k' : Key)
    → is_empty k ≡ false
    → str_eq (real_item k') k ≡ same_key k' (text_key k)
unfolding same_key
real_item_named k (text_key k') h = refl
real_item_named k (other_key k') h = empty-ne k h

map_slice_get-set_value :
    (k : String) (v : Node) (es : Entries)
    → map_slice_get (text_key k) (set_value_in_map_slice (text_key k) v es) ≡ some v
unfolding map_slice_get set_value_in_map_slice same_key
map_slice_get-set_value k v no_entries = let e = str_eq_refl k in ground arith
map_slice_get-set_value k v (entry k' v' es) =
    let rest = map_slice_get-set_value k v es in ground arith

find_item-set_value :
    (k : String) (v : Node) (es : Entries)
    → is_empty k ≡ false
    → find_item k (set_value_in_map_slice (text_key k) v es) ≡ some v
unfolding find_item set_value_in_map_slice
find_item-set_value k v no_entries h = let e = str_eq_refl k in ground arith
find_item-set_value k v (entry k' v' es) h =
    let rest = find_item-set_value k v es h in let named = real_item_named k k' h in ground arith

ok-injective : (a b : Node) → ok (some a) ≡ ok (some b) → a ≡ b
ok-injective a b e = cc e

some-injective : (a b : Node) → some b ≡ some a → a ≡ b
some-injective a b e = cc e

-- What was put under a step is found there.
pub descend-put :
    (m : Node) (s : Step) (v n : Node)
    → IsNamedStep s
    → put m s v ≡ ok (some n)
    → descend n s ≡ some v
unfolding put descend
descend-put (array ns) (by_index (pos i)) v n h e =
    subst (λ x. descend x (by_index (pos i)) ≡ some v) (ok-injective _ _ e) (nth-put_nth i v ns)
descend-put (string_map es) (by_key k) v n h e =
    subst (λ x. descend x (by_key k) ≡ some v) (ok-injective _ _ e) (map_slice_get-set_value k v es)
descend-put (map_slice es) (by_key k) v n h e =
    subst (λ x. descend x (by_key k) ≡ some v) (ok-injective _ _ e) (find_item-set_value k v es h)
descend-put null s v n h e = cc e
descend-put (scalar t) s v n h e = cc e
descend-put (map_pointer es) s v n h e = cc e
descend-put (array ns) (by_index (negsuc i)) v n h e = cc e
descend-put (array ns) (by_key k) v n h e = cc e
descend-put (array ns) by_other v n h e = cc e
descend-put (string_map es) (by_index i) v n h e = cc e
descend-put (string_map es) by_other v n h e = cc e
descend-put (map_slice es) (by_index i) v n h e = cc e
descend-put (map_slice es) by_other v n h e = cc e

-- A value that fits at the end of a path: at the root only a map with the order of its keys, which
-- is what is read there.
unfoldable pub IsStorable : NodePath → Node → Type 0
IsStorable top v = (es : Entries) × (v ≡ map_slice es)
IsStorable (p ▸ s) v = Unit

-- Any value is storable where the document has no value yet, since it always has a root.
pub IsStorable-none : (p : NodePath) (d : Document) (n : Node) → get p d ≡ none → IsStorable p n
unfolding get IsStorable
IsStorable-none top d n h = absurd (cc h)
IsStorable-none (p ▸ s) d n h = tt

pub IsStorable-put :
    (p : NodePath) (d : Document) (m : Node) (s : Step) (v n : Node)
    → get p d ≡ some m
    → put m s v ≡ ok (some n)
    → IsStorable p n
unfolding get put IsStorable
IsStorable-put (p ▸ s') d m s v n h e = tt
IsStorable-put top d m s v n h e =
    at_root s (subst (λ x. put x s v ≡ ok (some n)) (some-injective m (map_slice d.root) h) e)
  where
    at_root :
        (s : Step) → put (map_slice d.root) s v ≡ ok (some n) → (es : Entries) × (n ≡ map_slice es)
    at_root (by_key k) e = (_, sym (ok-injective _ _ e))
    at_root (by_index i) e = absurd (cc e)
    at_root by_other e = absurd (cc e)

-- One step of the path, where the writes to its parent can be read back.
module _ (p : NodePath) (s : Step) (v : Node) (named : IsNamedStep s)
    (back : (n : Node) (d d' : Document)
      → IsStorable p n
      → set_internal p n d ≡ (ok true, d')
      → get p d' ≡ some n) where
  store_parent-get :
      (d d' : Document) (m : Node) (r : Outcome (Option Node))
      → get p d ≡ some m
      → put m s v ≡ r
      → store_parent (set_internal p) r d ≡ (ok true, d')
      → descend_from (get p d') s ≡ some v
  store_parent-get d d' m (ok none) g e h = cc h
  store_parent-get d d' m (ok (some n)) g e h =
      ap (λ o. descend_from o s) (back n d d' (IsStorable-put p d m s v n g e) h)
      ∙ descend-put m s v n named e
  store_parent-get d d' m (err x) g e h = cc h
  store_parent-get d d' m fault g e h = cc h

  after_creation-get :
      (n : Node) (d d' d'' : Document) (r : Outcome Bool)
      → get p d ≡ none
      → set_internal p n d ≡ (r, d')
      → after_creation (set_internal p) p s v r d' ≡ (ok true, d'')
      → descend_from (get p d'') s ≡ some v
  after_creation-get n d d' d'' (ok true) g e h =
      let b = back n d d' (IsStorable-none p d n g) e in
      store_parent-get d' d'' n (put n s v) b refl
        (subst (λ m. store_parent (set_internal p) (put m s v) d' ≡ (ok true, d'')) (ap or_nil b) h)
  after_creation-get n d d' d'' (ok false) g e h = cc h
  after_creation-get n d d' d'' (err x) g e h = cc h
  after_creation-get n d d' d'' fault g e h = cc h

  create_parent-get :
      (d d' : Document) (o : Option Node)
      → get p d ≡ none
      → create_parent (set_internal p) p s v o d ≡ (ok true, d')
      → descend_from (get p d') s ≡ some v
  create_parent-get d d' none g h = cc h
  create_parent-get d d' (some n) g h =
      after_creation-get n d (set_internal p n d).1 d' (set_internal p n d).0 g refl h

  put_below-get :
      (d d' : Document) (o : Option Node)
      → get p d ≡ o
      → put_below (set_internal p) p s v o d ≡ (ok true, d')
      → descend_from (get p d') s ≡ some v
  put_below-get d d' none g h = create_parent-get d d' (new_parent s) g h
  put_below-get d d' (some m) g h = store_parent-get d d' m (put m s v) g refl h

pub set_internal-get :
    (p : NodePath) (v : Node) (d d' : Document)
    → IsNamed p
    → IsStorable p v
    → set_internal p v d ≡ (ok true, d')
    → get p d' ≡ some v
unfolding set_internal get IsStorable set_root
set_internal-get top v d d' named (es, e) h =
    let stored = subst (λ x. set_root x d ≡ (ok true, d')) e h in
    ap (λ r. some (map_slice r.1.root)) (sym stored) ∙ ap some (sym e)
set_internal-get (p ▸ s) v d d' named st h =
    let (np, ns) = IsNamed-parent p s named in
    put_below-get p s v ns (λ n d d' st h. set_internal-get p n d d' np st h) d d' (get p d) refl h

-- A value that was set is read back unchanged, whatever had to be created or filled up on the way.
-- The path has no empty key, since a step by it also finds an item whose key is no text.
pub get-set :
    (p : NodePath) (v : Node) (d d' : Document)
    → IsNamed p
    → set p v d ≡ (ok true, d')
    → get p d' ≡ some v
unfolding set IsStorable
get-set top v d d' named h = cc h
get-set (p ▸ s) v d d' named h = set_internal-get (p ▸ s) v d d' named tt h
