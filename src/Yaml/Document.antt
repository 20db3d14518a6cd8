-- ===== src/Yaml/Document.antt =====
-- A document and its edits: pkg/yamled/document.go. `Bool` is what an edit returns, `fault` the
-- panic of an index that is negative.
use kubeone.Prelude.{String, Bool, true, false, Option, none, some, str_eq, if◌then◌else◌}
use kubeone.Prelude.Int.{pos, negsuc}
use kubeone.Fail.Outcome.{Outcome, ok, err, fault}
use kubeone.Fail.Exec.{Exec}
use kubeone.Yaml.Nodes.{
  Key, text_key, other_key, Node, null, array, string_map, map_slice, map_pointer, no_nodes,
  Entries, no_entries, entry, Step, by_key, by_index, by_other, NodePath, top, ◌▸◌, nth, put_nth,
  set_value_in_map_slice, map_slice_get,
}

pub record Document : Type 0 where
  pub root : Entries

-- `realItem, _ := item.Key.(string)`: a key of another type counts as the empty text.
abbrev pub real_item : Key → String
real_item (text_key k) = k
real_item (other_key k) = ""

unfoldable pub find_item : String → Entries → Option Node
find_item k no_entries = none
find_item k (entry k' v es) =
    let rest = find_item k es in if str_eq (real_item k') k then some v else rest

-- One turn of the loop of `Get`.
unfoldable pub descend : Node → Step → Option Node
unfolding find_item map_slice_get nth
descend (string_map es) (by_key k) = map_slice_get (text_key k) es
descend (map_slice es) (by_key k) = find_item k es
descend (array ns) (by_index (pos i)) = nth i ns
descend _ _ = none

abbrev pub descend_from : Option Node → Step → Option Node
descend_from none s = none
descend_from (some n) s = descend n s

unfoldable pub get : NodePath → Document → Option Node
get top d = some (map_slice d.root)
get (p ▸ s) d = descend_from (get p d) s

unfoldable pub set_root : Node → Exec Document Bool
set_root (string_map es) d = (ok true, record d { root = es })
set_root (map_slice es) d = (ok true, record d { root = es })
set_root (map_pointer es) d = (ok true, record d { root = es })
set_root _ d = (ok false, d)

-- The container that is created for a step into a parent that is missing.
unfoldable pub new_parent : Step → Option Node
new_parent (by_key k) = some (string_map no_entries)
new_parent (by_index i) = some (array no_nodes)
new_parent by_other = none

-- The parent with the value at the step: none if it is of the wrong type.
unfoldable pub put : Node → Step → Node → Outcome (Option Node)
unfolding put_nth set_value_in_map_slice
put (array ns) (by_index (pos i)) v = ok (some (array (put_nth i v ns)))
put (array ns) (by_index (negsuc i)) v = fault
put (string_map es) (by_key k) v = ok (some (string_map (set_value_in_map_slice (text_key k) v es)))
put (map_slice es) (by_key k) v = ok (some (map_slice (set_value_in_map_slice (text_key k) v es)))
put _ _ _ = ok none

-- `store` is the call that writes the parent back.
abbrev pub store_parent : (Node → Exec Document Bool) → Outcome (Option Node) → Exec Document Bool
store_parent store (ok none) d = (ok false, d)
store_parent store (ok (some parent)) d = store parent d
store_parent store (err e) d = (err e, d)
store_parent store fault d = (fault, d)

abbrev pub or_nil : Option Node → Node
or_nil none = null
or_nil (some n) = n

-- What follows on the creation of the parent at `p`.
abbrev pub after_creation :
    (Node → Exec Document Bool) → NodePath → Step → Node → Outcome Bool → Exec Document Bool
after_creation store p s v (ok true) d = store_parent store (put (or_nil (get p d)) s v) d
after_creation store p s v (ok false) d = (ok false, d)
after_creation store p s v (err e) d = (err e, d)
after_creation store p s v fault d = (fault, d)

abbrev pub create_parent :
    (Node → Exec Document Bool) → NodePath → Step → Node → Option Node → Exec Document Bool
create_parent store p s v none d = (ok false, d)
create_parent store p s v (some empty) d =
    let (r, d') = store empty d in after_creation store p s v r d'

-- The parent is looked up, created if it is missing, changed and written back.
abbrev pub put_below :
    (Node → Exec Document Bool) → NodePath → Step → Node → Option Node → Exec Document Bool
put_below store p s v (some parent) d = store_parent store (put parent s v) d
put_below store p s v none d = create_parent store p s v (new_parent s) d

unfoldable pub set_internal : NodePath → Node → Exec Document Bool
unfolding set_root get put new_parent
set_internal top v d = set_root v d
set_internal (p ▸ s) v d = put_below (set_internal p) p s v (get p d) d

unfoldable pub set : NodePath → Node → Exec Document Bool
unfolding set_internal
set top v d = (ok false, d)
set (p ▸ s) v d = set_internal (p ▸ s) v d
