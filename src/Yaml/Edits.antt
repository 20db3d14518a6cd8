-- ===== src/Yaml/Edits.antt =====
-- The other edits of a document: `Append`, `Remove` and `Fill` of pkg/yamled/document.go.
use kubeone.Prelude.{Bool, true, false, Option, none, some}
use kubeone.Prelude.Int.{pos, negsuc}
use kubeone.Fail.Outcome.{ok}
use kubeone.Fail.Exec.{Exec}
use kubeone.Yaml.Nodes.{
  text_key, Node, null, scalar, array, string_map, map_slice, map_pointer, Nodes, no_nodes, node,
  Entries, no_entries, entry, Step, by_key, by_index, NodePath, top, ◌▸◌, remove_array_item,
  set_value_in_map_slice, remove_key_from_map_slice, map_slice_get, unify_map_type,
}
use kubeone.Yaml.Document.{Document, get, set_internal, set}

unfoldable pub append_node : Nodes → Node → Nodes
append_node no_nodes v = node v no_nodes
append_node (node n ns) v = node n (append_node ns v)

abbrev append_to : NodePath → Node → Option Node → Exec Document Bool
append_to p v none d = set p (array (node v no_nodes)) d
append_to p v (some (array ns)) d = set p (array (append_node ns v)) d
append_to p v (some _) d = (ok false, d)

unfoldable pub append : NodePath → Node → Exec Document Bool
unfolding set append_node
append top v d = (ok false, d)
append (p ▸ s) v d = append_to (p ▸ s) v (get (p ▸ s) d) d

-- The parent without what stands at the step: none if it is of the wrong type.
unfoldable pub remove_below : Node → Step → Option Node
unfolding remove_array_item remove_key_from_map_slice
remove_below (array ns) (by_index (pos i)) = some (array (remove_array_item i ns))
remove_below (array ns) (by_index (negsuc i)) = some (array ns)
remove_below (string_map es) (by_key k) =
    some (string_map (remove_key_from_map_slice (text_key k) es))
remove_below (map_slice es) (by_key k) =
    some (map_slice (remove_key_from_map_slice (text_key k) es))
remove_below _ _ = none

abbrev store_removed : NodePath → Option Node → Exec Document Bool
store_removed p none d = (ok false, d)
store_removed p (some parent) d = set_internal p parent d

abbrev remove_from : NodePath → Step → Option Node → Exec Document Bool
remove_from p s none d = (ok true, d)
remove_from p s (some parent) d = store_removed p (remove_below parent s) d

unfoldable pub remove : NodePath → Exec Document Bool
unfolding set_internal remove_below
remove top d = (ok true, record d { root = no_entries })
remove (p ▸ s) d = remove_from p s (get p d) d

-- An item that exists keeps its value, and is filled if both values are maps.
unfoldable mutual
  unfolding map_slice_get set_value_in_map_slice unify_map_type

  pub fill_value : Node → Entries → Option Node
  fill_value null sub = none
  fill_value (scalar t) sub = none
  fill_value (array ns) sub = none
  fill_value (string_map es) sub = some (map_slice (fill_map es sub))
  fill_value (map_slice es) sub = some (map_slice (fill_map es sub))
  fill_value (map_pointer es) sub = some (map_slice (fill_map es sub))

  -- The new items come first here.
  pub fill_map : Entries → Entries → Entries
  fill_map no_entries source = source
  fill_map (entry k v es) source = fill_map es (elim (map_slice_get k source) [
    | none ↦ set_value_in_map_slice k v source
    | some existing ↦ elim (unify_map_type existing) [
      | none ↦ source
      | some sub ↦ elim (fill_value v sub) [
        | none ↦ source
        | some filled ↦ set_value_in_map_slice k filled source
      ]
    ]
  ])

abbrev filled : Node → Node → Option Entries → Option Entries → Node
filled n v (some source) (some new) = map_slice (fill_map new source)
filled n v _ _ = n

abbrev fill_at : NodePath → Node → Option Node → Exec Document Bool
fill_at p v none d = set p v d
fill_at p v (some n) d = set_internal p (filled n v (unify_map_type n) (unify_map_type v)) d

unfoldable pub fill : NodePath → Node → Exec Document Bool
unfolding set set_internal get
fill p v d = fill_at p v (get p d) d
