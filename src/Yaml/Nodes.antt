-- ===== src/Yaml/Nodes.antt =====
-- The values of a document and the paths into it: pkg/yamled/path.go and util.go. A value is not
-- shared by two places of a document, so an edit in place is an edit of that place.
use kubeone.Prelude.{ℕ, zero, suc, String, Bool, false, Option, none, some, str_eq, if◌then◌else◌}
use kubeone.Prelude.Int.{ℤ}

-- The key of an item of a `yaml.MapSlice`: a text, or a value of another type by its text.
pub data Key : Type 0 where
  text_key : String → Key
  other_key : String → Key

unfoldable pub same_key : Key → Key → Bool
same_key (text_key a) (text_key b) = str_eq a b
same_key (other_key a) (other_key b) = str_eq a b
same_key _ _ = false

-- `map[string]any`, `yaml.MapSlice`, `*yaml.MapSlice` and `[]any`; the other values are not looked
-- into. The entries of a Go map are in the order in which a loop meets them.
mutual
  pub data Node : Type 0 where
    null : Node
    scalar : String → Node
    array : Nodes → Node
    string_map : Entries → Node
    map_slice : Entries → Node
    map_pointer : Entries → Node

  pub data Nodes : Type 0 where
    no_nodes : Nodes
    node : Node → Nodes → Nodes

  pub data Entries : Type 0 where
    no_entries : Entries
    entry : Key → Node → Entries → Entries

-- A step of another type than string and int leads nowhere.
pub data Step : Type 0 where
  by_key : String → Step
  by_index : ℤ → Step
  by_other : Step

-- A path is read from its last step, as `Tail` and `Parent` do.
infixl 20 ◌▸◌
pub data NodePath : Type 0 where
  top : NodePath
  ◌▸◌ : NodePath → Step → NodePath

unfoldable pub nth : ℕ → Nodes → Option Node
nth i no_nodes = none
nth zero (node n ns) = some n
nth (suc i) (node n ns) = nth i ns

-- The write at an index, after the array has been filled up with nil.
unfoldable pub put_nth : ℕ → Node → Nodes → Nodes
put_nth zero v no_nodes = node v no_nodes
put_nth zero v (node n ns) = node v ns
put_nth (suc i) v no_nodes = node null (put_nth i v no_nodes)
put_nth (suc i) v (node n ns) = node n (put_nth i v ns)

unfoldable pub remove_array_item : ℕ → Nodes → Nodes
remove_array_item i no_nodes = no_nodes
remove_array_item zero (node n ns) = ns
remove_array_item (suc i) (node n ns) = node n (remove_array_item i ns)

unfoldable pub set_value_in_map_slice : Key → Node → Entries → Entries
unfolding same_key
set_value_in_map_slice k v no_entries = entry k v no_entries
set_value_in_map_slice k v (entry k' v' es) =
    let rest = set_value_in_map_slice k v es in
    if same_key k' k then entry k' v es else entry k' v' rest

unfoldable pub remove_key_from_map_slice : Key → Entries → Entries
unfolding same_key
remove_key_from_map_slice k no_entries = no_entries
remove_key_from_map_slice k (entry k' v' es) =
    let rest = remove_key_from_map_slice k es in if same_key k' k then es else entry k' v' rest

unfoldable pub map_slice_get : Key → Entries → Option Node
unfolding same_key
map_slice_get k no_entries = none
map_slice_get k (entry k' v es) =
    let rest = map_slice_get k es in if same_key k' k then some v else rest

unfoldable pub unify_map_type : Node → Option Entries
unify_map_type (string_map es) = some es
unify_map_type (map_slice es) = some es
unify_map_type (map_pointer es) = some es
unify_map_type _ = none
