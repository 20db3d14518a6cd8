-- ===== src/Tests/Documents.antt =====
-- Edits of a small document.
use kubeone.Prelude.{true, false, some, ◌≡◌, refl}
use kubeone.Prelude.Int.{pos}
use kubeone.Fail.Outcome.{ok}
use kubeone.Yaml.Nodes.{
  text_key, other_key, null, scalar, array, string_map, no_nodes, node, no_entries, entry, NodePath,
  by_key, by_index, top, ◌▸◌,
}
use kubeone.Yaml.Document.{Document, descend, get, set}
use kubeone.Yaml.RoundTrip.{get-set}
use kubeone.Yaml.Refused.{set-refused}

abbrev document : Document
document = record {
  root =
      entry (text_key "name") (scalar "demo")
        (entry (text_key "hosts") (array no_nodes) no_entries);
}

-- The write goes past the end of the array and creates a map in it.
abbrev port : NodePath
port = top ▸ by_key "hosts" ▸ by_index (pos 1) ▸ by_key "port"

abbrev edited : Document
edited = record {
  root = entry (text_key "name") (scalar "demo") (
      entry (text_key "hosts")
        (array (
          node null
            (node (string_map (entry (text_key "port") (scalar "22") no_entries)) no_nodes)))
        no_entries);
}

set_port : set port (scalar "22") document ≡ (ok true, edited)
unfolding set get descend
set_port = refl

get-set_example : get port edited ≡ some (scalar "22")
get-set_example = get-set port (scalar "22") document edited ((tt, refl), refl) set_port

-- A scalar has nothing below it.
abbrev below_name : NodePath
below_name = top ▸ by_key "name" ▸ by_key "first" ▸ by_index (pos 0)

refused_edit :
    set below_name (scalar "x") document ≡ (ok false, (set below_name (scalar "x") document).1)
unfolding set get descend
refused_edit = refl

set-refused_example : (set below_name (scalar "x") document).1 ≡ document
set-refused_example =
    set-refused below_name (scalar "x") document (set below_name (scalar "x") document).1
      ((tt, refl), refl) refused_edit

-- The step by the empty key finds an item whose key is a number.
abbrev numbered : Document
numbered = record { root = entry (other_key "1") (scalar "one") no_entries }

empty_key : get (top ▸ by_key "") numbered ≡ some (scalar "one")
unfolding get descend
empty_key = refl
