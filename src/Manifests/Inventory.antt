-- ===== src/Manifests/Inventory.antt =====
-- The record of the kinds that have been applied: pkg/nativeclient/inventory.go.
use kubeone.Prelude.{String, Bool, Option, none, some, List, [], ◌∷◌, map, is_empty, if◌then◌else◌}
use kubeone.Fail.{Error, kube_client, fail_with}
use kubeone.Fail.Outcome.{ok}
use kubeone.Fail.Exec.{Exec, pure, check, ◌>>=◌, ◌>>◌}
use kubeone.Manifests.Objects.{GroupKind, Object, ObjectRef}
use kubeone.Manifests.Kinds.{insert_kind, union, group_kinds}
use kubeone.Manifests.Client.{Client, ObjectKey, Selector}
use kubeone.Manifests.Objects.{GroupVersionKind}

-- The functions of strings, slices and k8s.io/apimachinery on the lines of the config map:
-- `strings.Lines` and `strings.Join`, `strings.TrimSpace`, `schema.ParseGroupKind`,
-- `GroupKind.String`, and `sets.List` of a new set.
pub record KindTexts (Text : Type 0) : Type 0 where
  pub lines : Text → List String
  pub join_lines : List String → Text
  pub trim_space : String → String
  pub parse_kind : String → GroupKind
  pub kind_text : GroupKind → String
  pub sorted_texts : List String → List String

pub record ApplyOptions : Type 0 where
  pub prune_selector : Option Selector
  pub prune_types : List GroupVersionKind
  pub inventory : Option ObjectKey
  pub dry_run : Bool

abbrev pub inventory_ref : ObjectKey → ObjectRef
inventory_ref key = record {
  group_kind = record { group = ""; kind = "ConfigMap" };
  namespace = key.namespace;
  name = key.name;
}

-- A request without a result, and the wrap of its error.
abbrev pub request : {T : Type 0} → (T → Option Error × T) → String → Exec T Unit
request send op t = let (r, t') = send t in check (fail_with kube_client r op) t'

module _ {T : Type 0} (c : Client T) where
  -- `client.IgnoreNotFound`
  unfoldable pub ignore_not_found : Option Error → Option Error
  ignore_not_found none = none
  ignore_not_found (some e) = if c.is_not_found e then none else some e

  unfoldable pub delete_inventory : ObjectKey → Exec T Unit
  unfolding ignore_not_found
  delete_inventory key t =
      let (r, t') = c.delete_config_map key t in
      check (fail_with kube_client (ignore_not_found r) "deleting inventory") t'

  module _ (texts : KindTexts c.Text) (field_manager : String) where
    unfoldable pub read_kinds : List String → List GroupKind
    read_kinds [] = []
    read_kinds (l ∷ ls) =
        let rest = read_kinds ls in
        let line = texts.trim_space l in
        if is_empty line then rest else insert_kind (texts.parse_kind line) rest

    unfoldable pub kinds_text : List GroupKind → c.Text
    kinds_text ks = texts.join_lines (texts.sorted_texts (map texts.kind_text ks))

    unfoldable pub read_inventory : ObjectKey → Exec T (List GroupKind)
    unfolding ignore_not_found read_kinds
    read_inventory key t =
        let (r, (t', text)) = c.get_config_map key t in
        elim r [
          | none ↦ (ok (read_kinds (texts.lines text)), t')
          | some e ↦
              (check (fail_with kube_client (ignore_not_found (some e)) "reading inventory")
                  >> pure [])
                t'
        ]

    unfoldable pub write_inventory : ObjectKey → List GroupKind → Exec T Unit
    unfolding kinds_text
    write_inventory key ks =
        request (c.apply_config_map field_manager key (kinds_text ks)) "writing inventory"

    unfoldable pub prepare_inventory : List Object → ApplyOptions → Exec T (List GroupKind)
    unfolding read_inventory write_inventory group_kinds
    prepare_inventory os opts = elim opts.inventory [
      | none ↦ pure []
      | some key ↦ do
        previous ← read_inventory key
        if opts.dry_run
            then pure previous
            else do write_inventory key (union previous (group_kinds os)); pure previous
    ]

    -- Nothing is recorded without a selector, since nothing has been pruned then.
    unfoldable pub finalize_inventory : List Object → ApplyOptions → Exec T Unit
    unfolding write_inventory group_kinds
    finalize_inventory os opts = elim opts.inventory [
      | none ↦ pure tt
      | some key ↦ elim opts.prune_selector [
        | none ↦ pure tt
        | some selector ↦ if opts.dry_run then pure tt else write_inventory key (group_kinds os)
      ]
    ]
