-- ===== src/Catalog/Checks/Lineage.antt =====
-- `_lineage_field_missing` with `_field_present` and `_leaf_name`, and `_orphan_lineage`.
use sidq.Prelude.{
  String, str_eq, str_le, Bool, true, not, ◌&&◌, none, some, List, [], ◌∷◌, ◌++◌, map, keep,
  has_prefix, ends_with, split_on, if◌then◌else◌,
}
use Prim.Native.String as Text
use sidq.Prelude.Dict.{Dict, lookup}
use sidq.Prelude.Sets.{member, distinct}
use sidq.Prelude.Sort.{sorted}
use sidq.Value.{str, arr, obj, field, end, strings}
use sidq.Models.{Evidence}
use sidq.Catalog.Snapshot.{
  CatalogField, CatalogEntity, LineageEdge, unverifiable, unique, edge_key_le, edge_data,
}

-- `[step(x) for x in xs]` where a step appends any number of evidences.
unfoldable pub collect_all {ℓ} : {A : Type ℓ} → (A → List Evidence) → List A → List Evidence
collect_all step [] = []
collect_all step (x ∷ xs) = step x ++ collect_all step xs

unfoldable pub is_dataset : CatalogEntity → Bool
is_dataset entity = str_eq entity.kind "dataset"

unfoldable pub paths : CatalogEntity → List String
paths entity = map (λ (f : CatalogField). f.path) entity.fields

unfoldable pub sorted_set : List String → List String
sorted_set texts = sorted str_le (distinct texts)

module _ (casefold : String → String) where
  is_plain : String → Bool
  is_plain part = not (has_prefix "[" part && ends_with "]" part)

  last_or_empty : List String → String
  last_or_empty [] = ""
  last_or_empty (part ∷ []) = casefold part
  last_or_empty (part ∷ next ∷ parts) = last_or_empty (next ∷ parts)

  unfoldable pub leaf_name : String → String
  unfolding is_plain last_or_empty
  leaf_name path = last_or_empty (keep is_plain (split_on b'.' path))

  unfoldable pub field_present : String → List String → Bool
  field_present claimed schema_paths =
      if member claimed schema_paths
      then true
      else if member (casefold claimed) (map casefold schema_paths)
      then true
      else not (str_eq (leaf_name claimed) "")
        && member (leaf_name claimed) (map (λ p. leaf_name (casefold p)) schema_paths)

  -- One round of the loop of `_lineage_field_missing`, for an edge with a target field.
  unfoldable pub missing_target : CatalogEntity → LineageEdge → String → List Evidence
  missing_target target edge claimed =
      if not target.schema_available
      then unverifiable "lineage_field_missing" "target schema is unavailable" edge.target_urn ∷ []
      else if field_present claimed (paths target)
      then []
      else record {
        kind = "lineage_field_missing";
        subject = Text.◌++◌ edge.target_urn (Text.◌++◌ "#" claimed);
        detail = field "edge" (obj (edge_data edge)) (
            field "target_schema_fields" (arr (strings (sorted_set (paths target))))
              (field "confidence" (str "high") end));
        graph_links = [];
      }
        ∷ []

  unfoldable pub missing_field : Dict CatalogEntity → LineageEdge → List Evidence
  missing_field entities edge = elim edge.target_field [
    | none ↦ []
    | some claimed ↦ elim (lookup edge.target_urn entities) [
      | none ↦ []
      | some target ↦ if is_dataset target then missing_target target edge claimed else []
    ]
  ]

  unfoldable pub lineage_field_missing : Dict CatalogEntity → List LineageEdge → List Evidence
  lineage_field_missing entities edges =
      unique (collect_all (missing_field entities) (sorted edge_key_le edges))

-- `urn not in entities`, for one end of an edge.
unfoldable pub orphan_end : Dict CatalogEntity → LineageEdge → String → String → List Evidence
orphan_end entities edge side urn = elim (lookup urn entities) [
  | some _ ↦ []
  | none ↦
      record {
        kind = "orphan_lineage";
        subject = urn;
        detail =
            field "edge" (obj (edge_data edge))
              (field "missing_endpoint" (str side) (field "confidence" (str "high") end));
        graph_links = [];
      }
      ∷ []
]

unfoldable pub orphan_ends : Dict CatalogEntity → LineageEdge → List Evidence
orphan_ends entities edge =
    orphan_end entities edge "source" edge.source_urn
    ++ orphan_end entities edge "target" edge.target_urn

unfoldable pub orphan_lineage : Dict CatalogEntity → List LineageEdge → Bool → List Evidence
orphan_lineage entities edges complete =
    if not complete
    then unverifiable "orphan_lineage"
        "the catalog view is a bounded page, so a missing endpoint may simply lie outside it"
        "catalog"
      ∷ []
    else unique (collect_all (orphan_ends entities) (sorted edge_key_le edges))
