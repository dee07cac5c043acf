-- ===== src/Catalog/Checks/Pii.antt =====
-- `_pii_leaks`.
use sidq.Prelude.{String, str_le, ◌&&◌, none, some, List, [], ◌∷◌, keep, if◌then◌else◌}
use Prim.Native.String as Text
use sidq.Prelude.Dict.{Dict, lookup}
use sidq.Prelude.Sort.{sorted}
use sidq.Value.{str, arr, obj, field, end, strings}
use sidq.Models.{Evidence}
use sidq.Catalog.Snapshot.{
  CatalogField, CatalogEntity, LineageEdge, unverifiable, unique, edge_key_le, edge_data, field_in,
}
use sidq.Catalog.Tags.{is_pii_tag, carries_equivalent_protection}
use sidq.Catalog.Checks.Lineage.{collect_all, is_dataset}
use sidq.Catalog.Checks.Columns.{is_empty_list}

module _ (casefold : String → String) where
  unfoldable pub pii_tags : CatalogField → List String
  pii_tags f = sorted str_le (keep (is_pii_tag casefold) f.tags)

  -- What an edge between two columns that exist says.
  unfoldable pub leak_between :
      LineageEdge → CatalogEntity → CatalogField → CatalogField → List Evidence
  unfolding pii_tags
  leak_between edge target source_field target_field =
      if is_empty_list (pii_tags source_field)
      then []
      else if carries_equivalent_protection casefold (pii_tags source_field)
          (sorted str_le target_field.tags)
      then []
      else record {
        kind = "pii_leak_untagged";
        subject = Text.◌++◌ target.urn (Text.◌++◌ "#" target_field.path);
        detail = field "edge" (obj (edge_data edge)) (
            field "source_pii_tags" (arr (strings (pii_tags source_field))) (
              field "target_tags" (arr (strings (sorted str_le target_field.tags)))
                (field "confidence" (str "high") end)));
        graph_links = [];
      }
        ∷ []

  unfoldable pub leak_fields :
      LineageEdge → CatalogEntity → CatalogEntity → String → String → List Evidence
  leak_fields edge source target from_path to_path =
      if source.schema_available && target.schema_available
      then elim (field_in source.fields from_path) [
        | none ↦ []
        | some f ↦ elim (field_in target.fields to_path) [
          | none ↦ []
          | some g ↦ leak_between edge target f g
        ]
      ]
      else unverifiable "pii_leak_untagged" "source or target schema is unavailable" edge.target_urn
        ∷ []

  unfoldable pub leak_entities : Dict CatalogEntity → LineageEdge → String → String → List Evidence
  leak_entities entities edge from_path to_path = elim (lookup edge.source_urn entities) [
    | none ↦ []
    | some source ↦ elim (lookup edge.target_urn entities) [
      | none ↦ []
      | some target ↦
          if is_dataset source && is_dataset target
          then leak_fields edge source target from_path to_path
          else []
    ]
  ]

  -- One round of the loop.
  unfoldable pub pii_leak : Dict CatalogEntity → LineageEdge → List Evidence
  pii_leak entities edge = elim edge.source_field [
    | none ↦ []
    | some from_path ↦ elim edge.target_field [
      | none ↦ []
      | some to_path ↦ leak_entities entities edge from_path to_path
    ]
  ]

  unfoldable pub pii_leaks : Dict CatalogEntity → List LineageEdge → List Evidence
  pii_leaks entities edges = unique (collect_all (pii_leak entities) (sorted edge_key_le edges))
