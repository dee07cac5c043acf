-- ===== src/Catalog/Checks/Columns.antt =====
-- `_documentation`, `_unowned_consumed` and `_field_lineage_unresolved`.
-- `column_references` gives the matches of the two regular expressions in a description, of which
-- Python's `re` decides the word characters.
use sidq.Prelude.{
  String, str_eq, str_le, Bool, true, false, not, ◌&&◌, Option, none, some, List, [], ◌∷◌, ◌++◌,
  map, keep, if◌then◌else◌,
}
use Prim.Native.String as Text
use sidq.Prelude.Dict.{Dict, lookup}
use sidq.Prelude.Sets.{member}
use sidq.Prelude.Sort.{sorted}
use sidq.Value.{str, arr, field, end, strings}
use sidq.Models.{Evidence}
use sidq.Catalog.Snapshot.{CatalogField, CatalogEntity, LineageEdge, CatalogSnapshot, unverifiable}
use sidq.Catalog.Checks.Lineage.{collect_all, is_dataset, paths, sorted_set}

abbrev pub urn_le : CatalogEntity → CatalogEntity → Bool
urn_le a b = str_le a.urn b.urn

abbrev pub path_le : CatalogField → CatalogField → Bool
path_le a b = str_le a.path b.path

-- `sorted(entities.values(), key=lambda item: item.urn)`
unfoldable pub by_urn : Dict CatalogEntity → List CatalogEntity
by_urn entities = sorted urn_le (map (λ (p : String × CatalogEntity). p.1) entities)

unfoldable pub is_empty_list {ℓ} : {A : Type ℓ} → List A → Bool
is_empty_list [] = true
is_empty_list (x ∷ xs) = false

module _ (column_references : String → List String) where
  unfoldable pub missing_reference : List String → String → String → String → List Evidence
  missing_reference schema text subject reference =
      if member reference schema
      then []
      else record {
        kind = "doc_references_missing_column";
        subject = subject;
        detail = field "mentioned_column" (str reference) (
            field "description" (str text) (
              field "schema_fields" (arr (strings (sorted_set schema)))
                (field "confidence" (str "high") end)));
        graph_links = [];
      }
        ∷ []

  unfoldable pub documentation_text : List String → String → String → List Evidence
  unfolding missing_reference
  documentation_text schema text subject =
      if str_eq text ""
      then []
      else collect_all (missing_reference schema text subject) (sorted_set (column_references text))

  unfoldable pub documentation_claims : List String → Option String → String → List Evidence
  unfolding documentation_text
  documentation_claims schema none subject = []
  documentation_claims schema (some text) subject = documentation_text schema text subject

  unfoldable pub field_claims : CatalogEntity → CatalogField → List Evidence
  unfolding documentation_claims
  field_claims entity f =
      documentation_claims (paths entity) f.description
        (Text.◌++◌ entity.urn (Text.◌++◌ "#" f.path))

  unfoldable pub entity_documentation : CatalogEntity → List Evidence
  unfolding field_claims
  entity_documentation entity =
      if is_dataset entity && entity.schema_available
      then collect_all (field_claims entity) (sorted path_le entity.fields)
        ++ documentation_claims (paths entity) entity.description entity.urn
      else []

  unfoldable pub documentation : Dict CatalogEntity → List Evidence
  documentation entities = collect_all entity_documentation (by_urn entities)

unfoldable pub contains : Dict CatalogEntity → String → Bool
contains entities urn = elim (lookup urn entities) [ none ↦ false | some _ ↦ true ]

is_consumer_edge : Dict CatalogEntity → String → LineageEdge → Bool
is_consumer_edge entities urn edge =
    str_eq edge.source_urn urn
    && contains entities edge.source_urn
    && contains entities edge.target_urn
    && not (str_eq edge.source_urn edge.target_urn)

-- `consumers[urn]`
unfoldable pub consumers : Dict CatalogEntity → List LineageEdge → String → List String
unfolding is_consumer_edge
consumers entities edges urn =
    map (λ (e : LineageEdge). e.target_urn) (keep (is_consumer_edge entities urn) edges)

unfoldable pub unowned : Dict CatalogEntity → List LineageEdge → CatalogEntity → List Evidence
unowned entities edges entity =
    if not (is_empty_list (consumers entities edges entity.urn)) && is_empty_list entity.owners
    then record {
      kind = "unowned_consumed";
      subject = entity.urn;
      detail =
          field "downstream_consumers"
            (arr (strings (sorted_set (consumers entities edges entity.urn))))
            (field "confidence" (str "high") end);
      graph_links = [];
    }
      ∷ []
    else []

unfoldable pub unowned_consumed : Dict CatalogEntity → List LineageEdge → List Evidence
unowned_consumed entities edges = collect_all (unowned entities edges) (by_urn entities)

unfoldable pub unresolved : List String → CatalogEntity → List Evidence
unresolved resolved entity =
    if is_dataset entity && not (is_empty_list entity.fields) && not (member entity.urn resolved)
    then unverifiable "lineage_field_missing"
        "column lineage was not resolved for this asset (field-lineage budget or read failure)"
        entity.urn
      ∷ []
    else []

unfoldable pub field_lineage_unresolved : Dict CatalogEntity → CatalogSnapshot → List Evidence
field_lineage_unresolved entities snapshot = elim snapshot.field_lineage_resolved [
  | none ↦ []
  | some resolved ↦ collect_all (unresolved resolved) (by_urn entities)
]
