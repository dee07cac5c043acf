-- ===== src/Catalog/Gate.antt =====
-- `SelfContradictionGate.collect` on a graph that supplies its snapshot.
pub mod Kinds
pub mod Orphans
mod Tests
use sidq.Prelude.{String, Option, none, some, List, [], ◌∷◌, ◌++◌, map}
use sidq.Prelude.Dict.{Dict}
use sidq.Prelude.Sets.{insert_all}
use sidq.Models.{Evidence}
use sidq.Catalog.Snapshot.{CatalogEntity, CatalogSnapshot}
use sidq.Catalog.Checks.Lineage.{lineage_field_missing, orphan_lineage}
use sidq.Catalog.Checks.Columns.{documentation, unowned_consumed, field_lineage_unresolved}
use sidq.Catalog.Checks.Pii.{pii_leaks}
use sidq.Catalog.Checks.Consumers.{deprecated_upstream_of_live}

abbrev keyed : CatalogEntity → String × CatalogEntity
keyed entity = (entity.urn, entity)

-- `{entity.urn: entity for entity in snapshot.entities}`
unfoldable pub entities_by_urn : CatalogSnapshot → Dict CatalogEntity
entities_by_urn snapshot = insert_all (map keyed snapshot.entities) []

module _ (casefold : String → String) (column_references : String → List String) where
  -- All checks but the first.
  unfoldable pub static_checks : Dict CatalogEntity → CatalogSnapshot → List Evidence
  static_checks entities snapshot =
      documentation column_references entities
      ++ lineage_field_missing casefold entities snapshot.edges
      ++ orphan_lineage entities snapshot.edges snapshot.entities_complete
      ++ pii_leaks casefold entities snapshot.edges
      ++ unowned_consumed entities snapshot.edges
      ++ field_lineage_unresolved entities snapshot

  unfoldable pub collect : CatalogSnapshot → Option (List Evidence)
  collect snapshot = elim (deprecated_upstream_of_live (entities_by_urn snapshot) snapshot.edges) [
    | none ↦ none
    | some first ↦ some (first ++ static_checks (entities_by_urn snapshot) snapshot)
  ]
