-- ===== src/Catalog/Gate/Tests.antt =====
-- The gate on a small catalog.
use sidq.Prelude.{String, true, none, some, List, [], ◌∷◌, any, ◌≡◌}
use sidq.Models.{Evidence}
use sidq.Catalog.Snapshot.{CatalogEntity, CatalogSnapshot}
use sidq.Catalog.Gate.Kinds.{collect_total}
use sidq.Catalog.Gate.Orphans.{is_orphan, collect-orphans}

abbrev orders : CatalogEntity
orders = record {
  urn = "orders";
  kind = "dataset";
  description = some "the column order_id";
  fields = [];
  tags = [];
  owners = "ann" ∷ [];
  deprecated = true;
  live = true;
  schema_available = true;
}

-- An edge from `orders` to an asset that the catalog does not have.
abbrev dangling : CatalogSnapshot
dangling = record {
  entities = orders ∷ [];
  edges =
      record {
        source_urn = "orders";
        source_field = none;
        target_urn = "ghost";
        target_field = none;
      }
      ∷ [];
  entities_complete = true;
  field_lineage_resolved = none;
}

abbrev same : String → String
same s = s

abbrev references : String → List String
references s = "order_id" ∷ []

abbrev found : List Evidence
found = (collect_total same references dangling).0

collect-orphans_example : any (is_orphan "ghost") found ≡ true
collect-orphans_example =
    collect-orphans same references "ghost" dangling found
      (collect_total same references dangling).1
