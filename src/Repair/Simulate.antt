-- ===== src/Repair/Simulate.antt =====
-- The catalog as a repair would leave it (src/sidq/repair/prove.py, `simulate`).
pub mod Frame
use sidq.Prelude.{
  String, str_eq, str_le, Bool, true, false, not, ◌||◌, Option, none, some, List, [], ◌∷◌, ◌++◌,
  any, keep, map, if◌then◌else◌,
}
use sidq.Prelude.Sets.{member, distinct}
use sidq.Prelude.Sort.{sorted}
use sidq.Catalog.Snapshot.{CatalogField, CatalogEntity, CatalogSnapshot}
use sidq.Catalog.Checks.Columns.{is_empty_list}
use sidq.Repair.Proposals.{Proposal, listed, targets}

-- `sorted(set(existing) | set(values))`
unfoldable pub added : List String → List String → List String
added existing values = sorted str_le (distinct (existing ++ values))

-- `columns[urn]`, empty for an asset that is no target.
unfoldable pub columns_of : String → List (String × Option String) → List (Option String)
columns_of urn [] = []
columns_of urn ((target, column) ∷ rest) =
    let columns = columns_of urn rest in if str_eq target urn then column ∷ columns else columns

-- `{column for column in columns if column is not None}`
unfoldable pub named : List (Option String) → List String
named [] = []
named (none ∷ columns) = named columns
named (some column ∷ columns) = column ∷ named columns

unfoldable pub has_none : List (Option String) → Bool
has_none [] = false
has_none (none ∷ columns) = true
has_none (some column ∷ columns) = has_none columns

-- `arguments.get("tag_urns") or arguments.get("term_urns")`
unfoldable pub written_tags : Proposal → List String
written_tags p =
    if is_empty_list (listed "tag_urns" p.arguments)
    then listed "term_urns" p.arguments
    else listed "tag_urns" p.arguments

unfoldable pub tag_field : List String → List String → CatalogField → CatalogField
tag_field columns tags f =
    if member f.path columns then record f { tags = added f.tags tags } else f

unfoldable pub tag_asset : List (Option String) → List String → CatalogEntity → CatalogEntity
unfolding has_none
tag_asset columns tags entity =
    if has_none columns then record entity { tags = added entity.tags tags } else entity

unfoldable pub tag_columns : List String → List String → CatalogEntity → CatalogEntity
unfolding tag_field
tag_columns columns tags entity =
    if is_empty_list columns
    then entity
    else record entity { fields = map (tag_field columns tags) entity.fields }

unfoldable pub apply_to_entity : Proposal → List (Option String) → CatalogEntity → CatalogEntity
unfolding named written_tags tag_asset tag_columns
apply_to_entity p columns entity =
    if str_eq p.tool "add_owners"
    then record entity { owners = added entity.owners (listed "owner_urns" p.arguments) }
    else if str_eq p.tool "add_tags" || str_eq p.tool "add_terms"
    then tag_columns (named columns) (written_tags p) (tag_asset columns (written_tags p) entity)
    else entity

unfoldable pub simulate_entity : Proposal → CatalogEntity → CatalogEntity
unfolding columns_of apply_to_entity
simulate_entity p entity =
    if is_empty_list (columns_of entity.urn (targets p))
    then entity
    else apply_to_entity p (columns_of entity.urn (targets p)) entity

unfoldable pub simulate : CatalogSnapshot → Proposal → CatalogSnapshot
unfolding simulate_entity
simulate snapshot p = record snapshot { entities = map (simulate_entity p) snapshot.entities }

-- The proposals one after the other.
unfoldable pub simulate_all : CatalogSnapshot → List Proposal → CatalogSnapshot
simulate_all snapshot [] = snapshot
simulate_all snapshot (p ∷ ps) = simulate_all (simulate snapshot p) ps
