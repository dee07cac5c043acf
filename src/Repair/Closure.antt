-- ===== src/Repair/Closure.antt =====
-- The columns that a marker reaches along field lineage (src/sidq/repair/proposals.py,
-- `_closure`). The head of `queue` is the end of Python's list, which `pop` takes.
pub mod Flows
pub mod Search
pub mod Exact
use sidq.Prelude.{
  ℕ, zero, suc, String, str_eq, Bool, true, false, not, ◌&&◌, Option, none, some, List, [], ◌∷◌,
  any, keep, length, map, if◌then◌else◌,
}
use sidq.Prelude.Dict.{Dict, lookup}
use sidq.Prelude.Sets.{insert_all, member}
use sidq.Prelude.Pairs.{Pair, has_pair, pair_le}
use sidq.Prelude.Sort.{sorted}
use sidq.Catalog.Snapshot.{CatalogField, CatalogEntity, LineageEdge, CatalogSnapshot}
use sidq.Catalog.Gate.{entities_by_urn}

-- `a == b` for an `a` that may be `None` and a text `b`.
unfoldable pub is_text : Option String → String → Bool
is_text none b = false
is_text (some a) b = str_eq a b

-- `edge.source_urn == node[0] and edge.source_field == node[1]`
unfoldable pub goes_from : LineageEdge → Pair → Bool
unfolding is_text
goes_from edge node = str_eq edge.source_urn node.0 && is_text edge.source_field node.1

-- `queue.append((edge.target_urn, edge.target_field))`, if there is a target field.
unfoldable pub push_target : LineageEdge → List Pair → List Pair
push_target edge queue = elim edge.target_field [
  | none ↦ queue
  | some column ↦ (edge.target_urn, column) ∷ queue
]

-- The loop over the edges.
unfoldable pub push_targets : Pair → List LineageEdge → List Pair → List Pair
unfolding goes_from push_target
push_targets node [] queue = queue
push_targets node (edge ∷ edges) queue =
    push_targets node edges (if goes_from edge node then push_target edge queue else queue)

-- The `while` loop; a round that finds the queue empty ends it.
unfoldable pub reach_from : ℕ → List LineageEdge → List Pair → List Pair → List Pair
unfolding push_targets has_pair
reach_from zero edges queue reached = reached
reach_from (suc fuel) edges [] reached = reached
reach_from (suc fuel) edges (node ∷ queue) reached = elim (has_pair node reached) [
  | true ↦ reach_from fuel edges queue reached
  | false ↦ reach_from fuel edges (push_targets node edges queue) (node ∷ reached)
]

abbrev by_path : CatalogField → String × CatalogField
by_path f = (f.path, f)

-- `fields_by_urn.get(node[0], {}).get(node[1])`
unfoldable pub column_at : CatalogSnapshot → Pair → Option CatalogField
column_at snapshot node = elim (lookup node.0 (entities_by_urn snapshot)) [
  | none ↦ none
  | some entity ↦ lookup node.1 (insert_all (map by_path entity.fields) [])
]

-- `markers & set(tags)`
unfoldable pub shares : List String → List String → Bool
shares markers tags = any (λ m. member m tags) markers

-- The filter of the result.
unfoldable pub undeclared : CatalogSnapshot → List String → Pair → Bool
unfolding column_at shares
undeclared snapshot markers node = elim (column_at snapshot node) [
  | none ↦ false
  | some f ↦ not (shares markers f.tags)
]

-- One round for the start and one for each edge at most.
unfoldable pub closure : String → String → CatalogSnapshot → List String → List Pair
unfolding reach_from undeclared
closure urn column snapshot markers = sorted pair_le (
    keep (undeclared snapshot markers)
      (reach_from (suc (length snapshot.edges)) snapshot.edges ((urn, column) ∷ []) []))
