-- ===== src/Catalog/Checks/Consumers.antt =====
-- `_deprecated_upstream_of_live` with the search of `_live_bi_consumers`.
pub mod Total
use sidq.Prelude.{
  ℕ, zero, suc, String, str_eq, Bool, true, false, ◌&&◌, ◌||◌, Option, none, some, List, [], ◌∷◌,
  ◌++◌, map, keep, length, if◌then◌else◌,
}
use sidq.Prelude.Dict.{Dict, lookup}
use sidq.Prelude.Sets.{member}
use sidq.Value.{str, arr, field, end, strings}
use sidq.Models.{Evidence}
use sidq.Catalog.Snapshot.{CatalogEntity, LineageEdge}
use sidq.Catalog.Checks.Lineage.{sorted_set}
use sidq.Catalog.Checks.Columns.{contains, by_urn}

joins : Dict CatalogEntity → String → LineageEdge → Bool
joins entities urn edge =
    str_eq edge.source_urn urn
    && contains entities edge.source_urn
    && contains entities edge.target_urn

-- `sorted(adjacency.get(urn, ()))`
unfoldable pub successors : Dict CatalogEntity → List LineageEdge → String → List String
unfolding joins
successors entities edges urn =
    sorted_set (map (λ (e : LineageEdge). e.target_urn) (keep (joins entities urn) edges))

abbrev pub Consumer : Type 0
Consumer = CatalogEntity × List String

-- The locals of the search. `found` holds what was yielded, in order.
pub record Search : Type 0 where
  pub queue : List (String × List String)
  pub visited : List String
  pub found : List Consumer

is_live_bi : CatalogEntity → Bool
is_live_bi entity = (str_eq entity.kind "chart" || str_eq entity.kind "dashboard") && entity.live

reach : CatalogEntity → String → List String → Search → Search
unfolding is_live_bi
reach entity next_urn path st = record {
  queue = st.queue ++ (next_urn, path) ∷ [];
  visited = next_urn ∷ st.visited;
  found = if is_live_bi entity then st.found ++ (entity, path) ∷ [] else st.found;
}

-- One round of the inner loop; `none` is the `KeyError` of `entities[next_urn]`.
pub visit : Dict CatalogEntity → List String → String → Search → Option Search
unfolding reach
visit entities path next_urn st =
    if member next_urn st.visited then some st else elim (lookup next_urn entities) [
      | none ↦ none
      | some entity ↦ some (reach entity next_urn (path ++ next_urn ∷ []) st)
    ]

pub visit_all : Dict CatalogEntity → List String → List String → Search → Option Search
visit_all entities path [] st = some st
visit_all entities path (urn ∷ urns) st = elim (visit entities path urn st) [
  | none ↦ none
  | some st' ↦ visit_all entities path urns st'
]

-- The outer loop; `none` also where the fuel ends before the queue does.
pub search_from : ℕ → Dict CatalogEntity → List LineageEdge → Search → Option (List Consumer)
search_from zero entities edges st = elim st.queue [ [] ↦ some st.found | _ ∷ _ ↦ none ]
search_from (suc fuel) entities edges st = elim st.queue [
  | [] ↦ some st.found
  | (current, path) ∷ rest ↦
      elim (visit_all entities path (successors entities edges current)
        (record st { queue = rest })) [
          | none ↦ none
          | some st' ↦ search_from fuel entities edges st'
        ]
]

unfoldable pub live_bi_consumers :
    String → Dict CatalogEntity → List LineageEdge → Option (List Consumer)
live_bi_consumers source entities edges =
    search_from (suc (length entities)) entities edges
      (record { queue = (source, source ∷ []) ∷ []; visited = source ∷ []; found = [] })

unfoldable pub deprecated_evidence : String → Consumer → Evidence
deprecated_evidence source (consumer, path) = record {
  kind = "deprecated_upstream_of_live";
  subject = source;
  detail = field "deprecated_asset" (str source) (
      field "live_consumer" (str consumer.urn)
        (field "path" (arr (strings path)) (field "confidence" (str "high") end)));
  graph_links = [];
}

-- One round of the loop of `_deprecated_upstream_of_live`.
unfoldable pub deprecated_source :
    Dict CatalogEntity → List LineageEdge → CatalogEntity → Option (List Evidence)
unfolding deprecated_evidence
deprecated_source entities edges source =
    if source.deprecated
    then elim (live_bi_consumers source.urn entities edges) [
      | none ↦ none
      | some consumers ↦ some (map (deprecated_evidence source.urn) consumers)
    ]
    else some []

unfoldable pub collect_options {ℓ} :
    {A : Type ℓ} → (A → Option (List Evidence)) → List A → Option (List Evidence)
collect_options step [] = some []
collect_options step (x ∷ xs) = elim (step x) [
  | none ↦ none
  | some first ↦ elim (collect_options step xs) [ none ↦ none | some rest ↦ some (first ++ rest) ]
]

unfoldable pub deprecated_upstream_of_live :
    Dict CatalogEntity → List LineageEdge → Option (List Evidence)
deprecated_upstream_of_live entities edges =
    collect_options (deprecated_source entities edges) (by_urn entities)
