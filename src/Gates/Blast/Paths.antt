-- ===== src/Gates/Blast/Paths.antt =====
-- The lineage paths that the blast gate shows (src/sidq/gates/blast.py, `_paths`).
use sidq.Prelude.{
  String, str_eq, has_prefix, is_infix, Bool, not, ◌&&◌, ◌||◌, Option, none, some, List, [], ◌∷◌,
  ◌++◌, map, if◌then◌else◌,
}
use sidq.Prelude.Dict.{Dict, lookup}
use sidq.Catalog.Checks.Columns.{is_empty_list}
use sidq.Gates.Graph.{Asks, ◌>>=◌, give, GraphClient, LineagePath, LineageResult}

unfoldable pub is_explore : String → Bool
is_explore urn = is_infix "looker" urn && is_infix ".explore." urn

first_that : (String → Bool) → List String → Option String
first_that p [] = none
first_that p (urn ∷ urns) = let rest = first_that p urns in if p urn then some urn else rest

first_of : List String → Option String
first_of [] = none
first_of (urn ∷ urns) = some urn

-- `next(explore, next(first, None))`
unfoldable pub handoff : List String → Option String
unfolding first_that first_of
handoff urns = elim (first_that is_explore urns) [ some urn ↦ some urn | none ↦ first_of urns ]

unfoldable pub first_dashboard : List String → Option String
unfolding first_that
first_dashboard urns = first_that (has_prefix "urn:li:dashboard:") urns

abbrev pub bi_note : String
bi_note =
    "Column lineage is proven through the BI field; chart and dashboard hops are entity-level."

-- The inner loop of `_combine_column_and_bi_paths`: the first entity path from the handoff.
join_first : List String → String → List LineagePath → Option LineagePath
join_first urns handoff_dataset [] = none
join_first urns handoff_dataset (path ∷ paths) =
    let rest = join_first urns handoff_dataset paths in
    elim path.urns [
      | [] ↦ rest
      | first ∷ hops ↦
          if not (str_eq first handoff_dataset)
          then rest
          else some (record {
            urns = urns ++ handoff_dataset ∷ hops;
            granularity = "column";
            note = some bi_note;
          })
    ]

combine_from : List LineagePath → List LineagePath → String → List LineagePath
unfolding join_first
combine_from [] entity_paths handoff_dataset = []
combine_from (path ∷ column_paths) entity_paths handoff_dataset =
    let rest = combine_from column_paths entity_paths handoff_dataset in
    if is_empty_list path.urns || not (str_eq path.granularity "column")
    then rest
    else elim (join_first path.urns handoff_dataset entity_paths) [
      | none ↦ rest
      | some joined ↦ joined ∷ []
    ]

-- `_combine_column_and_bi_paths`
unfoldable pub combine_column_and_bi_paths :
    List LineagePath → List LineagePath → String → String → List LineagePath
unfolding combine_from
combine_column_and_bi_paths column_paths entity_paths handoff_dataset granularity =
    if not (str_eq granularity "column")
    then []
    else combine_from column_paths entity_paths handoff_dataset

columns_at : String → Option (Dict (List String)) → List String
columns_at urn none = []
columns_at urn (some columns) = elim (lookup urn columns) [ none ↦ [] | some targets ↦ targets ]

module _ {W : Type 0} (graph : GraphClient W) where
  -- The last statement of `_paths`.
  entity_paths : String → String → String → Asks W (List LineagePath)
  entity_paths source dashboard granularity = do
    found ← graph.paths_between source dashboard none none
    give (
        map
          (λ (p : LineagePath). record { urns = p.urns; granularity = granularity; note = p.note })
          found)

  column_paths : String → String → String → String → String → String → Asks W (List LineagePath)
  unfolding entity_paths combine_column_and_bi_paths
  column_paths source downstream dashboard column target granularity = do
    by_column ← graph.paths_between source downstream (some column) (some target)
    by_entity ← graph.paths_between downstream dashboard none none
    let combined = combine_column_and_bi_paths by_column by_entity downstream granularity
    (if is_empty_list combined then entity_paths source dashboard granularity else give combined)

  paths_to : String → LineageResult → Option String → String → String → Asks W (List LineagePath)
  unfolding entity_paths column_paths columns_at
  paths_to source result none downstream dashboard =
      entity_paths source dashboard result.granularity
  paths_to source result (some column) downstream dashboard =
      elim (columns_at downstream result.columns) [
        | [] ↦ entity_paths source dashboard result.granularity
        | target ∷ targets ↦
            column_paths source downstream dashboard column target result.granularity
      ]

  -- `_paths`
  unfoldable pub paths : String → LineageResult → Option String → Asks W (List LineagePath)
  unfolding paths_to
  paths source result column = elim (handoff result.urns) [
    | none ↦ give []
    | some downstream ↦ elim (first_dashboard result.urns) [
      | none ↦ give []
      | some dashboard ↦ paths_to source result column downstream dashboard
    ]
  ]
