-- ===== src/Gates/Blast.antt =====
-- Gate 2 (src/sidq/gates/blast.py): what lies downstream of a change. The values of a mapping of
-- columns are lists of texts here. `is_pii_tag`'s `casefold`, `str.lower` and the padding of an
-- index to three digits are parameters.
pub mod Paths
pub mod Details
pub mod Targets
pub mod Noted
pub mod Extended
pub mod Proven
use sidq.Prelude.{
  ℕ, String, str_eq, str_le, Bool, true, false, not, ◌&&◌, ◌||◌, Option, none, some, List, [], ◌∷◌,
  ◌++◌, map, any, all, if◌then◌else◌,
}
use sidq.Prelude.Dict.{Dict}
use sidq.Prelude.Sets.{member, distinct, insert_all}
use sidq.Prelude.Sort.{sorted}
use sidq.Value.{Fields}
use sidq.Models.{TouchedAsset, Evidence}
use sidq.Catalog.Checks.Columns.{is_empty_list}
use sidq.Gates.Graph.{
  Asks, ◌>>=◌, give, throw, Reply, answered, failed, GraphClient, LineageResult, LineagePath,
  graph_unavailable, by_urn,
}
use sidq.Gates.Blast.Paths.{paths, is_explore}
use sidq.Gates.Blast.Details.{Texts, details}

-- `removed_fields or added_fields`
changed_fields : TouchedAsset → List String
changed_fields asset =
    if is_empty_list asset.removed_fields then asset.added_fields else asset.removed_fields

single : List String → Option String
single (column ∷ []) = some column
single columns = none

-- `_changed_column`
unfoldable pub changed_column : TouchedAsset → Option String
unfolding changed_fields single
changed_column asset = single (sorted str_le (distinct (changed_fields asset)))

keys : Option (Dict (List String)) → List String
keys none = []
keys (some columns) = map (λ (kv : String × List String). kv.0) columns

targets_of : Option (Dict (List String)) → List (List String)
targets_of none = []
targets_of (some columns) = map (λ (kv : String × List String). kv.1) columns

names_columns : List String → Bool
names_columns targets = not (is_empty_list targets) && not (member "" targets)

-- `set(columns) == set(result.urns)`, and every target has columns.
unfoldable pub maps_every_target : LineageResult → Bool
unfolding keys targets_of names_columns
maps_every_target result =
    all (λ urn. member urn (keys result.columns)) result.urns
    && (all (λ urn. member urn result.urns) (keys result.columns)
        && all names_columns (targets_of result.columns))

is_missing : Option String → Bool
is_missing none = true
is_missing (some column) = false

-- The checks before the details, for a column that changed or none.
unfoldable pub is_proven : Option String → LineageResult → Bool
unfolding is_missing
is_proven column result =
    result.complete
    && (is_missing column
        || (str_eq result.granularity "column"
            && (is_empty_list result.urns || maps_every_target result)))

or_empty : {A : Type 0} → Option (Dict A) → Dict A
or_empty none = []
or_empty (some d) = d

unfoldable pub blast_radius : String → Fields → Evidence
blast_radius urn detail = record {
  kind = "blast_radius";
  subject = urn;
  detail = detail;
  graph_links = [];
}

-- What the call for an asset's evidence comes to.
unfoldable pub report : String → Reply Fields → Evidence
report urn (failed error) = graph_unavailable urn error
report urn (answered detail) = blast_radius urn detail

-- What an explore's consumers add to a result.
unfoldable pub absorb : LineageResult → LineageResult → LineageResult
unfolding or_empty
absorb result consumers = record result {
  urns = result.urns ++ consumers.urns;
  entity_types = some (insert_all (or_empty consumers.entity_types) (or_empty result.entity_types));
  tags = some (insert_all (or_empty consumers.tags) (or_empty result.tags));
}

-- The result that `_with_bi_consumers` returns.
unfoldable pub as_mappings : LineageResult → LineageResult
unfolding or_empty
as_mappings extended = record extended {
  urns = sorted str_le (distinct extended.urns);
  entity_types = some (or_empty extended.entity_types);
  tags = some (or_empty extended.tags);
}

module _ {W : Type 0} (texts : Texts) (graph : GraphClient W) (depth : ℕ) where
  -- The loop of `_with_bi_consumers`, which adds to a result what a chart or a dashboard is.
  unfoldable pub bi_consumers : List String → LineageResult → Asks W LineageResult
  unfolding absorb
  bi_consumers [] result = give result
  bi_consumers (urn ∷ urns) result =
      let rest = bi_consumers urns in
      if not (is_explore urn) then rest result else (do
        consumers ← graph.get_downstream urn 2 none
        (if not consumers.complete
            then throw "GraphResponseError"
            else rest (absorb result consumers)))

  unfoldable pub with_bi_consumers : LineageResult → Asks W LineageResult
  unfolding bi_consumers as_mappings
  with_bi_consumers result = do
    extended ← bi_consumers result.urns result
    give (as_mappings extended)

  -- What follows a lineage that is proven.
  unfoldable pub impact : String → Option String → LineageResult → Asks W Fields
  impact urn column result = do
    extended ← with_bi_consumers result
    found ← paths graph urn extended column
    details texts graph urn extended found depth

  unfoldable pub measure : TouchedAsset → Asks W Fields
  measure asset = do
    result ← graph.get_downstream asset.urn depth (changed_column asset)
    (if is_proven (changed_column asset) result
        then impact asset.urn (changed_column asset) result
        else throw "GraphResponseError")

  pub collect_all : List TouchedAsset → W → List Evidence × W
  collect_all [] w = ([], w)
  collect_all (asset ∷ change) w =
      let (reply, w') = measure asset w in
      let (later, w'') = collect_all change w' in (report asset.urn reply ∷ later, w'')

  unfoldable pub collect : List TouchedAsset → W → List Evidence × W
  unfolding collect_all
  collect change w = collect_all (sorted by_urn change) w
