-- ===== src/Gates/Reality.antt =====
-- Gate 0 (src/sidq/gates/reality.py): the fields of the catalog against those of the live source.
pub mod Fields
pub mod Drift
use sidq.Prelude.{
  String, str_le, Bool, not, Option, none, some, List, [], ◌∷◌, ◌++◌, map, keep, if◌then◌else◌,
}
use sidq.Prelude.Sets.{member, distinct}
use sidq.Prelude.Sort.{sorted}
use sidq.Value.{Value, str, bool, arr, obj, Items, nil, cons, field, end, strings, eq_value}
use sidq.Models.{TouchedAsset, Evidence, SchemaField, DatasetInfo}
use sidq.Gates.Graph.{
  Asks, ◌>>=◌, give, Reply, answered, failed, GraphClient, graph_unavailable, by_urn,
}

field_items : List SchemaField → Items
field_items [] = nil
field_items (f ∷ fields) =
    cons
      (obj (
        field "path" (str f.path)
          (field "native_type" (str f.native_type) (field "nullable" (bool f.nullable) end))))
      (field_items fields)

abbrev path_le : SchemaField → SchemaField → Bool
path_le f g = str_le f.path g.path

-- `_field_data`
unfoldable pub field_data : List SchemaField → Value
unfolding field_items
field_data fields = arr (field_items (sorted path_le fields))

pub paths : List SchemaField → List String
paths fields = map (λ (f : SchemaField). f.path) fields

-- `sorted(left - right)`
pub difference : List String → List String → List String
difference left right = sorted str_le (distinct (keep (λ p. not (member p right)) left))

unfoldable pub mismatch : String → List SchemaField → List SchemaField → Evidence
unfolding paths difference
mismatch urn catalog source = record {
  kind = "catalog_reality_mismatch";
  subject = urn;
  detail = field "graph_fields" (field_data catalog) (
      field "live_fields" (field_data source) (
        field "missing_in_graph" (arr (strings (difference (paths source) (paths catalog)))) (
          field "missing_in_source" (arr (strings (difference (paths catalog) (paths source))))
            end)));
  graph_links = [];
}

-- What both answers say of an asset.
unfoldable pub compare_sides : String → Option DatasetInfo → Option DatasetInfo → List Evidence
compare_sides urn (some catalog) (some source) =
    if not (eq_value (field_data catalog.fields) (field_data source.fields))
    then mismatch urn catalog.fields source.fields ∷ []
    else []
compare_sides urn catalog source = graph_unavailable urn "dataset_not_found" ∷ []

-- A failure of either call is evidence.
unfoldable pub or_unavailable : String → Reply (List Evidence) → List Evidence
or_unavailable urn (failed error) = graph_unavailable urn error ∷ []
or_unavailable urn (answered evidence) = evidence

module _ {W : Type 0} (graph : GraphClient W) (source : String → Asks W (Option DatasetInfo)) where
  unfoldable pub check_asset : String → Asks W (List Evidence)
  check_asset urn = do
    catalog ← graph.get_dataset urn
    live ← source urn
    give (compare_sides urn catalog live)

  pub collect_all : List TouchedAsset → W → List Evidence × W
  unfolding check_asset or_unavailable
  collect_all [] w = ([], w)
  collect_all (asset ∷ change) w =
      let (reply, w') = check_asset asset.urn w in
      let (later, w'') = collect_all change w' in (or_unavailable asset.urn reply ++ later, w'')

  unfoldable pub collect : List TouchedAsset → W → List Evidence × W
  unfolding collect_all
  collect change w = collect_all (sorted by_urn change) w
