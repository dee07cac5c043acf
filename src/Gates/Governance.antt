-- ===== src/Gates/Governance.antt =====
-- Gate 3 (src/sidq/gates/governance.py): owners of the changed assets and deprecated upstreams.
-- `repr` of a detail is a parameter.
pub mod Settled
pub mod Reported
use sidq.Prelude.{
  String, str_eq, str_le, Bool, ◌&&◌, Option, none, some, List, [], ◌∷◌, ◌++◌, map, keep,
  if◌then◌else◌,
}
use sidq.Prelude.Sets.{distinct}
use sidq.Prelude.Sort.{sorted}
use sidq.Value.{Fields, str, arr, nil, field, end, strings}
use sidq.Models.{FieldRef, TouchedAsset, Evidence, DatasetInfo}
use sidq.Catalog.Snapshot.{le_then}
use sidq.Catalog.Checks.Columns.{is_empty_list}
use sidq.Gates.Graph.{
  Reply, answered, failed, GraphClient, Cache, cached, graph_unavailable, by_urn,
}

unfoldable pub unowned_asset : String → Evidence
unowned_asset urn = record {
  kind = "unowned_asset";
  subject = urn;
  detail = field "owners" (arr nil) (field "confidence" (str "high") end);
  graph_links = [];
}

unfoldable pub check_owners : String → Option DatasetInfo → List Evidence
check_owners urn none = []
check_owners urn (some info) = if is_empty_list info.owners then unowned_asset urn ∷ [] else []

-- The sorted set of the datasets that an asset refers to.
unfoldable pub upstreams : TouchedAsset → List String
upstreams asset =
    sorted str_le (distinct (map (λ (r : FieldRef). r.dataset_urn) asset.referenced_fields))

referenced_from : TouchedAsset → String → List String
referenced_from asset upstream = sorted str_le (
    distinct (
      map (λ (r : FieldRef). r.field_path)
        (keep (λ (r : FieldRef). str_eq r.dataset_urn upstream) asset.referenced_fields)))

unfoldable pub deprecated_upstream : TouchedAsset → String → Evidence
unfolding referenced_from
deprecated_upstream asset upstream = record {
  kind = "deprecated_upstream";
  subject = upstream;
  detail = field "referenced_by" (str asset.urn) (
      field "referenced_fields" (arr (strings (referenced_from asset upstream)))
        (field "confidence" (str "high") end));
  graph_links = [];
}

unfoldable pub unread : String → Reply (Option DatasetInfo) → List Evidence
unread urn (failed error) = graph_unavailable urn error ∷ []
unread urn (answered info) = []

unfoldable pub check_upstream : TouchedAsset → String → Reply (Option DatasetInfo) → List Evidence
check_upstream asset upstream (failed error) = []
check_upstream asset upstream (answered none) = []
check_upstream asset upstream (answered (some info)) =
    if info.deprecated then deprecated_upstream asset upstream ∷ [] else []

unfoldable pub evidence_le : (Fields → String) → Evidence → Evidence → Bool
unfolding le_then
evidence_le repr a b =
    le_then a.kind b.kind (le_then a.subject b.subject (str_le (repr a.detail) (repr b.detail)))

module _ {W : Type 0} (graph : GraphClient W) where
  -- `_deprecated_upstreams`: what could not be read, and the results.
  pub deprecated_upstreams :
      TouchedAsset → List String → Cache → W → (List Evidence × List Evidence) × (Cache × W)
  unfolding check_upstream unread
  deprecated_upstreams asset [] cache w = (([], []), (cache, w))
  deprecated_upstreams asset (upstream ∷ rest) cache w =
      let (reply, kept) = cached graph upstream cache w in
      let (later, kept') = deprecated_upstreams asset rest kept.0 kept.1 in
      ((unread upstream reply ++ later.0, check_upstream asset upstream reply ++ later.1), kept')

  -- One asset.
  pub check_asset :
      TouchedAsset → Reply (Option DatasetInfo) → Cache → W → List Evidence × (Cache × W)
  unfolding check_owners deprecated_upstreams upstreams
  check_asset asset (failed error) cache w = (graph_unavailable asset.urn error ∷ [], (cache, w))
  check_asset asset (answered info) cache w =
      let (later, kept) = deprecated_upstreams asset (upstreams asset) cache w in
      (check_owners asset.urn info ++ (later.0 ++ later.1), kept)

  pub collect_all : List TouchedAsset → Cache → W → List Evidence × W
  unfolding check_asset
  collect_all [] cache w = ([], w)
  collect_all (asset ∷ change) cache w =
      let (reply, kept) = cached graph asset.urn cache w in
      let (own, kept') = check_asset asset reply kept.0 kept.1 in
      let (later, w') = collect_all change kept'.0 kept'.1 in (own ++ later, w')

  unfoldable pub collect : (Fields → String) → List TouchedAsset → W → List Evidence × W
  unfolding collect_all evidence_le
  collect repr change w =
      let (evidence, w') = collect_all (sorted by_urn change) [] w in
      (sorted (evidence_le repr) evidence, w')
