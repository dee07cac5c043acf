-- ===== src/Gates/Reality/Drift.antt =====
-- What the reality gate (src/sidq/gates/reality.py) reports, and what its silence means.
use sidq.Prelude.{String, not, Option, none, some, List, [], ◌∷◌, ◌++◌, if_known, ◌≡◌, arith}
use sidq.Prelude.Sort.{sorted}
use sidq.Value.{eq_value}
use sidq.Models.{TouchedAsset, Evidence, DatasetInfo}
use sidq.Gates.Graph.{
  Asks, Reply, answered, failed, GraphClient, give, ◌>>=◌, bind_rule, graph_unavailable, by_urn,
}
use sidq.Gates.Reality.{
  path_le, field_data, compare_sides, or_unavailable, check_asset, collect_all, collect,
}
use sidq.Gates.Reality.Fields.{
  SameFields, Reports, mismatch-Reports, field_data-SameFields, field_data_differs,
}

module _ {W : Type 0} (graph : GraphClient W) (source : String → Asks W (Option DatasetInfo)) where
  -- The answers of the two calls for an asset, one after the other, and the evidence of it.
  pub data Compared (urn : String) : List Evidence → Type 0 where
    catalog_failed :
        (w : W) (error : String)
        → (graph.get_dataset urn w).0 ≡ failed error
        → Compared urn (graph_unavailable urn error ∷ [])
    source_failed :
        (w : W) (error : String)
        → (source urn w).0 ≡ failed error
        → Compared urn (graph_unavailable urn error ∷ [])
    no_catalog :
        (w : W)
        → (graph.get_dataset urn w).0 ≡ answered none
        → Compared urn (graph_unavailable urn "dataset_not_found" ∷ [])
    no_source :
        (w : W)
        → (source urn w).0 ≡ answered none
        → Compared urn (graph_unavailable urn "dataset_not_found" ∷ [])
    drifted :
        (w : W) (catalog live : DatasetInfo)
        → (graph.get_dataset urn w).0 ≡ answered (some catalog)
        → (source urn (graph.get_dataset urn w).1).0 ≡ answered (some live)
        → ¬ SameFields (sorted path_le catalog.fields) (sorted path_le live.fields)
        → (e : Evidence) → Reports urn catalog.fields live.fields e
        → Compared urn (e ∷ [])
    agreed :
        (w : W) (catalog live : DatasetInfo)
        → (graph.get_dataset urn w).0 ≡ answered (some catalog)
        → (source urn (graph.get_dataset urn w).1).0 ≡ answered (some live)
        → SameFields (sorted path_le catalog.fields) (sorted path_le live.fields)
        → Compared urn []

  pub data AllCompared : List TouchedAsset → List Evidence → Type 0 where
    no_assets : AllCompared [] []
    compared :
        (asset : TouchedAsset) (own : List Evidence) (change : List TouchedAsset)
        (evidence : List Evidence)
        → Compared asset.urn own
        → AllCompared change evidence
        → AllCompared (asset ∷ change) (own ++ evidence)

  sides-Compared :
      (urn : String) (w : W) (catalog live : Option DatasetInfo)
      → (graph.get_dataset urn w).0 ≡ answered catalog
      → (source urn (graph.get_dataset urn w).1).0 ≡ answered live
      → Compared urn (compare_sides urn catalog live)
  unfolding compare_sides
  sides-Compared urn w (some catalog) (some live) e k =
      let same = eq_value (field_data catalog.fields) (field_data live.fields) in
      if_known (Compared urn) (not same) _ _
        (λ h.
          drifted w catalog live e k
            (field_data_differs catalog.fields live.fields (ground (arith, h))) _
            (mismatch-Reports urn catalog.fields live.fields))
        (λ h.
          agreed w catalog live e k
            (field_data-SameFields catalog.fields live.fields (ground (arith, h))))
  sides-Compared urn w (some catalog) none e k = no_source (graph.get_dataset urn w).1 k
  sides-Compared urn w none live e k = no_catalog w e

  Fits : String → Reply (List Evidence) → Type 0
  unfolding or_unavailable
  Fits urn reply = Compared urn (or_unavailable urn reply)

  check_asset-Fits : (urn : String) (w : W) → Fits urn (check_asset graph source urn w).0
  unfolding check_asset Fits
  check_asset-Fits urn w =
      bind_rule (Fits urn) (graph.get_dataset urn)
        (λ catalog. source urn >>= (λ live. give (compare_sides urn catalog live))) w
        (λ error e. catalog_failed w error e)
        (λ catalog e.
          bind_rule (Fits urn) (source urn) (λ live. give (compare_sides urn catalog live))
            (graph.get_dataset urn w).1
            (λ error k. source_failed (graph.get_dataset urn w).1 error k)
            (λ live k. sides-Compared urn w catalog live e k))

  all-Compared :
      (change : List TouchedAsset) (w : W)
      → AllCompared change (collect_all graph source change w).0
  unfolding collect_all Fits
  all-Compared [] w = no_assets
  all-Compared (asset ∷ change) w =
      compared asset _ change _ (check_asset-Fits asset.urn w)
        (all-Compared change (check_asset graph source asset.urn w).1)

  -- Whatever the catalog and the live source answer, the reality gate is silent about an asset only
  -- if both showed it with the same fields, by path, type and nullability. Else it says, for each asset in the order of the URNs,
  -- that one of the two failed or does not have the asset, or that their fields differ, with the paths
  -- that either side lacks.
  pub collect-AllCompared :
      (change : List TouchedAsset) (w : W)
      → AllCompared (sorted by_urn change) (collect graph source change w).0
  unfolding collect
  collect-AllCompared change w = all-Compared (sorted by_urn change) w
