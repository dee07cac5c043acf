-- ===== src/Claims/Reconcile.antt =====
-- `ConstraintReconciler.reconcile` (src/sidq/claims/reconcile.py) on the constraints that the source
-- gives.
pub mod Same
pub mod Backed
pub mod Records
pub mod Duplicates
use sidq.Prelude.{
  String, Bool, true, false, not, ◌&&◌, ◌||◌, Option, none, some, List, [], ◌∷◌, ◌++◌, any, keep,
  map, if◌then◌else◌,
}
use sidq.Prelude.Sort.{sorted}
use sidq.Models.{Evidence}
use sidq.Catalog.Checks.Columns.{is_empty_list}
use sidq.Claims.Models.{
  Claim, LiveConstraint, NormalizedConstraint, CatalogConstraint, DatabaseConstraint, Rung,
  claim_eq,
}
use sidq.Claims.Compare.{
  tier_text, equivalence_tier, subjects_overlap, positive_conflict, is_opaque, normalize_claim,
  counterparts,
}
use sidq.Claims.Canonical.{Sql, is_none, normalize_constraint}
use sidq.Claims.Detail.{live_evidence, catalog_evidence, evidence_key_le}

pub record Reconciled : Type 0 where
  pub evidence : Evidence
  pub addressed : List Claim

unfoldable pub claims_of : List CatalogConstraint → List Claim
claims_of items = map (λ (item : CatalogConstraint). item.claim) items

module _ (sql : Sql) (urn : String) where
  -- The loop over the candidates that looks for an equivalent one.
  unfoldable pub first_match :
      NormalizedConstraint → List CatalogConstraint → Option (CatalogConstraint × Rung)
  first_match database [] = none
  first_match database (item ∷ items) =
      let rest = first_match database items in
      elim (equivalence_tier sql database item.normalized) [
        | none ↦ rest
        | some rung ↦ some (item, rung)
      ]

  -- No candidate is equivalent.
  unfoldable pub unmatched : DatabaseConstraint → List CatalogConstraint → Reconciled
  unfolding claims_of
  unmatched database candidates =
      let conflicts =
        keep
          (λ (item : CatalogConstraint). positive_conflict sql database.normalized item.normalized)
          candidates in
      if not (is_empty_list conflicts)
      then record {
        evidence =
            live_evidence "constraint_contradicts_catalog" urn database conflicts "T3"
              "recognised_constraint_parameters_conflict";
        addressed = claims_of candidates;
      }
      else record {
        evidence = live_evidence "constraint_unverifiable" urn database candidates "T4" (
            if is_opaque sql database.normalized
            then "database_constraint_is_opaque_or_uncanonical"
            else "comparison_is_outside_decidable_equivalence_ladder");
        addressed = claims_of candidates;
      }

  unfoldable pub matched :
      DatabaseConstraint → List CatalogConstraint → Option (CatalogConstraint × Rung) → Reconciled
  unfolding unmatched
  matched database candidates none = unmatched database candidates
  matched database candidates (some (item, rung)) = record {
    evidence =
        live_evidence "constraint_confirmed" urn database (item ∷ []) (tier_text rung)
          "catalog_claim_matches_enforced_constraint";
    addressed = item.claim ∷ [];
  }

  unfoldable pub reconcile_live : DatabaseConstraint → List CatalogConstraint → Reconciled
  unfolding matched first_match claims_of
  reconcile_live database candidates =
      if database.normalized.is_partial
      then record {
        evidence =
            live_evidence "constraint_unverifiable" urn database candidates "T4"
              "partial_constraint_cannot_prove_unconditional_claim";
        addressed = claims_of candidates;
      }
      else if is_empty_list candidates
      then record {
        evidence =
            live_evidence "constraint_missing_in_catalog" urn database [] "catalog_silent"
              "no_catalog_counterpart_for_enforced_constraint";
        addressed = [];
      }
      else matched database candidates (first_match database.normalized candidates)

  -- `_undetermined_database_constraint`
  unfoldable pub undetermined :
      NormalizedConstraint → List DatabaseConstraint → Option DatabaseConstraint
  undetermined catalog [] = none
  undetermined catalog (database ∷ rest) =
      let later = undetermined catalog rest in
      if subjects_overlap sql catalog database.normalized
        && (database.normalized.is_partial || is_opaque sql database.normalized)
      then some database
      else later

  unfoldable pub catalog_only : List DatabaseConstraint → CatalogConstraint → Evidence
  unfolding undetermined
  catalog_only live catalog = elim (undetermined catalog.normalized live) [
    | some blocker ↦
        catalog_evidence "constraint_unverifiable" urn catalog "T4"
          "database_constraint_on_subject_is_opaque_or_undetermined" (some blocker)
    | none ↦
        if is_none catalog.normalized.canonical
        then catalog_evidence "constraint_unverifiable" urn catalog "T4"
            "catalog_claim_is_not_fully_canonical" none
        else catalog_evidence "constraint_contradicts_catalog" urn catalog "T3"
            "catalog_claim_has_no_matching_enforced_constraint" none
  ]

  unfoldable pub normalize_live : LiveConstraint → DatabaseConstraint
  normalize_live item = record {
    live = item;
    normalized =
        normalize_constraint sql item.kind item.columns item.definition item.is_partial
          item.predicate;
  }

  -- `catalog.claim in addressed_catalog`
  unfoldable pub is_addressed : List Claim → CatalogConstraint → Bool
  is_addressed addressed item = any (claim_eq item.claim) addressed

  unfoldable pub live_results : List CatalogConstraint → List DatabaseConstraint → List Reconciled
  unfolding reconcile_live
  live_results catalog live =
      map (λ (d : DatabaseConstraint). reconcile_live d (counterparts sql d.normalized catalog))
        live

  unfoldable pub addressed_by : List Reconciled → List Claim
  addressed_by [] = []
  addressed_by (result ∷ results) = result.addressed ++ addressed_by results

  -- The records before they are sorted.
  unfoldable pub records : List CatalogConstraint → List DatabaseConstraint → List Evidence
  unfolding live_results addressed_by is_addressed catalog_only
  records catalog live =
      let results = live_results catalog live in
      map (λ (r : Reconciled). r.evidence) results
      ++ map (catalog_only live)
          (keep (λ item. not (is_addressed (addressed_by results) item)) catalog)

  unfoldable pub reconcile : List Claim → List LiveConstraint → List Evidence
  unfolding records normalize_live
  reconcile claims constraints =
      sorted evidence_key_le
        (records (map (normalize_claim sql) claims) (map normalize_live constraints))
