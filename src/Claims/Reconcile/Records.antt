-- ===== src/Claims/Reconcile/Records.antt =====
-- The records of a reconciliation (src/sidq/claims/reconcile.py).
use sidq.Prelude.{
  String, str_eq, Bool, true, not, ◌&&◌, Option, none, some, List, [], ◌∷◌, any, keep, map, All,
  All-map, if_known, ◌≡◌, arith, str_eq_refl, any-append, any-perm,
}
use sidq.Prelude.Sort.{sorted-perm}
use sidq.Models.{Evidence}
use sidq.Catalog.Checks.Columns.{is_empty_list}
use sidq.Claims.Models.{Claim, LiveConstraint, CatalogConstraint, Rung}
use sidq.Claims.Compare.{positive_conflict, normalize_claim, counterparts}
use sidq.Claims.Canonical.{Sql}
use sidq.Claims.Detail.{live_evidence, evidence_key_le, subject_of, text_at, detail_of, fields_of}
use sidq.Receipt.State.{get}
use sidq.Value.{get_key}
use sidq.Claims.Reconcile.{
  Reconciled, unmatched, matched, reconcile_live, catalog_only, normalize_live, live_results,
  is_addressed, addressed_by, records, reconcile,
}
use sidq.Claims.Reconcile.Backed.{IsBacked, records-IsBacked}

-- The evidence is about the live constraint.
unfoldable pub names : Sql → String → LiveConstraint → Evidence → Bool
names sql urn l e =
    str_eq e.subject (subject_of urn (normalize_live sql urn l).normalized.columns)
    && str_eq (text_at "constraint_name" e.detail) l.name

module _ (sql : Sql) (urn : String) where
  live_evidence-names :
      (l : LiveConstraint) (kind tier reason : String) (items : List CatalogConstraint)
      → names sql urn l (live_evidence kind urn (normalize_live sql urn l) items tier reason) ≡ true
  unfolding names live_evidence detail_of fields_of text_at get get_key normalize_live
  live_evidence-names l kind tier reason items = ground (
    arith,
    str_eq_refl (subject_of urn (normalize_live sql urn l).normalized.columns),
    str_eq_refl l.name,
  )

  unfoldable Named : LiveConstraint → Reconciled → Type 0
  Named l r = names sql urn l r.evidence ≡ true

  matched-Named :
      (l : LiveConstraint) (candidates : List CatalogConstraint)
      (found : Option (CatalogConstraint × Rung))
      → Named l (matched sql urn (normalize_live sql urn l) candidates found)
  unfolding matched unmatched Named
  matched-Named l candidates (some (item, rung)) = live_evidence-names l _ _ _ _
  matched-Named l candidates none =
      let conflicts =
        keep
          (λ (item : CatalogConstraint).
            positive_conflict sql (normalize_live sql urn l).normalized item.normalized)
          candidates in
      if_known (Named l) (not (is_empty_list conflicts)) _ _ (λ e. live_evidence-names l _ _ _ _)
        (λ e. live_evidence-names l _ _ _ _)

  reconcile_live-Named :
      (l : LiveConstraint) (candidates : List CatalogConstraint)
      → Named l (reconcile_live sql urn (normalize_live sql urn l) candidates)
  unfolding reconcile_live Named
  reconcile_live-Named l candidates =
      if_known (Named l) (normalize_live sql urn l).normalized.is_partial _ _
        (λ e. live_evidence-names l _ _ _ _)
        (λ p.
          if_known (Named l) (is_empty_list candidates) _ _ (λ e. live_evidence-names l _ _ _ _)
            (λ e. matched-Named l candidates _))

  every_named :
      (items : List CatalogConstraint) (constraints : List LiveConstraint)
      → All
          (λ l.
            any (names sql urn l) (
              map
                (λ (r : Reconciled). r.evidence)
                (live_results sql urn items (map (normalize_live sql urn) constraints)))
            ≡ true)
          constraints
  unfolding live_results Named
  every_named items [] = tt
  every_named items (l ∷ constraints) = (
    ground (
      arith,
      reconcile_live-Named l (counterparts sql (normalize_live sql urn l).normalized items),
    ),
    All-map _ _ constraints (λ k h. ground (arith, h)) (every_named items constraints),
  )

  -- A reconciliation confirms only what is so, and leaves no constraint out: a confirmation
  -- names a live constraint that is not partial, with its definition, lists one claim among
  -- those given and no other, and gives the tier on which the two are equivalent: they are of
  -- one family, and their texts have one fingerprint, one canonical form, or one form after the
  -- rewrites. Every live constraint has a record that carries its name, about its asset and
  -- columns.
  pub reconcile-IsBacked :
      (L : LiveConstraint → Type 0) (C : Claim → Type 0) (claims : List Claim)
      (constraints : List LiveConstraint)
      → All L constraints
      → All C claims
      → All (IsBacked sql urn L C) (reconcile sql urn claims constraints)
        × All (λ l. any (names sql urn l) (reconcile sql urn claims constraints) ≡ true) constraints
  unfolding reconcile records
  reconcile-IsBacked L C claims constraints hl hc =
      let items = map (normalize_claim sql) claims in
      let live = map (normalize_live sql urn) constraints in
      let made = records sql urn items live in
      (
        records-IsBacked sql urn L C claims constraints hl hc,
        All-map _ _ constraints
            (λ l h. ground (
              arith,
              h,
              any-perm (names sql urn l) (sorted-perm evidence_key_le made),
              any-append (names sql urn l)
                  (map (λ (r : Reconciled). r.evidence) (live_results sql urn items live))
                  (map (catalog_only sql urn live) (
                    keep
                      (λ item. not (
                        is_addressed sql urn
                          (addressed_by sql urn (live_results sql urn items live)) item))
                      items)),
            ))
            (every_named items constraints),
      )
