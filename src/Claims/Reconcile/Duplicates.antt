-- ===== src/Claims/Reconcile/Duplicates.antt =====
-- Two claims that one live constraint enforces (`_reconcile_live` in
-- src/sidq/claims/reconcile.py, whose loop returns at the first equivalent claim).
use sidq.Prelude.{
  String, true, false, not, Option, none, some, List, [], ◌∷◌, keep, ◌≡◌, refl, arith, str_eq_refl,
  subst,
}
use mathlib.Core.List.{Perm}
use sidq.Prelude.Sort.{sorted, sorted-perm}
use sidq.Catalog.Checks.Columns.{is_empty_list}
use sidq.Claims.Models.{
  Claim, LiveConstraint, NormalizedConstraint, CatalogConstraint, DatabaseConstraint, Rung,
  claim_eq, type_text, list_eq, option_eq, values_eq,
}
use sidq.Claims.Compare.{
  equivalence_tier, normalize_claim, counterparts, same_subject, same_family, first_some, is_opaque,
  tier_text,
}
use sidq.Claims.Canonical.{Sql, is_none}
use sidq.Claims.Detail.{live_evidence, catalog_evidence, evidence_key_le}
use sidq.Claims.Reconcile.{
  first_match, matched, reconcile_live, undetermined, catalog_only, normalize_live, live_results,
  is_addressed, addressed_by, records, reconcile,
}

list_eq_refl : (xs : List String) → list_eq xs xs ≡ true
unfolding list_eq
list_eq_refl [] = refl
list_eq_refl (x ∷ xs) = ground (arith, str_eq_refl x, list_eq_refl xs)

option_eq_refl : (x : Option String) → option_eq x x ≡ true
unfolding option_eq
option_eq_refl none = refl
option_eq_refl (some x) = str_eq_refl x

values_eq_refl : (x : Option (List String)) → values_eq x x ≡ true
unfolding values_eq
values_eq_refl none = refl
values_eq_refl (some x) = list_eq_refl x

claim_eq_refl : (c : Claim) → claim_eq c c ≡ true
unfolding claim_eq
claim_eq_refl c = ground (
  arith,
  str_eq_refl (type_text c.kind),
  str_eq_refl c.column,
  values_eq_refl c.values,
  option_eq_refl c.expr,
  str_eq_refl c.source_sentence,
  str_eq_refl c.confidence,
  str_eq_refl c.origin,
)

module _ (sql : Sql) (urn : String) where
  -- A claim and a constraint on the same columns, of the same family, that are equivalent.
  unfoldable pub Matches : NormalizedConstraint → CatalogConstraint → Rung → Type 0
  Matches d item rung =
      (same_subject sql d item.normalized ≡ true)
      × (same_family d item.normalized ≡ true)
      × (equivalence_tier sql d item.normalized ≡ some rung)

  both_counterparts :
      (d : NormalizedConstraint) (a b : CatalogConstraint) (r q : Rung)
      → Matches d a r
      → Matches d b q
      → counterparts sql d (a ∷ b ∷ []) ≡ a ∷ b ∷ []
  unfolding counterparts first_some Matches
  both_counterparts d a b r q h k = ground (arith, h, k)

  confirms_first :
      (d : DatabaseConstraint) (a b : CatalogConstraint) (r : Rung)
      → Matches d.normalized a r
      → d.normalized.is_partial ≡ false
      → reconcile_live sql urn d (a ∷ b ∷ []) ≡ record {
        evidence =
            live_evidence "constraint_confirmed" urn d
              (a ∷ [])
              (tier_text r)
              "catalog_claim_matches_enforced_constraint";
        addressed = a.claim ∷ [];
      }
  unfolding reconcile_live matched first_match Matches is_empty_list
  confirms_first d a b r h p = ground (arith, h, p)

  contradicts_second :
      (d : DatabaseConstraint) (b : CatalogConstraint)
      → d.normalized.is_partial ≡ false
      → is_opaque sql d.normalized ≡ false
      → is_none b.normalized.canonical ≡ false
      → catalog_only sql urn (d ∷ []) b
        ≡ catalog_evidence "constraint_contradicts_catalog" urn b "T3"
            "catalog_claim_has_no_matching_enforced_constraint" none
  unfolding catalog_only undetermined
  contradicts_second d b p o c = ground (arith, p, o, c)

  second_left :
      (a b : CatalogConstraint)
      → claim_eq b.claim a.claim ≡ false
      → keep (λ item. not (is_addressed sql urn (a.claim ∷ []) item)) (a ∷ b ∷ []) ≡ b ∷ []
  unfolding is_addressed
  second_left a b n = ground (arith, n, claim_eq_refl a.claim)

  two_records :
      (d : DatabaseConstraint) (a b : CatalogConstraint) (r q : Rung)
      → Matches d.normalized a r
      → Matches d.normalized b q
      → d.normalized.is_partial ≡ false
      → is_opaque sql d.normalized ≡ false
      → is_none b.normalized.canonical ≡ false
      → claim_eq b.claim a.claim ≡ false
      → records sql urn (a ∷ b ∷ []) (d ∷ [])
        ≡ live_evidence "constraint_confirmed" urn d
            (a ∷ [])
            (tier_text r)
            "catalog_claim_matches_enforced_constraint"
          ∷ catalog_evidence "constraint_contradicts_catalog" urn b "T3"
              "catalog_claim_has_no_matching_enforced_constraint" none
          ∷ []
  unfolding records live_results addressed_by
  two_records d a b r q h k p o c n =
      rw
        (
          both_counterparts d.normalized a b r q h k,
          confirms_first d a b r h p,
          second_left a b n,
          contradicts_second d b p o c,
        )
        refl

  -- When two different claims both stand for what one live constraint enforces, as when two sentences
  -- of the documentation state the same, a reconciliation confirms the first and reports that the
  -- second contradicts the database, although the constraint is equivalent to both.
  pub reconcile_duplicate :
      (a b : Claim) (l : LiveConstraint) (r q : Rung)
      → Matches (normalize_live sql urn l).normalized (normalize_claim sql a) r
      → Matches (normalize_live sql urn l).normalized (normalize_claim sql b) q
      → (normalize_live sql urn l).normalized.is_partial ≡ false
      → is_opaque sql (normalize_live sql urn l).normalized ≡ false
      → is_none (normalize_claim sql b).normalized.canonical ≡ false
      → claim_eq b a ≡ false
      → Perm (reconcile sql urn (a ∷ b ∷ []) (l ∷ [])) (
          live_evidence "constraint_confirmed" urn
            (normalize_live sql urn l)
            (normalize_claim sql a ∷ [])
            (tier_text r)
            "catalog_claim_matches_enforced_constraint"
          ∷ catalog_evidence "constraint_contradicts_catalog" urn
              (normalize_claim sql b)
              "T3"
              "catalog_claim_has_no_matching_enforced_constraint"
              none
          ∷ [])
  unfolding reconcile normalize_claim
  reconcile_duplicate a b l r q h k p o c n =
      let made =
        records sql urn (normalize_claim sql a ∷ normalize_claim sql b ∷ [])
          (normalize_live sql urn l ∷ []) in
      subst (Perm (sorted evidence_key_le made))
        (two_records (normalize_live sql urn l) (normalize_claim sql a) (normalize_claim sql b) r q
          h k p o c n)
        (sorted-perm evidence_key_le made)
