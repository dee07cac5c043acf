-- ===== src/Claims/Reconcile/Backed.antt =====
-- Where the confirmations of a reconciliation (src/sidq/claims/reconcile.py) come from.
use sidq.Prelude.{
  String, str_eq, true, false, not, Option, none, some, List, [], ◌∷◌, keep, map, All, All-append,
  All-pure, map-All, keep-All, if◌then◌else◌, if_known, ◌≡◌, refl, arith, subst,
}
use sidq.Prelude.Sort.{sorted-All}
use sidq.Value.{Fields, str, arr, obj, nil, cons, get_key}
use sidq.Models.{Evidence}
use sidq.Catalog.Checks.Columns.{is_empty_list}
use sidq.Claims.Models.{
  Claim, LiveConstraint, NormalizedConstraint, CatalogConstraint, DatabaseConstraint, Rung,
}
use sidq.Claims.Compare.{
  equivalence_tier, positive_conflict, normalize_claim, counterparts, first_some, tier_text,
}
use sidq.Claims.Canonical.{Sql, is_none}
use sidq.Claims.Detail.{
  live_evidence, catalog_evidence, evidence_key_le, detail_of, claims_detail, claim_detail,
  fields_of,
}
use sidq.Claims.Reconcile.{
  Reconciled, first_match, unmatched, matched, reconcile_live, undetermined, catalog_only,
  normalize_live, live_results, records, reconcile,
}
use sidq.Claims.Reconcile.Same.{IsSame, equivalence_tier-IsSame}

module _ (sql : Sql) (urn : String) (L : LiveConstraint → Type 0) (C : Claim → Type 0) where
  -- What a confirmation says: it names the live constraint and shows its definition, lists this
  -- claim and no other, and gives the tier on which the two are equivalent. The constraint is one of
  -- those given and not partial, and the claim is one of those given.
  pub record Backing (e : Evidence) : Type 0 where
    pub l : LiveConstraint
    pub c : Claim
    pub rung : Rung
    pub is_live : L l
    pub is_claimed : C c
    pub whole : (normalize_live sql urn l).normalized.is_partial ≡ false
    pub equivalent :
        IsSame sql rung (normalize_live sql urn l).normalized (normalize_claim sql c).normalized
    pub constraint_named : get_key "constraint_name" e.detail ≡ some (str l.name)
    pub definition_shown : get_key "raw_ddl" e.detail ≡ some (str l.definition)
    pub tier_shown : get_key "tier" e.detail ≡ some (str (tier_text rung))
    pub shown : Fields
    pub one_claim : get_key "catalog_claims" e.detail ≡ some (arr (cons (obj shown) nil))
    pub column_shown : get_key "column" shown ≡ some (str c.column)
    pub sentence_shown : get_key "source_sentence" shown ≡ some (str c.source_sentence)

  -- A confirmation is backed.
  unfoldable pub IsBacked : Evidence → Type 0
  IsBacked e = str_eq e.kind "constraint_confirmed" ≡ true → Backing e

  other-IsBacked : (e : Evidence) → str_eq e.kind "constraint_confirmed" ≡ false → IsBacked e
  unfolding IsBacked
  other-IsBacked e k h = let q : false ≡ true = ground (arith, k, h) in cc

  -- The evidence of a result is backed.
  unfoldable ResultBacked : Reconciled → Type 0
  unfolding IsBacked
  ResultBacked r = IsBacked r.evidence

  other-ResultBacked :
      (r : Reconciled) → str_eq r.evidence.kind "constraint_confirmed" ≡ false → ResultBacked r
  unfolding ResultBacked
  other-ResultBacked r h = other-IsBacked r.evidence h

  some-All :
      (P : CatalogConstraint → Type 0) (xs ys : List CatalogConstraint)
      → All P xs
      → All P ys
      → All P (first_some sql xs ys)
  unfolding first_some
  some-All P [] ys h k = k
  some-All P (x ∷ xs) ys h k = h

  -- What holds of no match, and of every candidate that is equivalent, holds of the first match.
  first_match_holds :
      (database : NormalizedConstraint) (items : List CatalogConstraint)
      (Q : CatalogConstraint → Type 0) (P : Option (CatalogConstraint × Rung) → Type 0)
      → All Q items
      → P none
      → ((item : CatalogConstraint) (rung : Rung)
          → Q item
          → equivalence_tier sql database item.normalized ≡ some rung
          → P (some (item, rung)))
      → P (first_match sql urn database items)
  unfolding first_match
  first_match_holds database [] Q P h n k = n
  first_match_holds database (i ∷ items) Q P h n k =
      let rest = first_match sql urn database items in
      elim (equivalence_tier sql database i.normalized)
          as (λ t.
            equivalence_tier sql database i.normalized ≡ t
            → P (elim t [ none ↦ rest | some rung ↦ some (i, rung) ])) [
              | none ↦ λ e. first_match_holds database items Q P h.1 n k
              | some rung ↦ λ e. k i rung h.0 e
            ]
        refl

  -- A normalized claim that the run was given.
  IsGiven : CatalogConstraint → Type 0
  IsGiven item = C item.claim × (item ≡ normalize_claim sql item.claim)

  unmatched-IsBacked :
      (d : DatabaseConstraint) (candidates : List CatalogConstraint)
      → ResultBacked (unmatched sql urn d candidates)
  unfolding unmatched live_evidence
  unmatched-IsBacked d candidates =
      let conflicts =
        keep (λ (item : CatalogConstraint). positive_conflict sql d.normalized item.normalized)
          candidates in
      if_known ResultBacked (not (is_empty_list conflicts)) _ _ (λ e. other-ResultBacked _ refl)
        (λ e. other-ResultBacked _ refl)

  matched-IsBacked :
      (l : LiveConstraint) (candidates : List CatalogConstraint)
      → L l
      → All IsGiven candidates
      → (normalize_live sql urn l).normalized.is_partial ≡ false
      → ResultBacked (
          matched sql urn
            (normalize_live sql urn l)
            candidates
            (first_match sql urn (normalize_live sql urn l).normalized candidates))
  unfolding ResultBacked matched live_evidence IsBacked IsGiven detail_of claims_detail claim_detail
      fields_of get_key normalize_live
  matched-IsBacked l candidates hl hc p =
      let d = normalize_live sql urn l in
      first_match_holds d.normalized candidates IsGiven
        (λ found. ResultBacked (matched sql urn d candidates found)) hc
        (unmatched-IsBacked d candidates)
        (λ item rung g e h. record {
          l = l;
          c = item.claim;
          rung = rung;
          is_live = hl;
          is_claimed = g.0;
          whole = p;
          equivalent =
              subst (λ (i : CatalogConstraint). IsSame sql rung d.normalized i.normalized) g.1
                (equivalence_tier-IsSame sql d.normalized item.normalized rung e);
          constraint_named = refl;
          definition_shown = refl;
          tier_shown = refl;
          shown = _;
          one_claim = refl;
          column_shown = refl;
          sentence_shown = refl;
        })

  reconcile_live-IsBacked :
      (l : LiveConstraint) (candidates : List CatalogConstraint)
      → L l
      → All IsGiven candidates
      → ResultBacked (reconcile_live sql urn (normalize_live sql urn l) candidates)
  unfolding reconcile_live live_evidence
  reconcile_live-IsBacked l candidates hl hc =
      if_known ResultBacked (normalize_live sql urn l).normalized.is_partial _ _
        (λ e. other-ResultBacked _ refl)
        (λ p.
          if_known ResultBacked (is_empty_list candidates) _ _ (λ e. other-ResultBacked _ refl)
            (λ e. matched-IsBacked l candidates hl hc p))

  catalog_only-IsBacked :
      (live : List DatabaseConstraint) (item : CatalogConstraint)
      → IsBacked (catalog_only sql urn live item)
  unfolding catalog_only catalog_evidence
  catalog_only-IsBacked live item =
      elim (undetermined sql urn item.normalized live)
        as (λ u. IsBacked (elim u [
          | some blocker ↦
              catalog_evidence "constraint_unverifiable" urn item "T4"
                "database_constraint_on_subject_is_opaque_or_undetermined" (some blocker)
          | none ↦
              if is_none item.normalized.canonical
              then catalog_evidence "constraint_unverifiable" urn item "T4"
                  "catalog_claim_is_not_fully_canonical" none
              else catalog_evidence "constraint_contradicts_catalog" urn item "T3"
                  "catalog_claim_has_no_matching_enforced_constraint" none
        ])) [
          | some blocker ↦ other-IsBacked _ refl
          | none ↦
              if_known IsBacked (is_none item.normalized.canonical) _ _ (λ e. other-IsBacked _ refl)
                (λ e. other-IsBacked _ refl)
        ]

  counterparts-IsGiven :
      (database : NormalizedConstraint) (items : List CatalogConstraint)
      → All IsGiven items
      → All IsGiven (counterparts sql database items)
  unfolding counterparts
  counterparts-IsGiven database items h =
      some-All IsGiven _ _ (keep-All IsGiven _ items h)
        (some-All IsGiven _ _ (keep-All IsGiven _ items h) (keep-All IsGiven _ items h))

  normalized-IsGiven :
      (claims : List Claim) → All C claims → All IsGiven (map (normalize_claim sql) claims)
  unfolding IsGiven normalize_claim
  normalized-IsGiven [] h = tt
  normalized-IsGiven (c ∷ claims) h = ((h.0, refl), normalized-IsGiven claims h.1)

  live-IsBacked :
      (claims : List Claim) (constraints : List LiveConstraint)
      → All L constraints
      → All C claims
      → All ResultBacked (
          live_results sql urn
            (map (normalize_claim sql) claims)
            (map (normalize_live sql urn) constraints))
  unfolding live_results
  live-IsBacked claims [] hl hc = tt
  live-IsBacked claims (l ∷ constraints) hl hc = (
    reconcile_live-IsBacked l _ hl.0 (
        counterparts-IsGiven (normalize_live sql urn l).normalized _
          (normalized-IsGiven claims hc)),
    live-IsBacked claims constraints hl.1 hc,
  )

  pub records-IsBacked :
      (claims : List Claim) (constraints : List LiveConstraint)
      → All L constraints
      → All C claims
      → All IsBacked (reconcile sql urn claims constraints)
  unfolding ResultBacked reconcile records
  records-IsBacked claims constraints hl hc =
      let items = map (normalize_claim sql) claims in
      let live = map (normalize_live sql urn) constraints in
      sorted-All evidence_key_le IsBacked _ (
        All-append IsBacked _ _
          (map-All IsBacked (λ (r : Reconciled). r.evidence) (live_results sql urn items live)
            (live-IsBacked claims constraints hl hc))
          (map-All IsBacked (catalog_only sql urn live) _ (
            All-pure (λ item. IsBacked (catalog_only sql urn live item)) _
              (catalog_only-IsBacked live))))
