-- ===== src/Catalog/Gate/Kinds.antt =====
-- The gate returns on every snapshot, and which checks can name a missing endpoint.
use sidq.Prelude.{
  String, str_eq, false, ◌&&◌, Option, none, some, List, [], ◌∷◌, map, All, All-append, any,
  Bool-cases, Option-cases, ◌≡◌, refl, subst, arith, inl, inr,
}
use sidq.Prelude.Dict.{Dict}
use sidq.Prelude.Sort.{sorted}
use sidq.Models.{Evidence}
use sidq.Catalog.Snapshot.{
  CatalogEntity, LineageEdge, CatalogSnapshot, unverifiable, unique, unique_from, same_evidence,
  edge_key_le,
}
use sidq.Catalog.Checks.Lineage.{
  collect_all, is_dataset, paths, missing_target, missing_field, lineage_field_missing,
}
use sidq.Catalog.Checks.Columns.{
  missing_reference, documentation_text, documentation_claims, field_claims, entity_documentation,
  documentation, unowned, unowned_consumed, unresolved, by_urn, path_le,
}
use sidq.Catalog.Checks.Pii.{leak_between, leak_fields, leak_entities, pii_leak}
use sidq.Catalog.Checks.Consumers.{
  Consumer, live_bi_consumers, deprecated_evidence, deprecated_source, collect_options,
  deprecated_upstream_of_live,
}
use sidq.Catalog.Checks.Consumers.Total.{deprecated_upstream_of_live_total}
use sidq.Catalog.Gate.{entities_by_urn, collect}

-- The gate returns on every snapshot: no check raises, and the search for live consumers ends.
pub collect_total :
    (casefold : String → String) (column_references : String → List String)
    (snapshot : CatalogSnapshot)
    → (found : List Evidence) × (collect casefold column_references snapshot ≡ some found)
unfolding collect
collect_total casefold column_references snapshot =
    let (first, e) = deprecated_upstream_of_live_total (entities_by_urn snapshot) snapshot.edges in
    rw (collect, e) (_, refl)

-- Not a report of a missing endpoint.
abbrev pub Other : Evidence → Type 0
Other ev = str_eq ev.kind "orphan_lineage" ≡ false

pub collect_all-All {ℓ} :
    {A : Type ℓ} (P : Evidence → Type 0) (step : A → List Evidence) (xs : List A)
    → ((x : A) → All P (step x))
    → All P (collect_all step xs)
unfolding collect_all
collect_all-All P step [] h = tt
collect_all-All P step (x ∷ xs) h =
    All-append P (step x) (collect_all step xs) (h x) (collect_all-All P step xs h)

unique_from-All :
    (P : Evidence → Type 0) (seen items : List Evidence)
    → All P items
    → All P (unique_from seen items)
unfolding unique_from
unique_from-All P seen [] h = tt
unique_from-All P seen (item ∷ items) h = elim (Bool-cases (any (same_evidence item) seen)) [
  | inl e ↦ rw (unique_from, e) (unique_from-All P seen items h.1)
  | inr e ↦ rw (unique_from, e) (h.0, unique_from-All P (item ∷ seen) items h.1)
]

pub unique-All :
    (P : Evidence → Type 0) (items : List Evidence) → All P items → All P (unique items)
unfolding unique
unique-All P items h = unique_from-All P [] items h

module _ (casefold : String → String) (column_references : String → List String) where
  missing_field-Other :
      (entities : Dict CatalogEntity) (edge : LineageEdge)
      → All Other (missing_field casefold entities edge)
  unfolding missing_field missing_target unverifiable
  missing_field-Other entities edge = ground arith

  pub lineage_field_missing-Other :
      (entities : Dict CatalogEntity) (edges : List LineageEdge)
      → All Other (lineage_field_missing casefold entities edges)
  unfolding lineage_field_missing
  lineage_field_missing-Other entities edges = unique-All Other _ (
      collect_all-All Other (missing_field casefold entities) (sorted edge_key_le edges)
        (missing_field-Other entities))

  claims-Other :
      (schema : List String) (text : Option String) (subject : String)
      → All Other (documentation_claims column_references schema text subject)
  unfolding documentation_claims documentation_text missing_reference
  claims-Other schema none subject = tt
  claims-Other schema (some text) subject = elim (Bool-cases (str_eq text "")) [
    | inl e ↦ rw e tt
    | inr e ↦ rw e (collect_all-All Other _ _ (λ r. ground arith))
  ]

  pub documentation-Other :
      (entities : Dict CatalogEntity) → All Other (documentation column_references entities)
  unfolding documentation entity_documentation field_claims
  documentation-Other entities =
      collect_all-All Other (entity_documentation column_references) (by_urn entities) (λ entity.
        elim (Bool-cases (is_dataset entity && entity.schema_available)) [
          | inl e ↦ rw e (
              All-append Other _ _
                (collect_all-All Other (field_claims column_references entity)
                  (sorted path_le entity.fields) (λ f. claims-Other (paths entity) f.description _))
                (claims-Other (paths entity) entity.description entity.urn))
          | inr e ↦ rw e tt
        ])

  pub pii_leak-Other :
      (entities : Dict CatalogEntity) (edge : LineageEdge)
      → All Other (pii_leak casefold entities edge)
  unfolding pii_leak leak_entities leak_fields leak_between unverifiable
  pii_leak-Other entities edge = ground arith

unowned-Other :
    (entities : Dict CatalogEntity) (edges : List LineageEdge) (entity : CatalogEntity)
    → All Other (unowned entities edges entity)
unfolding unowned
unowned-Other entities edges entity = ground arith

pub unresolved-Other :
    (resolved : List String) (entity : CatalogEntity) → All Other (unresolved resolved entity)
unfolding unresolved unverifiable
unresolved-Other resolved entity = ground arith

deprecated-Other :
    (source : String) (consumers : List Consumer)
    → All Other (map (deprecated_evidence source) consumers)
unfolding deprecated_evidence
deprecated-Other source [] = tt
deprecated-Other source (c ∷ cs) = (refl, deprecated-Other source cs)

-- Of what was returned, if anything.
abbrev pub Returned : (Evidence → Type 0) → Option (List Evidence) → Type 0
Returned P none = Unit
Returned P (some found) = All P found

deprecated_source-Other :
    (entities : Dict CatalogEntity) (edges : List LineageEdge) (source : CatalogEntity)
    → Returned Other (deprecated_source entities edges source)
unfolding deprecated_source
deprecated_source-Other entities edges source = elim (Bool-cases source.deprecated) [
  | inl e ↦ elim (Option-cases (live_bi_consumers source.urn entities edges)) [
    | inl f ↦ rw (deprecated_source, e, f) tt
    | inr (consumers, f) ↦ rw (deprecated_source, e, f) (deprecated-Other source.urn consumers)
  ]
  | inr e ↦ rw (deprecated_source, e) tt
]

collect_options-Returned {ℓ} :
    {A : Type ℓ} (P : Evidence → Type 0) (step : A → Option (List Evidence)) (xs : List A)
    → ((x : A) → Returned P (step x))
    → Returned P (collect_options step xs)
unfolding collect_options
collect_options-Returned P step [] h = tt
collect_options-Returned P step (x ∷ xs) h = elim (Option-cases (step x)) [
  | inl e ↦ rw (collect_options, e) tt
  | inr (first, e) ↦ elim (Option-cases (collect_options step xs)) [
    | inl f ↦ rw (collect_options, e, f) tt
    | inr (rest, f) ↦
        rw (collect_options, e, f)
          (All-append P first rest (subst (Returned P) e (h x))
            (subst (Returned P) f (collect_options-Returned P step xs h)))
  ]
]

-- Only the check of missing endpoints names one.
module _ (casefold : String → String) (column_references : String → List String) where
  pub first-Other :
      (entities : Dict CatalogEntity) (edges : List LineageEdge)
      → Returned Other (deprecated_upstream_of_live entities edges)
  unfolding deprecated_upstream_of_live
  first-Other entities edges =
      collect_options-Returned Other (deprecated_source entities edges) (by_urn entities)
        (deprecated_source-Other entities edges)

  pub unowned_consumed-Other :
      (entities : Dict CatalogEntity) (edges : List LineageEdge)
      → All Other (unowned_consumed entities edges)
  unfolding unowned_consumed
  unowned_consumed-Other entities edges =
      collect_all-All Other (unowned entities edges) (by_urn entities)
        (unowned-Other entities edges)
