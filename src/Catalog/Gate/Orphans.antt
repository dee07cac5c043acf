-- ===== src/Catalog/Gate/Orphans.antt =====
-- The missing endpoints that the gate reports are exactly those that dangle.
use sidq.Prelude.{
  String, str_eq, str_eq_iff, Bool, true, false, not, ◌&&◌, ◌||◌, some, List, [], ◌∷◌, ◌++◌, map,
  All, All-append, any, any-append, any-perm, ◌≡◌, refl, subst, ◌∙◌, arith, Bool-cases,
  Option-cases, inl, inr,
}
use sidq.Prelude.Dict.{Dict, lookup, insert, lookup-insert}
use sidq.Prelude.Sets.{insert_all}
use sidq.Prelude.Sort.{sorted, sorted-perm}
use sidq.Models.{Evidence}
use sidq.Catalog.Snapshot.{
  CatalogEntity, LineageEdge, CatalogSnapshot, unverifiable, unique, unique_from, same_evidence,
  edge_key_le,
}
use sidq.Catalog.Checks.Lineage.{
  collect_all, lineage_field_missing, orphan_end, orphan_ends, orphan_lineage,
}
use sidq.Catalog.Checks.Columns.{
  documentation, unowned_consumed, field_lineage_unresolved, contains, unresolved, by_urn,
}
use sidq.Catalog.Checks.Pii.{pii_leak, pii_leaks}
use sidq.Catalog.Checks.Consumers.{deprecated_upstream_of_live}
use sidq.Catalog.Gate.{entities_by_urn, static_checks, collect, keyed}
use sidq.Catalog.Gate.Kinds.{
  Other, Returned, collect_all-All, unique-All, lineage_field_missing-Other, documentation-Other,
  pii_leak-Other, first-Other, unowned_consumed-Other, unresolved-Other,
}

-- A report that the endpoint `u` is missing.
abbrev pub is_orphan : String → Evidence → Bool
is_orphan u ev = str_eq ev.kind "orphan_lineage" && str_eq ev.subject u

abbrev pub touches : String → LineageEdge → Bool
touches u edge = str_eq edge.source_urn u || str_eq edge.target_urn u

abbrev pub named : String → CatalogEntity → Bool
named u entity = str_eq entity.urn u

any-Other : (u : String) (xs : List Evidence) → All Other xs → any (is_orphan u) xs ≡ false
any-Other u [] h = refl
any-Other u (x ∷ xs) h = ground (arith, h.0, any-Other u xs h.1)

any-after :
    (u : String) (xs ys : List Evidence)
    → All Other xs
    → any (is_orphan u) (xs ++ ys) ≡ any (is_orphan u) ys
any-after u xs ys h = ground (arith, any-append (is_orphan u) xs ys, any-Other u xs h)

any-before :
    (u : String) (xs ys : List Evidence)
    → All Other ys
    → any (is_orphan u) (xs ++ ys) ≡ any (is_orphan u) xs
any-before u xs ys h = ground (arith, any-append (is_orphan u) xs ys, any-Other u ys h)

any-between :
    (u : String) (vs ws xs ys zs : List Evidence)
    → All Other vs
    → All Other xs
    → All Other ys
    → All Other zs
    → any (is_orphan u) (vs ++ ws ++ xs ++ ys ++ zs) ≡ any (is_orphan u) ws
any-between u vs ws xs ys zs h k l m =
    any-before u (vs ++ ws ++ xs ++ ys) zs m
    ∙ any-before u (vs ++ ws ++ xs) ys l
    ∙ any-before u (vs ++ ws) xs k
    ∙ any-after u vs ws h

any-collect_all {ℓ} :
    {A : Type ℓ} (p : Evidence → Bool) (q : A → Bool) (step : A → List Evidence) (xs : List A)
    → ((x : A) → any p (step x) ≡ q x)
    → any p (collect_all step xs) ≡ any q xs
unfolding collect_all
any-collect_all p q step [] h = refl
any-collect_all p q step (x ∷ xs) h =
    ground (arith, any-append p (step x) (collect_all step xs), h x, any-collect_all p q step xs h)

seen_orphan :
    (u : String) (item : Evidence) (seen : List Evidence)
    → any (same_evidence item) seen ≡ true
    → is_orphan u item ≡ true
    → any (is_orphan u) seen ≡ true
unfolding same_evidence
seen_orphan u item [] h k = ground arith
seen_orphan u item (x ∷ seen) h k = ground (
  arith,
  h,
  k,
  str_eq_iff item.kind x.kind,
  str_eq_iff item.subject x.subject,
  seen_orphan u item seen,
)

any-unique_from :
    (u : String) (seen items : List Evidence)
    → (any (is_orphan u) seen || any (is_orphan u) (unique_from seen items))
      ≡ (any (is_orphan u) seen || any (is_orphan u) items)
unfolding unique_from
any-unique_from u seen [] = refl
any-unique_from u seen (item ∷ items) = elim (Bool-cases (any (same_evidence item) seen)) [
  | inl e ↦
      rw (unique_from, e) (ground (arith, seen_orphan u item seen e, any-unique_from u seen items))
  | inr e ↦ rw (unique_from, e) (ground (arith, any-unique_from u (item ∷ seen) items))
]

any-unique :
    (u : String) (items : List Evidence)
    → any (is_orphan u) (unique items) ≡ any (is_orphan u) items
unfolding unique
any-unique u items = any-unique_from u [] items

any-orphan_ends :
    (u : String) (entities : Dict CatalogEntity) (edge : LineageEdge)
    → any (is_orphan u) (orphan_ends entities edge) ≡ (touches u edge && not (contains entities u))
unfolding orphan_ends orphan_end contains
any-orphan_ends u entities edge = ground (
  arith,
  str_eq_iff edge.source_urn u,
  str_eq_iff edge.target_urn u,
  any-append (is_orphan u) (orphan_end entities edge "source" edge.source_urn)
      (orphan_end entities edge "target" edge.target_urn),
)

any_and {ℓ} :
    {A : Type ℓ} (p : A → Bool) (c : Bool) (xs : List A) → any (λ x. p x && c) xs ≡ (any p xs && c)
any_and p c [] = refl
any_and p c (x ∷ xs) = ground (arith, any_and p c xs)

orphan_lineage_lem :
    (u : String) (entities : Dict CatalogEntity) (edges : List LineageEdge) (complete : Bool)
    → any (is_orphan u) (orphan_lineage entities edges complete)
      ≡ (complete && any (touches u) edges && not (contains entities u))
unfolding orphan_lineage unverifiable
orphan_lineage_lem u entities edges false = refl
orphan_lineage_lem u entities edges true =
    any-unique u (collect_all (orphan_ends entities) (sorted edge_key_le edges))
    ∙ any-collect_all (is_orphan u) (λ e. touches u e && not (contains entities u))
        (orphan_ends entities) (sorted edge_key_le edges) (any-orphan_ends u entities)
    ∙ any-perm (λ e. touches u e && not (contains entities u)) (sorted-perm edge_key_le edges)
    ∙ any_and (touches u) (not (contains entities u)) edges

contains-insert :
    (u k : String) (v : CatalogEntity) (d : Dict CatalogEntity)
    → contains (insert k v d) u ≡ (str_eq k u || contains d u)
unfolding contains
contains-insert u k v d = ground (arith, lookup-insert k u v d)

contains-insert_all :
    (u : String) (es : List CatalogEntity) (d : Dict CatalogEntity)
    → contains (insert_all (map keyed es) d) u ≡ (any (named u) es || contains d u)
unfolding insert_all
contains-insert_all u [] d = refl
contains-insert_all u (e ∷ es) d =
    contains-insert_all u es (insert e.urn e d) ∙ ground (arith, contains-insert u e.urn e d)

contains-entities_by_urn :
    (u : String) (snapshot : CatalogSnapshot)
    → contains (entities_by_urn snapshot) u ≡ any (named u) snapshot.entities
unfolding entities_by_urn contains lookup
contains-entities_by_urn u snapshot = ground (arith, contains-insert_all u snapshot.entities [])

module _ (casefold : String → String) (column_references : String → List String) where
  pii_leaks-Other :
      (entities : Dict CatalogEntity) (edges : List LineageEdge)
      → All Other (pii_leaks casefold entities edges)
  unfolding pii_leaks
  pii_leaks-Other entities edges = unique-All Other _ (
      collect_all-All Other (pii_leak casefold entities) (sorted edge_key_le edges)
        (pii_leak-Other casefold column_references entities))

  field_lineage_unresolved-Other :
      (entities : Dict CatalogEntity) (snapshot : CatalogSnapshot)
      → All Other (field_lineage_unresolved entities snapshot)
  unfolding field_lineage_unresolved
  field_lineage_unresolved-Other entities snapshot =
      elim (Option-cases snapshot.field_lineage_resolved) [
        | inl e ↦ rw (field_lineage_unresolved, e) tt
        | inr (resolved, e) ↦
            rw (field_lineage_unresolved, e)
              (collect_all-All Other (unresolved resolved) (by_urn entities)
                (unresolved-Other resolved))
      ]

  static_checks-orphans :
      (u : String) (entities : Dict CatalogEntity) (snapshot : CatalogSnapshot)
      → any (is_orphan u) (static_checks casefold column_references entities snapshot) ≡ (
          snapshot.entities_complete && any (touches u) snapshot.edges && not (contains entities u))
  unfolding static_checks
  static_checks-orphans u entities snapshot =
      any-between u
        (documentation column_references entities
          ++ lineage_field_missing casefold entities snapshot.edges)
        (orphan_lineage entities snapshot.edges snapshot.entities_complete)
        (pii_leaks casefold entities snapshot.edges) (unowned_consumed entities snapshot.edges)
        (field_lineage_unresolved entities snapshot)
        (All-append Other _ _ (documentation-Other casefold column_references entities)
          (lineage_field_missing-Other casefold column_references entities snapshot.edges))
        (pii_leaks-Other entities snapshot.edges)
        (unowned_consumed-Other casefold column_references entities snapshot.edges)
        (field_lineage_unresolved-Other entities snapshot)
      ∙ orphan_lineage_lem u entities snapshot.edges snapshot.entities_complete

  -- Whatever the snapshot, the gate reports an endpoint as missing exactly if the snapshot is
  -- complete, an edge names that endpoint and no entity has its URN.
  pub collect-orphans :
      (u : String) (snapshot : CatalogSnapshot) (found : List Evidence)
      → collect casefold column_references snapshot ≡ some found
      → any (is_orphan u) found ≡ (
          snapshot.entities_complete
          && any (touches u) snapshot.edges
          && not (any (named u) snapshot.entities))
  unfolding collect
  collect-orphans u snapshot found h =
      let entities = entities_by_urn snapshot in
      elim (Option-cases (deprecated_upstream_of_live entities snapshot.edges)) [
        | inl e ↦ ground (arith, e, h)
        | inr (first, e) ↦ ground (
          arith,
          e,
          h,
          any-after u first (static_checks casefold column_references entities snapshot) (
              subst (Returned Other) e
                (first-Other casefold column_references entities snapshot.edges)),
          static_checks-orphans u entities snapshot,
          contains-entities_by_urn u snapshot,
        )
      ]
