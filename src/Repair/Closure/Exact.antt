-- ===== src/Repair/Closure/Exact.antt =====
-- The result of `_closure` is the set of columns that the marker reaches and that lack it.
use sidq.Prelude.{
  suc, String, true, false, ◌&&◌, ◌||◌, some, List, [], ◌∷◌, length, arith, Bool-cases,
  Option-cases, ◌≡◌, refl, inl, inr, ◌↔◌, subst, sym, keep, str_eq_refl, str_eq_iff, ◌∙◌, str_eq,
}
use sidq.Prelude.Pairs.{
  Pair, has_pair, has_pair-keep, has_pair-perm, pair_le, pair_eq_refl, pair_eq_of,
}
use sidq.Prelude.Sets.{member}
use sidq.Prelude.Sort.{sorted-perm}
use sidq.Catalog.Snapshot.{CatalogField, CatalogSnapshot}
use sidq.Repair.Closure.{reach_from, column_at, shares, undeclared, closure}
use sidq.Repair.Closure.Flows.{Flows, unexplored_start}
use sidq.Repair.Closure.Search.{AllFlow, reach_from-AllFlow, Closed, reach_from_all}

-- The column exists, and none of its markers is among those.
unfoldable pub Lacks : CatalogSnapshot → List String → Pair → Type 0
Lacks snapshot markers node =
    (f : CatalogField) × (column_at snapshot node ≡ some f)
    × ((m : String) → member m markers ≡ true → member m f.tags ≡ false)

-- No text is in both lists.
apart :
    (tags markers : List String)
    → shares markers tags ≡ false
    → (m : String) → member m markers ≡ true
    → member m tags ≡ false
unfolding shares member
apart tags [] h m k = cc
apart tags (n ∷ markers) h m k = elim (Bool-cases (str_eq m n)) [
  | inl e ↦
      let q : m ≡ n = (str_eq_iff m n).0 e in
      subst (λ t. member t tags ≡ false) (sym q) (unfold member in ground (arith, h))
  | inr e ↦ apart tags markers (ground (arith, h)) m (ground (arith, e, k))
]

apart_shares :
    (tags markers : List String)
    → ((m : String) → member m markers ≡ true → member m tags ≡ false)
    → shares markers tags ≡ false
unfolding shares member
apart_shares tags [] h = refl
apart_shares tags (n ∷ markers) h =
    ground (arith, h n, str_eq_refl n, apart_shares tags markers (λ m k. h m (ground (arith, k))))

lacks_column :
    (snapshot : CatalogSnapshot) (markers : List String) (node : Pair) (f : CatalogField)
    → column_at snapshot node ≡ some f
    → shares markers f.tags ≡ false
    → undeclared snapshot markers node ≡ true
unfolding undeclared
lacks_column snapshot markers node f e h = rw (e, undeclared) (ground (arith, h))

undeclared-Lacks :
    (snapshot : CatalogSnapshot) (markers : List String) (node : Pair)
    → (undeclared snapshot markers node ≡ true) ↔ Lacks snapshot markers node
unfolding undeclared Lacks
undeclared-Lacks snapshot markers node = elim (Option-cases (column_at snapshot node)) [
  | inl e ↦ (
    λ h. let q : true ≡ false = ground (arith, e, h) in cc,
    λ h. let q : true ≡ false = ground (arith, e, h.1) in cc,
  )
  | inr (f, e) ↦ (
    λ h. (f, e, apart f.tags markers (ground (arith, e, h))),
    λ h. lacks_column snapshot markers node h.0 h.1 (apart_shares h.0.tags markers h.2),
  )
]

started :
    (snapshot : CatalogSnapshot) (start : Pair)
    → AllFlow snapshot.edges start (start ∷ []) × AllFlow snapshot.edges start []
unfolding AllFlow has_pair
started snapshot start = (
  λ c h.
      subst (Flows snapshot.edges start) (sym (pair_eq_of c start (ground (arith, h)))) Flows.here,
  λ c h. cc,
)

nothing_else :
    (c : Pair) (pairs : List Pair)
    → (has_pair c pairs || has_pair c []) ≡ true
    → has_pair c pairs ≡ true
unfolding has_pair
nothing_else c pairs h = ground (arith, h)

module _ (snapshot : CatalogSnapshot) (start : Pair) where
  reached : List Pair
  reached = reach_from (suc (length snapshot.edges)) snapshot.edges (start ∷ []) []

  finished :
      Closed snapshot.edges start [] reached
      × ((c : Pair) → (has_pair c [] || has_pair c (start ∷ [])) ≡ true → has_pair c reached ≡ true)
  unfolding reached Closed has_pair
  finished =
      reach_from_all snapshot.edges start (suc (length snapshot.edges)) (start ∷ []) []
        (omega (arith, unexplored_start snapshot.edges)) (λ b c h f. cc)

  start_found : has_pair start reached ≡ true
  unfolding has_pair
  start_found = finished.1 start (ground (arith, pair_eq_refl start))

  flow_found : (c : Pair) → Flows snapshot.edges start c → has_pair c reached ≡ true
  unfolding Closed
  flow_found c Flows.here = start_found
  flow_found c (Flows.along a b h f) = nothing_else c reached (finished.0 a c (flow_found a h) f)

  found-Flows : (c : Pair) → has_pair c reached ≡ true → Flows snapshot.edges start c
  unfolding reached AllFlow
  found-Flows =
      reach_from-AllFlow snapshot.edges start (suc (length snapshot.edges)) (start ∷ []) []
        (started snapshot start).0 (started snapshot start).1

  closure_filter :
      (markers : List String) (item : Pair)
      → has_pair item (closure start.0 start.1 snapshot markers)
        ≡ (has_pair item reached && undeclared snapshot markers item)
  unfolding closure reached
  closure_filter markers item =
      has_pair-perm item (sorted-perm pair_le (keep (undeclared snapshot markers) reached))
      ∙ has_pair-keep (undeclared snapshot markers) item reached

-- A column is in the result of `_closure` exactly when a chain of lineage edges leads from the
-- start to it, it exists in the catalog, and it carries none of the markers.
pub closure_exact :
    (urn column : String) (snapshot : CatalogSnapshot) (markers : List String) (item : Pair)
    → (has_pair item (closure urn column snapshot markers) ≡ true)
      ↔ (Flows snapshot.edges (urn, column) item × Lacks snapshot markers item)
closure_exact urn column snapshot markers item =
    let e = closure_filter snapshot (urn, column) markers item in
    (
      λ h. (
        found-Flows snapshot (urn, column) item (ground (arith, e, h)),
        (undeclared-Lacks snapshot markers item).0 (ground (arith, e, h)),
      ),
      λ h. ground (
        arith,
        e,
        flow_found snapshot (urn, column) item h.0,
        (undeclared-Lacks snapshot markers item).1 h.1,
      ),
    )
