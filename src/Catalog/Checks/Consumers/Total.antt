-- ===== src/Catalog/Checks/Consumers/Total.antt =====
-- The search for live consumers ends within its fuel and never misses a key.
use sidq.Prelude.{
  ℕ, zero, suc, ◌+◌, ◌≤◌, String, true, Option, some, List, [], ◌∷◌, ◌++◌, map, keep, length,
  length-append, All, keep_sound, Option-cases, Bool-cases, ◌≡◌, refl, arith, inl, inr, List-cases,
  length-map, str_le, str_eq_iff,
}
use sidq.Prelude.Dict.{Dict, lookup}
use sidq.Prelude.Sets.{member, distinct, distinct-All, remaining, remaining_at_most, remaining_new}
use sidq.Prelude.Sort.{sorted-All}
use sidq.Models.{Evidence}
use sidq.Catalog.Snapshot.{CatalogEntity, LineageEdge}
use sidq.Catalog.Checks.Lineage.{sorted_set}
use sidq.Catalog.Checks.Columns.{contains, by_urn}
use sidq.Catalog.Checks.Consumers.{
  joins, successors, Search, Consumer, reach, visit, visit_all, search_from, live_bi_consumers,
  deprecated_source, collect_options, deprecated_upstream_of_live,
}

abbrev keys : Dict CatalogEntity → List String
keys entities = map (λ (p : String × CatalogEntity). p.0) entities

abbrev Known : Dict CatalogEntity → String → Type 0
Known entities u = contains entities u ≡ true

in_keys :
    (entities : Dict CatalogEntity) (u : String)
    → Known entities u
    → member u (keys entities) ≡ true
unfolding contains lookup member
in_keys [] u h = ground arith
in_keys ((k, v) ∷ rest) u h = ground (arith, str_eq_iff k u, str_eq_iff u k, in_keys rest u)

sorted_set-All : (P : String → Type 0) (us : List String) → All P us → All P (sorted_set us)
unfolding sorted_set
sorted_set-All P us h = sorted-All str_le P (distinct us) (distinct-All P us h)

targets-Known :
    (entities : Dict CatalogEntity) (urn : String) (edges : List LineageEdge)
    → All (λ e. joins entities urn e ≡ true) edges
    → All (Known entities) (map (λ (e : LineageEdge). e.target_urn) edges)
unfolding joins
targets-Known entities urn [] h = tt
targets-Known entities urn (e ∷ edges) h =
    (ground (arith, h.0), targets-Known entities urn edges h.1)

successors-Known :
    (entities : Dict CatalogEntity) (edges : List LineageEdge) (urn : String)
    → All (Known entities) (successors entities edges urn)
unfolding successors
successors-Known entities edges urn = sorted_set-All (Known entities) _ (
    targets-Known entities urn (keep (joins entities urn) edges)
      (keep_sound (joins entities urn) edges))

abbrev left : Dict CatalogEntity → Search → ℕ
left entities st = length st.queue + remaining (keys entities) st.visited

visit_ends :
    (entities : Dict CatalogEntity) (path : List String) (u : String) (st : Search)
    → Known entities u
    → (st' : Search) × (visit entities path u st ≡ some st')
      × (left entities st' ≤ left entities st)
unfolding visit reach contains
visit_ends entities path u st h = elim (Bool-cases (member u st.visited)) [
  | inl e ↦ rw e (st, refl, ground arith)
  | inr e ↦ elim (Option-cases (lookup u entities)) [
    | inl k ↦ ground (arith, h, k)
    | inr (entity, k) ↦
        rw (e, k)
          (
            reach entity u (path ++ u ∷ []) st,
            refl,
            ground (
              arith,
              length-append st.queue ((u, path ++ u ∷ []) ∷ []),
              remaining_new u (keys entities) st.visited (in_keys entities u h) e,
            ),
          )
  ]
]

visit_all_ends :
    (entities : Dict CatalogEntity) (path : List String) (us : List String) (st : Search)
    → All (Known entities) us
    → (st' : Search) × (visit_all entities path us st ≡ some st')
      × (left entities st' ≤ left entities st)
unfolding visit_all
visit_all_ends entities path [] st h = (st, refl, ground arith)
visit_all_ends entities path (u ∷ us) st h =
    let (st₁, e, le) = visit_ends entities path u st h.0 in
    let (st₂, f, le') = visit_all_ends entities path us st₁ h.1 in
    rw (visit_all, e) (st₂, f, omega (arith, le, le'))

search_from_total :
    (fuel : ℕ) (entities : Dict CatalogEntity) (edges : List LineageEdge) (st : Search)
    → left entities st ≤ fuel
    → (found : List Consumer) × (search_from fuel entities edges st ≡ some found)
unfolding search_from
search_from_total zero entities edges st h = elim (List-cases st.queue) [
  | inl e ↦ rw (search_from, e) (st.found, refl)
  | inr (q, qs, e) ↦ ground (arith, e, h)
]
search_from_total (suc fuel) entities edges st h = elim (List-cases st.queue) [
  | inl e ↦ rw (search_from, e) (st.found, refl)
  | inr ((current, path), rest, e) ↦
      let (st', f, le) =
        visit_all_ends entities path (successors entities edges current)
          (record st { queue = rest }) (successors-Known entities edges current) in
      let (found, g) = search_from_total fuel entities edges st' (ground (arith, e, le, h)) in
      rw (search_from, e, f) (found, g)
]

live_bi_consumers_total :
    (source : String) (entities : Dict CatalogEntity) (edges : List LineageEdge)
    → (found : List Consumer) × (live_bi_consumers source entities edges ≡ some found)
unfolding live_bi_consumers
live_bi_consumers_total source entities edges =
    search_from_total (suc (length entities)) entities edges _ (
      ground (
        arith,
        remaining_at_most (keys entities) (source ∷ []),
        length-map (λ (p : String × CatalogEntity). p.0) entities,
      ))

deprecated_source_total :
    (entities : Dict CatalogEntity) (edges : List LineageEdge) (source : CatalogEntity)
    → (found : List Evidence) × (deprecated_source entities edges source ≡ some found)
unfolding deprecated_source
deprecated_source_total entities edges source = elim (Bool-cases source.deprecated) [
  | inl e ↦
      let (found, f) = live_bi_consumers_total source.urn entities edges in rw (e, f) (_, refl)
  | inr e ↦ rw e ([], refl)
]

collect_options_total {ℓ} :
    {A : Type ℓ} (step : A → Option (List Evidence)) (xs : List A)
    → ((x : A) → (found : List Evidence) × (step x ≡ some found))
    → (found : List Evidence) × (collect_options step xs ≡ some found)
unfolding collect_options
collect_options_total step [] h = ([], refl)
collect_options_total step (x ∷ xs) h =
    let (first, e) = h x in
    let (rest, f) = collect_options_total step xs h in
    rw (collect_options, e, f) (first ++ rest, refl)

pub deprecated_upstream_of_live_total :
    (entities : Dict CatalogEntity) (edges : List LineageEdge)
    → (found : List Evidence) × (deprecated_upstream_of_live entities edges ≡ some found)
unfolding deprecated_upstream_of_live
deprecated_upstream_of_live_total entities edges =
    collect_options_total (deprecated_source entities edges) (by_urn entities)
      (deprecated_source_total entities edges)
