-- ===== src/Agent/Auditor/Order.antt =====
-- The auditor's plan is the catalog in order of consequence.
use sidq.Prelude.{
  ℕ, suc, ◌+◌, ◌*◌, ◌≤◌, String, str_eq, str_le, str_le_total, str_le_trans, Bool, true, false, not,
  List, [], ◌∷◌, map, any, All, All-map, keep, length, if◌then◌else◌, ◌≡◌, ◌⊎◌, refl, arith, subst,
}
use sidq.Prelude.Sets.{member}
use sidq.Prelude.Sort.{IsSorted, sorted, sorted-perm, sorted-IsSorted}
use mathlib.Core.List.{Perm}
use mathlib.Core.List.Perm
use sidq.Catalog.Snapshot.{CatalogEntity, LineageEdge}
use sidq.Catalog.Tags.{is_pii_tag}
use sidq.Catalog.Checks.Columns.{is_empty_list}
use sidq.Receipt.State.{Show}
use sidq.Agent.Auditor.{Target, CatalogAuditor, downstream, exposure, consequence, rank_le, plan}

-- The first target is worth more; or they are worth the same, and a run failed on the second only;
-- or that is the same too, and the URNs are in order.
unfoldable pub Precedes : Target → Target → Type 0
Precedes s t =
    (suc t.consequence ≤ s.consequence)
    ⊎ ((s.consequence ≡ t.consequence)
        × (((s.resisted ≡ false) × (t.resisted ≡ true))
            ⊎ ((s.resisted ≡ t.resisted) × (str_le s.urn t.urn ≡ true))))

-- Every target precedes each that follows it.
unfoldable pub Ranked : List Target → Type 0
Ranked [] = Unit
Ranked (t ∷ ts) = All (Precedes t) ts × Ranked ts

-- How many edges start at the asset.
unfoldable pub readers : String → List LineageEdge → ℕ
readers urn [] = 0
readers urn (e ∷ edges) =
    let rest = readers urn edges in if str_eq e.source_urn urn then suc rest else rest

unfoldable pub points : Bool → ℕ → ℕ
points test n = if test then n else 0

-- What a wrong claim about an asset would cost.
unfoldable pub stake : (String → String) → CatalogAuditor → CatalogEntity → ℕ
stake casefold a entity =
    10 * readers entity.urn a.snapshot.edges
    + points (any (is_pii_tag casefold) entity.tags) 50
    + points (is_empty_list entity.owners) 15
    + points entity.deprecated 20
    + points (not entity.schema_available) 25

-- The URN, the stake and whether a run failed on it.
abbrev pub Summary : Type 0
Summary = String × ℕ × Bool

unfoldable pub summary : Target → Summary
summary t = (t.urn, t.consequence, t.resisted)

unfoldable pub expected : (String → String) → CatalogAuditor → CatalogEntity → Summary
expected casefold a entity = (entity.urn, stake casefold a entity, member entity.urn a.gaps)

rank_le_total : (s t : Target) → rank_le s t ≡ false → rank_le t s ≡ true
unfolding rank_le
rank_le_total s t h = ground (arith, h, str_le_total s.urn t.urn)

rank_le_trans : (s t u : Target) → rank_le s t ≡ true → rank_le t u ≡ true → rank_le s u ≡ true
unfolding rank_le
rank_le_trans s t u h k = ground (arith, h, k, str_le_trans s.urn t.urn u.urn)

rank_le-Precedes : (s t : Target) → rank_le s t ≡ true → Precedes s t
unfolding rank_le Precedes
rank_le-Precedes s t h = ground (arith, h)

sorted-Ranked : (ts : List Target) → IsSorted rank_le ts → Ranked ts
unfolding Ranked
sorted-Ranked [] h = tt
sorted-Ranked (t ∷ ts) h = (
  All-map (λ u. rank_le t u ≡ true) (Precedes t) ts (rank_le-Precedes t) h.0,
  sorted-Ranked ts h.1,
)

keep-readers :
    (urn : String) (edges : List LineageEdge)
    → length (keep (λ (e : LineageEdge). str_eq e.source_urn urn) edges) ≡ readers urn edges
unfolding readers
keep-readers urn [] = refl
keep-readers urn (e ∷ edges) = ground (arith, keep-readers urn edges)

consequence_stake :
    (show : Show) (casefold : String → String) (a : CatalogAuditor) (entity : CatalogEntity)
    → (consequence show casefold a entity).consequence ≡ stake casefold a entity
unfolding consequence exposure stake points downstream
consequence_stake show casefold a entity = ground (arith, keep-readers entity.urn a.snapshot.edges)

summaries :
    (show : Show) (casefold : String → String) (a : CatalogAuditor) (entities : List CatalogEntity)
    → map summary (map (consequence show casefold a) entities) ≡ map (expected casefold a) entities
unfolding summary expected consequence
summaries show casefold a [] = refl
summaries show casefold a (entity ∷ entities) =
    rw (consequence_stake show casefold a entity, summaries show casefold a entities) refl

-- The plan holds one target for each entity, whose consequence is ten for each edge that starts at
-- it, fifty for a PII tag, fifteen for no owner, twenty for a deprecation and twenty-five for no
-- schema. It is in descending order of consequence; of two that cost the same, one that no run has
-- failed on stands before one that a run failed on, and of two alike in that the URNs are in order.
pub plan-Ranked :
    (show : Show) (casefold : String → String) (a : CatalogAuditor)
    → Perm (map summary (plan show casefold a)) (map (expected casefold a) a.snapshot.entities)
      × Ranked (plan show casefold a)
unfolding plan
plan-Ranked show casefold a =
    let targets = map (consequence show casefold a) a.snapshot.entities in
    (
      subst (Perm (map summary (sorted rank_le targets)))
          (summaries show casefold a a.snapshot.entities)
          (Perm.map summary (sorted-perm rank_le targets)),
      sorted-Ranked (sorted rank_le targets)
          (sorted-IsSorted rank_le rank_le_total rank_le_trans targets),
    )
