-- ===== src/Agent/Auditor.antt =====
-- `CatalogAuditor` (src/sidq/agent/auditor.py): `plan`, `run` and `_examine`. A gate gives none
-- where it raises, and an exception of the gate escapes from `run`.
pub mod Order
pub mod Scope
use sidq.Prelude.{
  ℕ, zero, suc, ◌+◌, ◌*◌, ltb, leb, ◌==◌, String, str_eq, str_le, has_prefix, ends_with, Bool, true,
  false, not, ◌&&◌, ◌||◌, Option, none, some, List, [], ◌∷◌, ◌++◌, map, any, keep, length,
  if◌then◌else◌,
}
use Prim.Native.String as Text
use sidq.Prelude.Int.{ℤ, pos, negsuc}
use sidq.Prelude.Dict.{Dict, lookup, insert}
use sidq.Prelude.Sets.{member, insert_all}
use sidq.Prelude.Sort.{sorted}
use sidq.Value.{Value, null, int, str, obj, Fields, get_key, eq_value}
use sidq.Models.{Evidence}
use sidq.Catalog.Snapshot.{CatalogEntity, LineageEdge, CatalogSnapshot}
use sidq.Catalog.Tags.{is_pii_tag}
use sidq.Catalog.Checks.Lineage.{sorted_set}
use sidq.Catalog.Checks.Columns.{is_empty_list}
use sidq.Receipt.State.{Show, text_of, truthy, get}
use sidq.Agent.Memory.{PriorReceipt, prior_refused}

pub record Target : Type 0 where
  pub urn : String
  pub consequence : ℕ
  pub reasons : List String
  pub resisted : Bool

pub record AuditRun : Type 0 where
  pub examined : List String
  pub findings : List Evidence
  pub unverifiable : List Evidence
  pub deferred : List Target
  pub verified : List String
  pub unestablished : List String
  pub vouched : List (String × String)
  pub refused : List (String × String)
  pub order : List Target
  pub evidence_by_urn : Dict (List Evidence)
  pub promoted : List (String × String)

abbrev pub Gate : Type 0
Gate = CatalogSnapshot → Option (List Evidence)

pub record CatalogAuditor : Type 0 where
  pub snapshot : CatalogSnapshot
  pub budget : ℕ
  pub gate : Gate
  pub prior : Dict PriorReceipt
  pub gaps : List String

-- `max(0, budget)`
unfoldable pub clamp : ℤ → ℕ
clamp (pos n) = n
clamp (negsuc n) = 0

unfoldable pub new_auditor :
    CatalogSnapshot → ℤ → Gate → Dict PriorReceipt → List String → CatalogAuditor
new_auditor snapshot budget gate prior gaps = record {
  snapshot = snapshot;
  budget = clamp budget;
  gate = gate;
  prior = prior;
  gaps = gaps;
}

-- Perception.
unfoldable pub downstream : CatalogSnapshot → CatalogEntity → ℕ
downstream snapshot entity =
    length (keep (λ (e : LineageEdge). str_eq e.source_urn entity.urn) snapshot.edges)

-- A score and its reason, added where the test holds.
abbrev add_if : Bool → ℕ → String → ℕ × List String → ℕ × List String
add_if test points reason (score, reasons) =
    if test then (score + points, reasons ++ reason ∷ []) else (score, reasons)

abbrev or_unexposed : List String → List String
or_unexposed [] = "no notable exposure" ∷ []
or_unexposed (r ∷ rs) = r ∷ rs

unfoldable pub exposure :
    Show → (String → String) → CatalogAuditor → CatalogEntity → ℕ × List String
exposure show casefold a entity =
    let n = downstream a.snapshot entity in
    add_if (member entity.urn a.gaps) 0 "a previous run could establish nothing here" (
      add_if (not entity.schema_available) 25 "no stored schema" (
        add_if entity.deprecated 20 "deprecated" (
          add_if (is_empty_list entity.owners) 15 "no owner" (
            add_if (any (is_pii_tag casefold) entity.tags) 50 "carries a PII tag" (
              add_if (ltb 0 n) (n * 10) (Text.◌++◌ (show (int (pos n))) " downstream consumers")
                (0, []))))))

unfoldable pub consequence : Show → (String → String) → CatalogAuditor → CatalogEntity → Target
consequence show casefold a entity =
    let (score, reasons) = exposure show casefold a entity in
    record {
      urn = entity.urn;
      consequence = score;
      reasons = or_unexposed reasons;
      resisted = member entity.urn a.gaps;
    }

-- `key(a) <= key(b)` for `(-consequence, resisted, urn)`.
unfoldable pub rank_le : Target → Target → Bool
rank_le a b =
    if a.consequence == b.consequence
    then if a.resisted then b.resisted && str_le a.urn b.urn else b.resisted || str_le a.urn b.urn
    else ltb b.consequence a.consequence

unfoldable pub plan : Show → (String → String) → CatalogAuditor → List Target
plan show casefold a = sorted rank_le (map (consequence show casefold a) a.snapshot.entities)

-- Examination.
unfoldable pub touching : CatalogSnapshot → String → List LineageEdge
touching snapshot urn =
    keep (λ (e : LineageEdge). str_eq e.source_urn urn || str_eq e.target_urn urn) snapshot.edges

unfoldable pub neighbours : CatalogSnapshot → String → List String
neighbours snapshot urn = sorted_set (
    map (λ (e : LineageEdge). e.target_urn)
      (keep (λ (e : LineageEdge). str_eq e.source_urn urn) snapshot.edges)
    ++ map (λ (e : LineageEdge). e.source_urn)
        (keep (λ (e : LineageEdge). str_eq e.target_urn urn) snapshot.edges))

in_slice : String → List LineageEdge → CatalogEntity → Bool
in_slice urn related entity =
    str_eq entity.urn urn
    || any (λ (e : LineageEdge). str_eq e.source_urn entity.urn || str_eq e.target_urn entity.urn)
        related

unfoldable pub slice_of : CatalogSnapshot → String → CatalogSnapshot
unfolding in_slice
slice_of snapshot urn = record {
  entities = keep (in_slice urn (touching snapshot urn)) snapshot.entities;
  edges = touching snapshot urn;
  entities_complete = false;
  field_lineage_resolved = snapshot.field_lineage_resolved;
}

unfoldable pub is_unverifiable : Evidence → Bool
is_unverifiable ev = ends_with "_unverifiable" ev.kind

-- `target.urn in (edge.get("source_dataset"), edge.get("target_dataset"))`, where `edge` is the
-- detail's `edge` or an empty mapping; none is the `AttributeError` of any other value.
names_endpoint : String → Value → Option Bool
names_endpoint urn (obj edge) = some (
    eq_value (get "source_dataset" edge) (str urn)
    || eq_value (get "target_dataset" edge) (str urn))
names_endpoint urn v = if truthy v then none else some false

unfoldable pub concerns_target : CatalogSnapshot → String → Evidence → Option Bool
unfolding names_endpoint
concerns_target snapshot urn ev =
    if has_prefix urn ev.subject
    then some true
    else if str_eq ev.subject "catalog" && is_unverifiable ev && not snapshot.entities_complete
    then some true
    else if not (str_eq ev.kind "orphan_lineage")
    then some false
    else if any (λ (e : CatalogEntity). str_eq e.urn ev.subject) snapshot.entities
    then some false
    else names_endpoint urn (get "edge" ev.detail)

-- The comprehension at the end of `_examine`.
unfoldable pub keep_concerning : CatalogSnapshot → String → List Evidence → Option (List Evidence)
keep_concerning snapshot urn [] = some []
keep_concerning snapshot urn (ev ∷ evs) = elim (concerns_target snapshot urn ev) [
  | none ↦ none
  | some wanted ↦ elim (keep_concerning snapshot urn evs) [
    | none ↦ none
    | some rest ↦ some (if wanted then ev ∷ rest else rest)
  ]
]

unfoldable pub examine : CatalogAuditor → String → Option (List Evidence)
unfolding keep_concerning
examine a urn = elim (a.gate (slice_of a.snapshot urn)) [
  | none ↦ none
  | some collected ↦ keep_concerning a.snapshot urn collected
]
