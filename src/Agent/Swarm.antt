-- ===== src/Agent/Swarm.antt =====
-- The order of a swarm worker (src/sidq/agent/swarm.py): `_consequence_tiers` and
-- `order_for_worker`. `digest` is SHA-256 of the worker and the URN, as its hexadecimal text.
pub mod Tiers
pub mod Sizes
pub mod Rank
pub mod Ties
mod Tests
use sidq.Prelude.{
  ℕ, ◌+◌, ltb, ◌==◌, String, str_eq, str_le, Bool, true, false, not, ◌&&◌, ◌||◌, List, [], ◌∷◌,
  ◌++◌, length, concat, if◌then◌else◌,
}
use sidq.Prelude.Sort.{sorted}
use sidq.Catalog.Checks.Columns.{is_empty_list}
use sidq.Agent.Auditor.{Target}

-- Python's order of tuples of texts.
unfoldable pub texts_le : List String → List String → Bool
texts_le [] ys = true
texts_le (x ∷ xs) [] = false
texts_le (x ∷ xs) (y ∷ ys) = let later = texts_le xs ys in if str_eq x y then later else str_le x y

-- `(-consequence, urn, reasons)`
unfoldable pub tier_rank_le : Target → Target → Bool
tier_rank_le a b =
    if a.consequence == b.consequence
    then if str_eq a.urn b.urn then texts_le a.reasons b.reasons else str_le a.urn b.urn
    else ltb b.consequence a.consequence

-- `run[0].consequence == target.consequence`, for a run that is never empty.
unfoldable pub ties_with : List Target → Target → Bool
ties_with [] target = false
ties_with (t ∷ ts) target = t.consequence == target.consequence

-- One round of the loop that builds `runs`.
unfoldable pub extend_runs : List (List Target) → Target → List (List Target)
extend_runs [] target = (target ∷ []) ∷ []
extend_runs (run ∷ []) target =
    if ties_with run target then (run ++ target ∷ []) ∷ [] else run ∷ (target ∷ []) ∷ []
extend_runs (run ∷ next ∷ runs) target = run ∷ extend_runs (next ∷ runs) target

unfoldable pub runs_from : List (List Target) → List Target → List (List Target)
runs_from runs [] = runs
runs_from runs (target ∷ targets) = runs_from (extend_runs runs target) targets

abbrev pub tier_size : ℕ
tier_size = 16

-- `targets[0].consequence > 0`
unfoldable pub leads_positive : List Target → Bool
leads_positive [] = false
leads_positive (t ∷ ts) = ltb 0 t.consequence

unfoldable pub crosses_zero : List Target → List Target → Bool
crosses_zero tier run =
    not (is_empty_list tier)
    && (if leads_positive tier then not (leads_positive run) else leads_positive run)

unfoldable pub would_overflow : List Target → List Target → Bool
would_overflow tier run = not (is_empty_list tier) && ltb tier_size (length tier + length run)

-- The loop over the runs that are left, and the last `if tier`.
unfoldable pub tiers_from :
    List (List Target) → List Target → List (List Target) → List (List Target)
tiers_from tiers tier [] = if is_empty_list tier then tiers else tiers ++ tier ∷ []
tiers_from tiers tier (run ∷ runs) = elim (crosses_zero tier run || would_overflow tier run) [
  | true ↦ tiers_from (tiers ++ tier ∷ []) run runs
  | false ↦ tiers_from tiers (tier ++ run) runs
]

unfoldable pub consequence_tiers : List Target → List (List Target)
consequence_tiers plan = tiers_from [] [] (runs_from [] (sorted tier_rank_le plan))

module _ (digest : String → String → String) (worker_id : String) where
  -- `(digest, urn, -consequence, reasons)`
  unfoldable pub worker_le : Target → Target → Bool
  worker_le a b =
      if str_eq (digest worker_id a.urn) (digest worker_id b.urn)
      then if str_eq a.urn b.urn
        then if a.consequence == b.consequence
          then texts_le a.reasons b.reasons
          else ltb b.consequence a.consequence
        else str_le a.urn b.urn
      else str_le (digest worker_id a.urn) (digest worker_id b.urn)

  unfoldable pub order_tiers : List (List Target) → List Target
  order_tiers [] = []
  order_tiers (tier ∷ tiers) = sorted worker_le tier ++ order_tiers tiers

  unfoldable pub order_for_worker : List Target → List Target
  order_for_worker plan = order_tiers (consequence_tiers plan)
