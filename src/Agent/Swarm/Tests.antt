-- ===== src/Agent/Swarm/Tests.antt =====
-- Two workers on a plan of four targets, and the theorems there.
use sidq.Prelude.{if◌then◌else◌, str_eq, ℕ, String, false, List, [], ◌∷◌, All, ◌≡◌, refl}
use mathlib.Core.List.{Perm}
use sidq.Prelude.Sort.{sorted}
use sidq.Catalog.Checks.Columns.{is_empty_list}
use sidq.Agent.Auditor.{Target}
use sidq.Agent.Swarm.{
  tier_rank_le, ties_with, extend_runs, runs_from, leads_positive, crosses_zero, would_overflow,
  tiers_from, consequence_tiers, worker_le, order_tiers, order_for_worker,
}
use sidq.Agent.Swarm.Sizes.{IsTier}
use sidq.Agent.Swarm.Ties.{Descending, tiers-Descending}

abbrev target : String → ℕ → Target
target urn score = record { urn = urn; consequence = score; reasons = []; resisted = false }

abbrev four : List Target
four = target "d" 0 ∷ target "a" 20 ∷ target "c" 15 ∷ target "b" 15 ∷ []

-- A digest that turns the order of the URNs round for the worker `w`.
abbrev toy_digest : String → String → String
toy_digest worker urn = if str_eq urn "a" then "3" else if str_eq urn "b" then "2" else "1"

four_tiers :
    consequence_tiers four
    ≡ (target "a" 20 ∷ target "b" 15 ∷ target "c" 15 ∷ []) ∷ (target "d" 0 ∷ []) ∷ []
unfolding consequence_tiers tiers_from runs_from extend_runs ties_with crosses_zero would_overflow
    leads_positive is_empty_list sorted tier_rank_le
four_tiers = refl

four_ordered :
    order_for_worker toy_digest "w" four
    ≡ target "c" 15 ∷ target "b" 15 ∷ target "a" 20 ∷ target "d" 0 ∷ []
unfolding order_for_worker order_tiers worker_le consequence_tiers tiers_from runs_from extend_runs
    ties_with crosses_zero would_overflow leads_positive is_empty_list sorted tier_rank_le
four_ordered = refl

tiers-Descending_example :
    All IsTier (consequence_tiers four)
    × Descending (consequence_tiers four)
    × Perm (order_for_worker toy_digest "w" four) four
tiers-Descending_example = tiers-Descending toy_digest "w" four
