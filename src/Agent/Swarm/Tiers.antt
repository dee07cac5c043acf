-- ===== src/Agent/Swarm/Tiers.antt =====
-- The tiers of a swarm worker keep the rank, never split a tie and stay small.
use sidq.Prelude.{
  String, ◌||◌, List, [], ◌∷◌, ◌++◌, append_assoc, append-nil, concat, concat-append, Bool-cases,
  ◌≡◌, refl, sym, ap, subst, ◌∙◌, inl, inr,
}
use sidq.Prelude.Sort.{sorted, sorted-perm}
use mathlib.Core.List.{Perm}
use mathlib.Core.List.Perm
use sidq.Catalog.Checks.Columns.{is_empty_list}
use sidq.Agent.Auditor.{Target}
use sidq.Agent.Swarm.{
  tier_rank_le, ties_with, extend_runs, runs_from, crosses_zero, would_overflow, tiers_from,
  consequence_tiers, worker_le, order_tiers, order_for_worker,
}

pub extend_runs-concat :
    (runs : List (List Target)) (t : Target) → concat (extend_runs runs t) ≡ concat runs ++ t ∷ []
unfolding extend_runs
extend_runs-concat [] t = refl
extend_runs-concat (run ∷ []) t = elim (Bool-cases (ties_with run t)) [
  | inl e ↦ rw (extend_runs, e) (append-nil _ ∙ ap (λ r. r ++ t ∷ []) (sym (append-nil run)))
  | inr e ↦ rw (extend_runs, e) (ap (λ r. r ++ t ∷ []) (sym (append-nil run)))
]
extend_runs-concat (run ∷ next ∷ runs) t =
    ap (λ r. run ++ r) (extend_runs-concat (next ∷ runs) t)
    ∙ sym (append_assoc run (concat (next ∷ runs)) (t ∷ []))

runs_from-concat :
    (runs : List (List Target)) (ts : List Target) → concat (runs_from runs ts) ≡ concat runs ++ ts
unfolding runs_from
runs_from-concat runs [] = sym (append-nil (concat runs))
runs_from-concat runs (t ∷ ts) =
    runs_from-concat (extend_runs runs t) ts
    ∙ ap (λ r. r ++ ts) (extend_runs-concat runs t)
    ∙ append_assoc (concat runs) (t ∷ []) ts

tiers_from-concat :
    (tiers : List (List Target)) (tier : List Target) (runs : List (List Target))
    → concat (tiers_from tiers tier runs) ≡ concat tiers ++ (tier ++ concat runs)
unfolding tiers_from is_empty_list
tiers_from-concat tiers [] [] = sym (append-nil (concat tiers))
tiers_from-concat tiers (t ∷ ts) [] = concat-append tiers ((t ∷ ts) ∷ [])
tiers_from-concat tiers tier (run ∷ runs) =
    elim (Bool-cases (crosses_zero tier run || would_overflow tier run)) [
      | inl e ↦
          rw (tiers_from, e)
            (tiers_from-concat (tiers ++ tier ∷ []) run runs
              ∙ ap (λ r. r ++ (run ++ concat runs)) (concat-append tiers (tier ∷ []))
              ∙ ap (λ r. concat tiers ++ r ++ (run ++ concat runs)) (append-nil tier)
              ∙ append_assoc (concat tiers) tier (run ++ concat runs))
      | inr e ↦
          rw (tiers_from, e)
            (tiers_from-concat tiers (tier ++ run) runs
              ∙ ap (λ r. concat tiers ++ r) (append_assoc tier run (concat runs)))
    ]

-- The tiers, one after the other, are the ranked plan.
pub tiers-concat : (plan : List Target) → concat (consequence_tiers plan) ≡ sorted tier_rank_le plan
unfolding consequence_tiers
tiers-concat plan =
    tiers_from-concat [] [] (runs_from [] (sorted tier_rank_le plan))
    ∙ runs_from-concat [] (sorted tier_rank_le plan)

order_tiers-perm :
    (digest : String → String → String) (worker_id : String) (tiers : List (List Target))
    → Perm (order_tiers digest worker_id tiers) (concat tiers)
unfolding order_tiers
order_tiers-perm digest worker_id [] = Perm.rfl
order_tiers-perm digest worker_id (tier ∷ tiers) =
    Perm.append (sorted-perm (worker_le digest worker_id) tier)
      (order_tiers-perm digest worker_id tiers)

-- Every worker walks the whole plan, each target once: no target belongs to one worker.
pub order_for_worker-perm :
    (digest : String → String → String) (worker_id : String) (plan : List Target)
    → Perm (order_for_worker digest worker_id plan) plan
unfolding order_for_worker
order_for_worker-perm digest worker_id plan =
    Perm.trans (order_tiers-perm digest worker_id (consequence_tiers plan))
      (subst (λ ts. Perm ts plan) (sym (tiers-concat plan)) (sorted-perm tier_rank_le plan))
