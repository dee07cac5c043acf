-- ===== src/Agent/Swarm/Ties.antt =====
-- The tiers go strictly down: no tie is split between two of them.
use sidq.Prelude.{
  ℕ, ◌≤◌, ◌<◌, ◌==◌, String, true, ◌||◌, List, [], ◌∷◌, ◌++◌, append_assoc, append-nil, concat,
  concat-append, All, All-append, All-second, All-map, Bool-cases, ◌≡◌, sym, ap, subst, ◌∙◌, inl,
  inr, arith,
}
use sidq.Prelude.Sort.{sorted, IsSorted, sorted-IsSorted}
use sidq.Catalog.Checks.Columns.{is_empty_list}
use sidq.Agent.Auditor.{Target}
use sidq.Agent.Swarm.{
  tier_rank_le, ties_with, extend_runs, runs_from, crosses_zero, would_overflow, tiers_from,
  consequence_tiers, order_for_worker,
}
use sidq.Agent.Swarm.Sizes.{IsRun, IsTier, extend_runs-IsRun, tiers-IsTier}
use sidq.Agent.Swarm.Tiers.{extend_runs-concat, order_for_worker-perm}
use mathlib.Core.List.{Perm}
use sidq.Agent.Swarm.Rank.{tier_rank_le_total, tier_rank_le_trans}

-- Every target of the first list outranks every one of the second.
abbrev pub Above : List Target → List Target → Type 0
Above xs ys = All (λ x. All (λ y. y.consequence < x.consequence) ys) xs

abbrev pub Descending : List (List Target) → Type 0
Descending [] = Unit
Descending (xs ∷ xss) = Above xs (concat xss) × Descending xss

Above-append : (xs ys zs : List Target) → Above xs ys → Above xs zs → Above xs (ys ++ zs)
Above-append [] ys zs h k = tt
Above-append (x ∷ xs) ys zs h k =
    (All-append (λ y. y.consequence < x.consequence) ys zs h.0 k.0, Above-append xs ys zs h.1 k.1)

-- A target that no earlier one is below.
abbrev Last : Target → List Target → Type 0
Last t xs = All (λ x. t.consequence ≤ x.consequence) xs

below_tie :
    (c : ℕ) (t : Target) (xs : List Target)
    → All (λ x. x.consequence ≡ c) xs
    → t.consequence < c
    → Above xs (t ∷ [])
below_tie c t [] h k = tt
below_tie c t (x ∷ xs) h k = ((ground (arith, h.0, k), tt), below_tie c t xs h.1 k)

below_below :
    (r t : Target) (rs xs : List Target)
    → t.consequence ≤ r.consequence
    → Above xs (r ∷ rs)
    → Above xs (t ∷ [])
below_below r t rs [] h k = tt
below_below r t rs (x ∷ xs) h k = ((ground (arith, h, k.0.0), tt), below_below r t rs xs h k.1)

Above-none : (xs : List Target) → Above xs []
Above-none [] = tt
Above-none (x ∷ xs) = (tt, Above-none xs)

extend_runs-Descending :
    (runs : List (List Target)) (t : Target)
    → All IsRun runs
    → Last t (concat runs)
    → Descending runs
    → Descending (extend_runs runs t)
unfolding extend_runs ties_with is_empty_list
extend_runs-Descending [] t h l d = (Above-none (t ∷ []), tt)
extend_runs-Descending ([] ∷ []) t h l d = ground (arith, h.0.some_target)
extend_runs-Descending ((r ∷ rs) ∷ []) t h l d =
    elim (Bool-cases (r.consequence == t.consequence)) [
      | inl e ↦ rw (extend_runs, ties_with, e) (Above-none (r ∷ rs ++ t ∷ []), tt)
      | inr e ↦
          let (c, all_c) = h.0.is_tie in
          let less : t.consequence < c = ground (arith, e, all_c.0, l.0) in
          rw (extend_runs, ties_with, e)
            (below_tie c t (r ∷ rs) all_c less, (Above-none (t ∷ []), tt))
    ]
extend_runs-Descending (run ∷ [] ∷ runs) t h l d = ground (arith, h.1.0.some_target)
extend_runs-Descending (run ∷ (r ∷ rs) ∷ runs) t h l d =
    let later = All-second (λ x. t.consequence ≤ x.consequence) run (concat ((r ∷ rs) ∷ runs)) l in
    (
      subst (Above run) (sym (extend_runs-concat ((r ∷ rs) ∷ runs) t)) (
          Above-append run (concat ((r ∷ rs) ∷ runs)) (t ∷ []) d.0
            (below_below r t (rs ++ concat runs) run later.0 d.0)),
      extend_runs-Descending ((r ∷ rs) ∷ runs) t h.1 later d.1,
    )

-- No target of the list is below a later one.
abbrev Falling : List Target → Type 0
Falling [] = Unit
Falling (t ∷ ts) = All (λ u. u.consequence ≤ t.consequence) ts × Falling ts

after-Last :
    (xs : List Target) (t : Target) (ts : List Target)
    → All (λ u. Last u xs) ts
    → All (λ u. u.consequence ≤ t.consequence) ts
    → All (λ u. Last u (xs ++ t ∷ [])) ts
after-Last xs t [] h k = tt
after-Last xs t (u ∷ ts) h k = (
  All-append (λ x. u.consequence ≤ x.consequence) xs (t ∷ []) h.0 (k.0, tt),
  after-Last xs t ts h.1 k.1,
)

runs_from-Descending :
    (runs : List (List Target)) (ts : List Target)
    → All IsRun runs
    → All (λ t. Last t (concat runs)) ts
    → Falling ts
    → Descending runs
    → Descending (runs_from runs ts)
unfolding runs_from
runs_from-Descending runs [] h l f d = d
runs_from-Descending runs (t ∷ ts) h l f d =
    runs_from-Descending (extend_runs runs t) ts (extend_runs-IsRun runs t h)
      (subst (λ xs. All (λ u. Last u xs) ts) (sym (extend_runs-concat runs t))
        (after-Last (concat runs) t ts l.1 f.0))
      f.1 (extend_runs-Descending runs t h l.0 d)

sorted-Falling : (ts : List Target) → IsSorted tier_rank_le ts → Falling ts
unfolding tier_rank_le
sorted-Falling [] h = tt
sorted-Falling (t ∷ ts) h = (
  All-map (λ u. tier_rank_le t u ≡ true) (λ u. u.consequence ≤ t.consequence) ts
      (λ u k. ground (arith, k)) h.0,
  sorted-Falling ts h.1,
)

Above-second : (xs ys zs : List Target) → Above xs (ys ++ zs) → Above xs zs
Above-second [] ys zs h = tt
Above-second (x ∷ xs) ys zs h =
    (All-second (λ y. y.consequence < x.consequence) ys zs h.0, Above-second xs ys zs h.1)

join-concat :
    (tiers : List (List Target)) (tier run : List Target) (runs : List (List Target))
    → concat (tiers ++ (tier ++ run) ∷ runs) ≡ concat (tiers ++ tier ∷ run ∷ runs)
join-concat [] tier run runs = append_assoc tier run (concat runs)
join-concat (xs ∷ tiers) tier run runs = ap (λ r. xs ++ r) (join-concat tiers tier run runs)

join-Descending :
    (tiers : List (List Target)) (tier run : List Target) (runs : List (List Target))
    → Descending (tiers ++ tier ∷ run ∷ runs)
    → Descending (tiers ++ (tier ++ run) ∷ runs)
join-Descending [] tier run runs h = (
  All-append (λ x. All (λ y. y.consequence < x.consequence) (concat runs)) tier run
      (Above-second tier run (concat runs) h.0) h.1.0,
  h.1.1,
)
join-Descending (xs ∷ tiers) tier run runs h = (
  subst (Above xs) (sym (join-concat tiers tier run runs)) h.0,
  join-Descending tiers tier run runs h.1,
)

close-Descending : (tiers : List (List Target)) → Descending (tiers ++ [] ∷ []) → Descending tiers
close-Descending [] h = tt
close-Descending (xs ∷ tiers) h = (
  subst (Above xs) (concat-append tiers ([] ∷ []) ∙ append-nil (concat tiers)) h.0,
  close-Descending tiers h.1,
)

tiers_from-Descending :
    (tiers : List (List Target)) (tier : List Target) (runs : List (List Target))
    → Descending (tiers ++ tier ∷ runs)
    → Descending (tiers_from tiers tier runs)
unfolding tiers_from is_empty_list
tiers_from-Descending tiers [] [] h = close-Descending tiers h
tiers_from-Descending tiers (t ∷ ts) [] h = h
tiers_from-Descending tiers tier (run ∷ runs) h =
    elim (Bool-cases (crosses_zero tier run || would_overflow tier run)) [
      | inl e ↦
          rw (tiers_from, e)
            (tiers_from-Descending (tiers ++ tier ∷ []) run runs
              (subst Descending (sym (append_assoc tiers (tier ∷ []) (run ∷ runs))) h))
      | inr e ↦
          rw (tiers_from, e)
            (tiers_from-Descending tiers (tier ++ run) runs (join-Descending tiers tier run runs h))
    ]

-- Every tier of every plan holds sixteen targets at most or is a single tie, is not empty, and does
-- not mix targets of no consequence with others; and each tier stands strictly above all later
-- ones, so no tie is split between two tiers. Every worker walks the whole plan, each target once.
pub tiers-Descending :
    (digest : String → String → String) (worker_id : String) (plan : List Target)
    → All IsTier (consequence_tiers plan)
      × Descending (consequence_tiers plan)
      × Perm (order_for_worker digest worker_id plan) plan
unfolding consequence_tiers
tiers-Descending digest worker_id plan =
    let ranked = sorted tier_rank_le plan in
    (
      tiers-IsTier plan,
      tiers_from-Descending [] [] (runs_from [] ranked) (
        tt,
        runs_from-Descending [] ranked tt (none_before ranked)
            (sorted-Falling ranked
              (sorted-IsSorted tier_rank_le tier_rank_le_total tier_rank_le_trans plan))
            tt,
      ),
      order_for_worker-perm digest worker_id plan,
    )
  where
    none_before : (ts : List Target) → All (λ t. Last t []) ts
    none_before [] = tt
    none_before (t ∷ ts) = (tt, none_before ts)
