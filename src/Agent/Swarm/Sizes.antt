-- ===== src/Agent/Swarm/Sizes.antt =====
-- What a single tier is like.
use sidq.Prelude.{
  ℕ, ◌≤◌, ltb, ◌==◌, ==_iff, true, false, ◌||◌, List, [], ◌∷◌, ◌++◌, length, length-append, All,
  All-append, All-map, Bool-cases, ◌≡◌, refl, sym, ap, subst, ◌∙◌, ◌⊎◌, inl, inr, arith,
}
use sidq.Prelude.Sort.{sorted}
use sidq.Catalog.Checks.Columns.{is_empty_list}
use sidq.Agent.Auditor.{Target}
use sidq.Agent.Swarm.{
  tier_rank_le, ties_with, extend_runs, runs_from, tier_size, leads_positive, crosses_zero,
  would_overflow, tiers_from, consequence_tiers,
}

-- All targets have one consequence.
abbrev pub IsTie : List Target → Type 0
IsTie ts = (c : ℕ) × All (λ t. t.consequence ≡ c) ts

-- A tier holds sixteen targets at most, or it is a single tie; and it does not mix targets of no
-- consequence with others.
pub record IsTier (tier : List Target) : Type 0 where
  pub not_empty : is_empty_list tier ≡ false
  pub small_or_tie : (length tier ≤ tier_size) ⊎ IsTie tier
  pub one_sign : All (λ t. ltb 0 t.consequence ≡ leads_positive tier) tier

pub record IsRun (run : List Target) : Type 0 where
  pub some_target : is_empty_list run ≡ false
  pub is_tie : IsTie run

run-IsTier : (run : List Target) → IsRun run → IsTier run
unfolding leads_positive is_empty_list
run-IsTier [] h = ground (arith, h.some_target)
run-IsTier (t ∷ ts) h =
    let (c, all_c) = h.is_tie in
    record {
      not_empty = refl;
      small_or_tie = inr h.is_tie;
      one_sign =
          All-map (λ x. x.consequence ≡ c) (λ x. ltb 0 x.consequence ≡ ltb 0 t.consequence) (t ∷ ts)
            (λ x e. ap (ltb 0) (e ∙ sym all_c.0)) all_c;
    }

pub extend_runs-IsRun :
    (runs : List (List Target)) (t : Target) → All IsRun runs → All IsRun (extend_runs runs t)
unfolding extend_runs ties_with is_empty_list
extend_runs-IsRun [] t h = (record { some_target = refl; is_tie = (t.consequence, (refl, tt)) }, tt)
extend_runs-IsRun ([] ∷ []) t h = ground (arith, h.0.some_target)
extend_runs-IsRun ((r ∷ rs) ∷ []) t h = elim (Bool-cases (r.consequence == t.consequence)) [
  | inl e ↦
      let (c, all_c) = h.0.is_tie in
      let tied : t.consequence ≡ c = sym ((==_iff r.consequence t.consequence).0 e) ∙ all_c.0 in
      rw (extend_runs, ties_with, e)
        (
          record {
            some_target = refl;
            is_tie = (c, All-append (λ x. x.consequence ≡ c) (r ∷ rs) (t ∷ []) all_c (tied, tt));
          },
          tt,
        )
  | inr e ↦
      rw (extend_runs, ties_with, e)
        (h.0, (record { some_target = refl; is_tie = (t.consequence, (refl, tt)) }, tt))
]
extend_runs-IsRun (run ∷ next ∷ runs) t h = (h.0, extend_runs-IsRun (next ∷ runs) t h.1)

pub runs_from-IsRun :
    (runs : List (List Target)) (ts : List Target) → All IsRun runs → All IsRun (runs_from runs ts)
unfolding runs_from
runs_from-IsRun runs [] h = h
runs_from-IsRun runs (t ∷ ts) h =
    runs_from-IsRun (extend_runs runs t) ts (extend_runs-IsRun runs t h)

-- A run that neither crosses zero nor overflows joins a tier.
joined-IsTier :
    (tier run : List Target)
    → IsTier tier
    → IsRun run
    → crosses_zero tier run || would_overflow tier run ≡ false
    → IsTier (tier ++ run)
unfolding crosses_zero would_overflow is_empty_list leads_positive
joined-IsTier [] run h k e = ground (arith, h.not_empty)
joined-IsTier (t ∷ ts) run h k e =
    let sign : leads_positive run ≡ ltb 0 t.consequence = ground (arith, e) in
    record {
      not_empty = refl;
      small_or_tie = inl (ground (arith, e, length-append (t ∷ ts) run));
      one_sign =
          All-append (λ x. ltb 0 x.consequence ≡ ltb 0 t.consequence) (t ∷ ts) run h.one_sign
            (subst (λ b. All (λ x. ltb 0 x.consequence ≡ b) run) sign (run-IsTier run k).one_sign);
    }

tiers_from-IsTier :
    (tiers : List (List Target)) (tier : List Target) (runs : List (List Target))
    → All IsTier tiers
    → (is_empty_list tier ≡ true) ⊎ IsTier tier
    → All IsRun runs
    → All IsTier (tiers_from tiers tier runs)
unfolding tiers_from is_empty_list crosses_zero would_overflow
tiers_from-IsTier tiers [] [] h k l = h
tiers_from-IsTier tiers (t ∷ ts) [] h (inl e) l = ground (arith, e)
tiers_from-IsTier tiers (t ∷ ts) [] h (inr k) l = All-append IsTier tiers ((t ∷ ts) ∷ []) h (k, tt)
tiers_from-IsTier tiers [] (run ∷ runs) h k l =
    tiers_from-IsTier tiers run runs h (inr (run-IsTier run l.0)) l.1
tiers_from-IsTier tiers (t ∷ ts) (run ∷ runs) h (inl e) l = ground (arith, e)
tiers_from-IsTier tiers (t ∷ ts) (run ∷ runs) h (inr k) l =
    elim (Bool-cases (crosses_zero (t ∷ ts) run || would_overflow (t ∷ ts) run)) [
      | inl e ↦
          rw (tiers_from, e)
            (tiers_from-IsTier (tiers ++ (t ∷ ts) ∷ []) run runs
              (All-append IsTier tiers ((t ∷ ts) ∷ []) h (k, tt)) (inr (run-IsTier run l.0)) l.1)
      | inr e ↦
          rw (tiers_from, e)
            (tiers_from-IsTier tiers (t ∷ ts ++ run) runs h
              (inr (joined-IsTier (t ∷ ts) run k l.0 e)) l.1)
    ]

-- Every tier of every plan holds sixteen targets at most or is a single tie, is not empty, and does
-- not mix targets of no consequence with others.
pub tiers-IsTier : (plan : List Target) → All IsTier (consequence_tiers plan)
unfolding consequence_tiers is_empty_list
tiers-IsTier plan =
    tiers_from-IsTier [] [] (runs_from [] (sorted tier_rank_le plan)) tt (inl refl)
      (runs_from-IsRun [] (sorted tier_rank_le plan) tt)
