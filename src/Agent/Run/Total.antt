-- ===== src/Agent/Run/Total.antt =====
-- The auditor's loop ends within its fuel.
use sidq.Prelude.{
  ℕ, zero, suc, ◌+◌, ◌*◌, ◌≤◌, leb, String, true, some, List, [], ◌∷◌, map, length, length-map, All,
  All-map, Bool-cases, Option-cases, List-cases, ◌≡◌, refl, arith, inl, inr, str_eq_refl,
}
use sidq.Prelude.Dict.{Dict, lookup}
use sidq.Prelude.Sets.{member, lookup-insert_all, remaining, remaining_at_most}
use sidq.Models.{Evidence}
use sidq.Catalog.Gate.{collect}
use sidq.Receipt.State.{Show}
use sidq.Agent.Auditor.Scope.{examine_total}
use sidq.Agent.Auditor.{Target, AuditRun, CatalogAuditor, plan, examine}
use sidq.Agent.Run.{
  Progress, start, targets_by_urn, audit_target, take_target, consider, run_loop, run,
}
use sidq.Agent.Run.Books.{After, Books, take_target-Books}

abbrev pub urns : List Target → List String
urns targets = map (λ (t : Target). t.urn) targets

abbrev pub Planned : List Target → Target → Type 0
Planned targets t = member t.urn (urns targets) ≡ true

pub own-Planned : (targets : List Target) → All (Planned targets) targets
unfolding member
own-Planned [] = tt
own-Planned (t ∷ ts) = (
  ground (arith, str_eq_refl t.urn),
  All-map (Planned ts) (Planned (t ∷ ts)) ts (λ x h. ground (arith, h)) (own-Planned ts),
)

-- Every target that a promotion finds is one of the plan.
pub targets_by_urn-Planned :
    (targets : List Target) (u : String) (t : Target)
    → lookup u (targets_by_urn targets) ≡ some t
    → Planned targets t × (member u (urns targets) ≡ true)
unfolding targets_by_urn lookup
targets_by_urn-Planned targets =
    lookup-insert_all (λ u t. Planned targets t × (member u (urns targets) ≡ true))
      (map (λ (t : Target). (t.urn, t)) targets) [] (pairs targets (own-Planned targets))
      (λ u t h. ground (arith, h))
  where
    pairs :
        (ts : List Target)
        → All (Planned targets) ts
        → All
            (λ (kv : String × Target). Planned targets kv.1 × (member kv.0 (urns targets) ≡ true))
            (map (λ (t : Target). (t.urn, t)) ts)
    pairs [] h = tt
    pairs (t ∷ ts) h = ((h.0, h.0), pairs ts h.1)

module _ (a : CatalogAuditor) (known : List String) (P : Target → Type 0) (by_urn : Dict Target)
    (sound : (u : String) (t : Target) → lookup u by_urn ≡ some t → P t × (member u known ≡ true))
    (examines : (u : String) → (found : List Evidence) × (examine a u ≡ some found)) where
  abbrev left : Progress → ℕ
  left st = length st.queue + remaining known st.promoted_urns

  audit_target_total :
      (target : Target) (st : Progress)
      → (st' : Progress) × (audit_target a by_urn target st ≡ some st')
  unfolding audit_target
  audit_target_total target st = elim (Bool-cases (leb a.budget (length st.result.examined))) [
    | inl e ↦ rw (audit_target, e) (_, refl)
    | inr e ↦ let (collected, f) = examines target.urn in rw (audit_target, e, f) (_, refl)
  ]

  take_target_total :
      (target : Target) (st : Progress)
      → (st' : Progress) × (take_target a by_urn target st ≡ some st')
  unfolding take_target
  take_target_total target st = elim (Option-cases (lookup target.urn a.prior)) [
    | inl e ↦ rw (take_target, e) (audit_target_total target st)
    | inr (p, e) ↦ elim (Bool-cases p.covers) [
      | inl f ↦ rw (take_target, e, f) (_, refl)
      | inr f ↦ rw (take_target, e, f) (audit_target_total target st)
    ]
  ]

  consider_ends :
      (target : Target) (st : Progress)
      → (st' : Progress) × (consider a by_urn target st ≡ some st') × (left st' ≤ left st)
  unfolding consider
  consider_ends target st = elim (Bool-cases (member target.urn st.seen)) [
    | inl e ↦ rw (consider, e) (st, refl, ground arith)
    | inr e ↦
        let st₁ : Progress = record st { seen = target.urn ∷ st.seen } in
        let (st', f) = take_target_total target st₁ in
        let after : After known P by_urn sound (Books known P by_urn sound target st₁) (some st') =
          rw f at (take_target-Books known P by_urn sound a target st₁) in
        rw (consider, e) (st', f, after.no_more_left)
  ]

  pub run_loop_total :
      (fuel : ℕ) (st : Progress)
      → left st ≤ fuel
      → (r : AuditRun) × (run_loop fuel a by_urn st ≡ some r)
  unfolding run_loop
  run_loop_total zero st h = elim (List-cases st.queue) [
    | inl e ↦ rw (run_loop, e) (st.result, refl)
    | inr (t, ts, e) ↦ ground (arith, e, h)
  ]
  run_loop_total (suc fuel) st h = elim (List-cases st.queue) [
    | inl e ↦ rw (run_loop, e) (st.result, refl)
    | inr (t, ts, e) ↦
        let (st', f, le) = consider_ends t (record st { queue = ts }) in
        let (r, g) = run_loop_total fuel st' (ground (arith, e, le, h)) in
        rw (run_loop, e, f) (r, g)
  ]

-- If no examination raises, `run` returns a report: its loop ends within its fuel.
run_total :
    (show : Show) (casefold : String → String) (a : CatalogAuditor)
    → ((u : String) → (found : List Evidence) × (examine a u ≡ some found))
    → (r : AuditRun) × (run show casefold a ≡ some r)
unfolding run
run_total show casefold a examines =
    let targets = plan show casefold a in
    run_loop_total a (urns targets) (Planned targets) (targets_by_urn targets)
      (targets_by_urn-Planned targets) examines (2 * length targets) (start targets)
      (ground
        (arith, remaining_at_most (urns targets) [], length-map (λ (t : Target). t.urn) targets))

-- With the gate of the source, an audit always returns a report: nothing raises, and the loop ends
-- within its fuel.
pub audit_total :
    (show : Show) (casefold : String → String) (column_references : String → List String)
    (a : CatalogAuditor)
    → a.gate ≡ collect casefold column_references
    → (r : AuditRun) × (run show casefold a ≡ some r)
audit_total show casefold column_references a h =
    run_total show casefold a (λ u. examine_total casefold column_references a u h)
