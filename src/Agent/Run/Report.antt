-- ===== src/Agent/Run/Report.antt =====
-- The report that `run` returns is honest in every book.
use sidq.Prelude.{
  ℕ, zero, suc, ◌*◌, leb, String, false, Option, none, some, List, ◌∷◌, any, length, Bool-cases,
  Option-cases, List-cases, ◌≡◌, sym, subst, if◌then◌else◌, arith, inl, inr,
}
use sidq.Prelude.Dict.{Dict, lookup}
use sidq.Prelude.Sets.{member}
use sidq.Models.{Evidence}
use sidq.Catalog.Checks.Columns.{is_empty_list}
use sidq.Receipt.State.{Show}
use sidq.Agent.Auditor.{Target, AuditRun, CatalogAuditor, plan, neighbours, examine}
use sidq.Agent.Run.{
  Progress, start, contagious_findings, targets_by_urn, record_prior, found_in, record_evidence,
  conclude, audit_target, take_target, consider, run_loop, run,
}
use sidq.Agent.Run.Honest.{IsHonest, covered}
use sidq.Agent.Run.Steps.{
  start-IsHonest, record_prior-IsHonest, deferred-IsHonest, record_evidence-IsHonest,
  record_empty-IsHonest, promote_all-IsHonest,
}

module _ (a : CatalogAuditor) (by_urn : Dict Target) where
  abbrev StaysHonest : Option Progress → Type 0
  StaysHonest none = Unit
  StaysHonest (some st) = IsHonest a st.result

  conclude-IsHonest :
      (target : Target) (collected : List Evidence) (st : Progress)
      → examine a target.urn ≡ some collected
      → IsHonest a (record_evidence target collected st.result)
      → IsHonest a (conclude a by_urn target collected st).result
  unfolding conclude
  conclude-IsHonest target collected st e h =
      let r = record_evidence target collected st.result in
      elim (Bool-cases (is_empty_list (found_in collected))) [
        | inl n ↦ rw (conclude, n) (record_empty-IsHonest a target collected r e n h)
        | inr n ↦
            elim (Bool-cases
              (any (λ (ev : Evidence). member ev.kind contagious_findings) (found_in collected))) [
                | inl c ↦
                    rw (conclude, n, c)
                      (promote_all-IsHonest a by_urn target.urn (neighbours a.snapshot target.urn)
                        (record st { result = r }) h)
                | inr c ↦ rw (conclude, n, c) h
              ]
      ]

  audit_target-StaysHonest :
      (target : Target) (st : Progress)
      → covered a target.urn ≡ false
      → IsHonest a st.result
      → StaysHonest (audit_target a by_urn target st)
  unfolding audit_target
  audit_target-StaysHonest target st c h =
      elim (Bool-cases (leb a.budget (length st.result.examined))) [
        | inl b ↦ rw (audit_target, b) (deferred-IsHonest a target st.result (ground (arith, b)) h)
        | inr b ↦ elim (Option-cases (examine a target.urn)) [
          | inl e ↦ rw (audit_target, b, e) tt
          | inr (collected, e) ↦
              rw (audit_target, b, e)
                (conclude-IsHonest target collected st e
                  (record_evidence-IsHonest a target collected st.result b c h))
        ]
      ]

  take_target-StaysHonest :
      (target : Target) (st : Progress)
      → IsHonest a st.result
      → StaysHonest (take_target a by_urn target st)
  unfolding take_target
  take_target-StaysHonest target st h = elim (Option-cases (lookup target.urn a.prior)) [
    | inl e ↦ rw (take_target, e) (audit_target-StaysHonest target st (ground (arith, e)) h)
    | inr (p, e) ↦ elim (Bool-cases p.covers) [
      | inl c ↦
          rw (take_target, e)
            (subst
              (λ b. StaysHonest (
                if b
                then some (record st { result = record_prior p target st.result })
                else audit_target a by_urn target st))
              (sym c) (record_prior-IsHonest a p target st.result e c h))
      | inr c ↦
          rw (take_target, e)
            (subst
              (λ b. StaysHonest (
                if b
                then some (record st { result = record_prior p target st.result })
                else audit_target a by_urn target st))
              (sym c) (audit_target-StaysHonest target st (ground (arith, e, c)) h))
    ]
  ]

  consider-StaysHonest :
      (target : Target) (st : Progress)
      → IsHonest a st.result
      → StaysHonest (consider a by_urn target st)
  unfolding consider
  consider-StaysHonest target st h = elim (Bool-cases (member target.urn st.seen)) [
    | inl e ↦ rw (consider, e) h
    | inr e ↦
        rw (consider, e)
          (take_target-StaysHonest target (record st { seen = target.urn ∷ st.seen }) h)
  ]

  run_loop-IsHonest :
      (fuel : ℕ) (st : Progress) (r : AuditRun)
      → IsHonest a st.result
      → run_loop fuel a by_urn st ≡ some r
      → IsHonest a r
  unfolding run_loop
  run_loop-IsHonest zero st r h e = elim (List-cases st.queue) [
    | inl q ↦ let same : st.result ≡ r = ground (arith, e, q) in subst (IsHonest a) same h
    | inr (t, ts, q) ↦ ground (arith, e, q)
  ]
  run_loop-IsHonest (suc fuel) st r h e = elim (List-cases st.queue) [
    | inl q ↦ let same : st.result ≡ r = ground (arith, e, q) in subst (IsHonest a) same h
    | inr (t, ts, q) ↦ elim (Option-cases (consider a by_urn t (record st { queue = ts }))) [
      | inl f ↦ ground (arith, e, q, f)
      | inr (st', f) ↦
          run_loop-IsHonest fuel st' r
            (rw f at (consider-StaysHonest t (record st { queue = ts }) h))
            (ground (arith, e, q, f))
    ]
  ]

-- Every book of a report is honest: at most the budget is spent and all of it before anything is
-- deferred, no asset that a receipt covers is examined, what is vouched for or refused has a
-- covering receipt that says so, an asset is verified only if its examination gave no evidence at
-- all, an unestablished one gave only evidence that could not be checked, and no finding is such
-- evidence.
pub run-IsHonest :
    (show : Show) (casefold : String → String) (a : CatalogAuditor) (r : AuditRun)
    → run show casefold a ≡ some r
    → IsHonest a r
unfolding run
run-IsHonest show casefold a r h =
    let targets = plan show casefold a in
    run_loop-IsHonest a (targets_by_urn targets) (2 * length targets) (start targets) r
      (start-IsHonest a targets) h
