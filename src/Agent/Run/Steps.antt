-- ===== src/Agent/Run/Steps.antt =====
-- Each operation of the auditor's loop keeps the books honest.
use sidq.Prelude.{
  ◌≤◌, leb, String, true, false, ◌||◌, some, List, [], ◌∷◌, ◌++◌, any, length, length-append,
  All-append, Bool-cases, Option-cases, ◌≡◌, refl, subst, arith, inl, inr,
}
use sidq.Prelude.Dict.{Dict, lookup}
use sidq.Prelude.Sets.{member}
use sidq.Models.{Evidence}
use sidq.Catalog.Checks.Columns.{is_empty_list}
use sidq.Agent.Memory.{PriorReceipt, prior_refused}
use sidq.Agent.Auditor.{Target, AuditRun, CatalogAuditor, is_unverifiable, examine}
use sidq.Agent.Run.{
  Progress, empty_run, record_prior, found_in, record_evidence, record_empty, promote, promote_all,
}
use sidq.Agent.Run.Honest.{
  Recorded, covered, Unestablished, IsHonest, none_of_either, found_in-real,
}

module _ (a : CatalogAuditor) where
  pub start-IsHonest : (targets : List Target) → IsHonest a (empty_run targets)
  unfolding is_empty_list
  start-IsHonest targets = record {
    within_budget = ground arith;
    budget_spent = λ h. ground (arith, h);
    never_covered = tt;
    vouched_recorded = tt;
    refused_recorded = tt;
    verified_clean = tt;
    unestablished_gap = tt;
    findings_real = tt;
  }

  pub record_prior-IsHonest :
      (p : PriorReceipt) (target : Target) (r : AuditRun)
      → lookup target.urn a.prior ≡ some p
      → p.covers ≡ true
      → IsHonest a r
      → IsHonest a (record_prior p target r)
  unfolding record_prior
  record_prior-IsHonest p target r e c h = elim (Bool-cases (prior_refused p)) [
    | inl b ↦
        rw (record_prior, b)
          (record {
            within_budget = h.within_budget;
            budget_spent = h.budget_spent;
            never_covered = h.never_covered;
            vouched_recorded = h.vouched_recorded;
            refused_recorded =
                All-append (Recorded a true) r.refused ((target.urn, p.reason) ∷ [])
                  h.refused_recorded
                  (
                    record {
                      receipt = p;
                      is_prior = e;
                      is_current = c;
                      is_blocked = b;
                      is_reason = refl;
                    },
                    tt,
                  );
            verified_clean = h.verified_clean;
            unestablished_gap = h.unestablished_gap;
            findings_real = h.findings_real;
          })
    | inr b ↦
        rw (record_prior, b)
          (record {
            within_budget = h.within_budget;
            budget_spent = h.budget_spent;
            never_covered = h.never_covered;
            vouched_recorded =
                All-append (Recorded a false) r.vouched ((target.urn, p.reason) ∷ [])
                  h.vouched_recorded
                  (
                    record {
                      receipt = p;
                      is_prior = e;
                      is_current = c;
                      is_blocked = b;
                      is_reason = refl;
                    },
                    tt,
                  );
            refused_recorded = h.refused_recorded;
            verified_clean = h.verified_clean;
            unestablished_gap = h.unestablished_gap;
            findings_real = h.findings_real;
          })
  ]

  pub deferred-IsHonest :
      (target : Target) (r : AuditRun)
      → a.budget ≤ length r.examined
      → IsHonest a r
      → IsHonest a (record r { deferred = r.deferred ++ target ∷ [] })
  deferred-IsHonest target r le h = record {
    within_budget = h.within_budget;
    budget_spent = λ _. le;
    never_covered = h.never_covered;
    vouched_recorded = h.vouched_recorded;
    refused_recorded = h.refused_recorded;
    verified_clean = h.verified_clean;
    unestablished_gap = h.unestablished_gap;
    findings_real = h.findings_real;
  }

  pub record_evidence-IsHonest :
      (target : Target) (collected : List Evidence) (r : AuditRun)
      → leb a.budget (length r.examined) ≡ false
      → covered a target.urn ≡ false
      → IsHonest a r
      → IsHonest a (record_evidence target collected r)
  unfolding record_evidence
  record_evidence-IsHonest target collected r le c h =
      let longer = length-append r.examined (target.urn ∷ []) in
      record {
        within_budget = ground (arith, le, longer);
        budget_spent = λ d. ground (arith, longer, h.budget_spent d);
        never_covered =
            All-append (λ u. covered a u ≡ false) r.examined (target.urn ∷ []) h.never_covered
              (c, tt);
        vouched_recorded = h.vouched_recorded;
        refused_recorded = h.refused_recorded;
        verified_clean = h.verified_clean;
        unestablished_gap = h.unestablished_gap;
        findings_real =
            All-append (λ ev. is_unverifiable ev ≡ false) r.findings (found_in collected)
              h.findings_real (found_in-real collected);
      }

  pub record_empty-IsHonest :
      (target : Target) (collected : List Evidence) (r : AuditRun)
      → examine a target.urn ≡ some collected
      → is_empty_list (found_in collected) ≡ true
      → IsHonest a r
      → IsHonest a (record_empty target collected r)
  unfolding record_empty
  record_empty-IsHonest target collected r e n h =
      elim (Bool-cases (any is_unverifiable collected)) [
        | inl b ↦
            rw (record_empty, b)
              (record {
                within_budget = h.within_budget;
                budget_spent = h.budget_spent;
                never_covered = h.never_covered;
                vouched_recorded = h.vouched_recorded;
                refused_recorded = h.refused_recorded;
                verified_clean = h.verified_clean;
                unestablished_gap =
                    All-append (Unestablished a) r.unestablished (target.urn ∷ [])
                      h.unestablished_gap
                      (
                        record {
                          evidence = collected;
                          examined_as = e;
                          nothing_found = n;
                          not_checkable = b;
                        },
                        tt,
                      );
                findings_real = h.findings_real;
              })
        | inr b ↦
            rw (record_empty, b)
              (record {
                within_budget = h.within_budget;
                budget_spent = h.budget_spent;
                never_covered = h.never_covered;
                vouched_recorded = h.vouched_recorded;
                refused_recorded = h.refused_recorded;
                verified_clean =
                    All-append (λ u. examine a u ≡ some []) r.verified (target.urn ∷ [])
                      h.verified_clean
                      (
                        subst (λ evs. examine a target.urn ≡ some evs)
                            (none_of_either collected n b) e,
                        tt,
                      );
                unestablished_gap = h.unestablished_gap;
                findings_real = h.findings_real;
              })
      ]

  promote-IsHonest :
      (by_urn : Dict Target) (because urn : String) (st : Progress)
      → IsHonest a st.result
      → IsHonest a (promote by_urn because urn st).result
  unfolding promote
  promote-IsHonest by_urn because urn st h =
      elim (Bool-cases (member urn st.seen || member urn st.promoted_urns)) [
        | inl e ↦ rw (promote, e) h
        | inr e ↦ elim (Option-cases (lookup urn by_urn)) [
          | inl f ↦ rw (promote, e, f) h
          | inr (target, f) ↦
              rw (promote, e, f)
                (record {
                  within_budget = h.within_budget;
                  budget_spent = h.budget_spent;
                  never_covered = h.never_covered;
                  vouched_recorded = h.vouched_recorded;
                  refused_recorded = h.refused_recorded;
                  verified_clean = h.verified_clean;
                  unestablished_gap = h.unestablished_gap;
                  findings_real = h.findings_real;
                })
        ]
      ]

  pub promote_all-IsHonest :
      (by_urn : Dict Target) (because : String) (urns : List String) (st : Progress)
      → IsHonest a st.result
      → IsHonest a (promote_all by_urn because urns st).result
  unfolding promote_all
  promote_all-IsHonest by_urn because [] st h = h
  promote_all-IsHonest by_urn because (urn ∷ urns) st h =
      promote_all-IsHonest by_urn because urns (promote by_urn because urn st)
        (promote-IsHonest by_urn because urn st h)
