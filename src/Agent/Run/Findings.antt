-- ===== src/Agent/Run/Findings.antt =====
-- Every evidence of a report comes from an examination.
use sidq.Prelude.{
  ℕ, zero, suc, ◌*◌, leb, String, str_eq, false, not, Option, none, some, List, [], ◌∷◌, length,
  All, All-append, keep-All, Bool-cases, Option-cases, List-cases, ◌≡◌, subst, arith, inl, inr,
}
use sidq.Prelude.Dict.{Dict}
use sidq.Models.{Evidence}
use sidq.Catalog.Gate.{collect}
use sidq.Catalog.Gate.Kinds.{Other, Returned}
use sidq.Receipt.State.{Show}
use sidq.Agent.Auditor.{
  Target, AuditRun, CatalogAuditor, plan, neighbours, is_unverifiable, examine,
}
use sidq.Agent.Auditor.Scope.{examine-Other}
use sidq.Agent.Run.{
  Progress, start, targets_by_urn, record_prior, found_in, record_evidence, record_empty, promote,
  promote_all, conclude, audit_target, take_target, consider, run_loop, run,
}

module _ (a : CatalogAuditor) (by_urn : Dict Target) (P : Evidence → Type 0)
    (examined : (u : String) → Returned P (examine a u)) where
  abbrev Good : AuditRun → Type 0
  Good r = All P r.findings

  abbrev StaysGood : Option Progress → Type 0
  StaysGood none = Unit
  StaysGood (some st) = Good st.result

  promote-Good :
      (because urn : String) (st : Progress)
      → Good st.result
      → Good (promote by_urn because urn st).result
  unfolding promote
  promote-Good because urn st h = ground (arith, h)

  promote_all-Good :
      (because : String) (urns : List String) (st : Progress)
      → Good st.result
      → Good (promote_all by_urn because urns st).result
  unfolding promote_all
  promote_all-Good because [] st h = h
  promote_all-Good because (urn ∷ urns) st h =
      promote_all-Good because urns (promote by_urn because urn st) (promote-Good because urn st h)

  conclude-Good :
      (target : Target) (collected : List Evidence) (st : Progress)
      → All P collected
      → Good st.result
      → Good (conclude a by_urn target collected st).result
  unfolding conclude record_evidence record_empty
  conclude-Good target collected st c h =
      let r = record_evidence target collected st.result in
      let more : Good r =
        All-append P st.result.findings (found_in collected) h
          (keep-All P (λ ev. not (is_unverifiable ev)) collected c) in
      let next =
        promote_all-Good target.urn (neighbours a.snapshot target.urn) (record st { result = r })
          more in
      ground (arith, more, next)

  audit_target-StaysGood :
      (target : Target) (st : Progress)
      → Good st.result
      → StaysGood (audit_target a by_urn target st)
  unfolding audit_target
  audit_target-StaysGood target st h =
      elim (Bool-cases (leb a.budget (length st.result.examined))) [
        | inl b ↦ rw (audit_target, b) h
        | inr b ↦ elim (Option-cases (examine a target.urn)) [
          | inl e ↦ rw (audit_target, b, e) tt
          | inr (collected, e) ↦
              rw (audit_target, b, e)
                (conclude-Good target collected st (subst (Returned P) e (examined target.urn)) h)
        ]
      ]

  take_target-StaysGood :
      (target : Target) (st : Progress)
      → Good st.result
      → StaysGood (take_target a by_urn target st)
  unfolding take_target record_prior
  take_target-StaysGood target st h = ground (arith, h, audit_target-StaysGood target st h)

  consider-StaysGood :
      (target : Target) (st : Progress) → Good st.result → StaysGood (consider a by_urn target st)
  unfolding consider
  consider-StaysGood target st h =
      ground (arith, h, take_target-StaysGood target (record st { seen = target.urn ∷ st.seen }) h)

  run_loop-Good :
      (fuel : ℕ) (st : Progress) (r : AuditRun)
      → Good st.result
      → run_loop fuel a by_urn st ≡ some r
      → Good r
  unfolding run_loop
  run_loop-Good zero st r h e = elim (List-cases st.queue) [
    | inl q ↦ let same : st.result ≡ r = ground (arith, e, q) in subst Good same h
    | inr (t, ts, q) ↦ ground (arith, e, q)
  ]
  run_loop-Good (suc fuel) st r h e = elim (List-cases st.queue) [
    | inl q ↦ let same : st.result ≡ r = ground (arith, e, q) in subst Good same h
    | inr (t, ts, q) ↦ elim (Option-cases (consider a by_urn t (record st { queue = ts }))) [
      | inl f ↦ ground (arith, e, q, f)
      | inr (st', f) ↦
          run_loop-Good fuel st' r (rw f at (consider-StaysGood t (record st { queue = ts }) h))
            (ground (arith, e, q, f))
    ]
  ]

-- With the gate of the source, no report has a missing endpoint among its findings, whatever the
-- snapshot, its completeness, the budget and the receipts.
pub run_orphan_blind :
    (show : Show) (casefold : String → String) (column_references : String → List String)
    (a : CatalogAuditor) (r : AuditRun)
    → a.gate ≡ collect casefold column_references
    → run show casefold a ≡ some r
    → All (λ ev. str_eq ev.kind "orphan_lineage" ≡ false) r.findings
unfolding run
run_orphan_blind show casefold column_references a r h e =
    let targets = plan show casefold a in
    run_loop-Good a (targets_by_urn targets) Other
      (λ u. examine-Other casefold column_references a u h) (2 * length targets) (start targets) r
      tt e
