-- ===== src/Agent/Shift/Escapes.antt =====
-- The exception that ends a shift, and what a shift without one tells.
use sidq.Prelude.{
  ℕ, suc, ◌+◌, leb, length, String, true, false, Option, none, some, List, [], ◌∷◌, ◌++◌,
  Option-cases, Bool-cases, ◌≡◌, ◌⊎◌, refl, inl, inr, subst, arith,
}
use sidq.Value.{Fields, obj}
use sidq.Models.{Evidence}
use sidq.Policy.Engine.{decide}
use sidq.Receipt.State.{judge}
use sidq.Receipt.Build.{writable, build_receipt}
use sidq.Agent.Auditor.{Target, plan, examine}
use sidq.Agent.Swarm.{order_for_worker}
use sidq.Agent.Shift.{
  WorkerRun, Surroundings, SwarmWorker, write_verdict, establishes_nothing, record_examination,
  work, attend, attend_all, new_run, shift,
}

-- The read for this target failed, or it gave a receipt that does not cover the asset.
unfoldable pub Uncovered : Surroundings → ℕ → String → Type 0
Uncovered around n urn =
    (around.read n urn ≡ none)
    ⊎ ((status : Fields) × (around.read n urn ≡ some status)
        × ((judge around.show (obj status)).covers ≡ false))

write_verdict_refused :
    (w : SwarmWorker) (around : Surroundings) (n : ℕ) (urn : String) (evidence : List Evidence)
    (run : WorkerRun)
    → writable urn ≡ false
    → write_verdict w around n urn evidence run ≡ none
unfolding write_verdict build_receipt
write_verdict_refused w around n urn evidence run h =
    elim (Option-cases (decide around.format w.policy evidence [] w.commit_sha)) [
      | inl e ↦ rw (write_verdict, e) refl
      | inr (verdict, e) ↦ rw (write_verdict, e, h) refl
    ]

work_refused :
    (w : SwarmWorker) (around : Surroundings) (n : ℕ) (target : Target) (evidence : List Evidence)
    (run : WorkerRun)
    → examine w.auditor target.urn ≡ some evidence
    → establishes_nothing evidence ≡ false
    → writable target.urn ≡ false
    → work w around n target run ≡ none
unfolding work
work_refused w around n target evidence run e f g =
    rw (work, e, f)
      (write_verdict_refused w around n target.urn evidence
        (record_examination around target.urn evidence run) g)

attend_refused :
    (w : SwarmWorker) (around : Surroundings) (n : ℕ) (target : Target) (evidence : List Evidence)
    (run : WorkerRun)
    → Uncovered around n target.urn
    → examine w.auditor target.urn ≡ some evidence
    → establishes_nothing evidence ≡ false
    → writable target.urn ≡ false
    → attend w around n target run ≡ none
unfolding attend Uncovered
attend_refused w around n target evidence run (inl r) e f g =
    rw (attend, r) (work_refused w around n target evidence run e f g)
attend_refused w around n target evidence run (inr (status, r, c)) e f g =
    rw (attend, r, c) (work_refused w around n target evidence run e f g)

-- What follows a part of the order that leaves budget goes on from its account.
attend_all-append :
    (w : SwarmWorker) (around : Surroundings) (n m : ℕ) (before after : List Target)
    (run run' : WorkerRun)
    → m ≡ length before + n
    → attend_all w around n before run ≡ some run'
    → leb w.auditor.budget (length run'.examined) ≡ false
    → attend_all w around n (before ++ after) run ≡ attend_all w around m after run'
unfolding attend_all
attend_all-append w around n m [] after run run' i h k =
    let same_place : m ≡ n = omega (arith, i) in let same : some run ≡ some run' = h in cc
attend_all-append w around n m (target ∷ before) after run run' i h k =
    elim (Bool-cases (leb w.auditor.budget (length run.examined))) [
      | inl b ↦
          let same : some run ≡ some run' = ground (arith, b, h) in
          let spent : leb w.auditor.budget (length run'.examined) ≡ true =
            subst
              (λ (o : Option WorkerRun). elim o [
                | none ↦ true ≡ true
                | some r ↦ leb w.auditor.budget (length r.examined) ≡ true
              ])
              same b in
          let q : true ≡ false = ground (arith, spent, k) in cc
      | inr b ↦ elim (Option-cases (attend w around n target run)) [
        | inl e ↦ let q : true ≡ false = ground (arith, b, e, h) in cc
        | inr (next, e) ↦
            rw (attend_all, b, e)
              (attend_all-append w around (suc n) m before after next run' (omega (arith, i))
                (rw (attend_all, b, e) at h) k)
      ]
    ]

-- If the order of a shift comes to a target that is not a dataset while budget is left, no receipt
-- covers the target then, and its examination establishes anything, then the whole shift ends with
-- an exception: there is no account of the targets before it, and none after it is attended to.
pub shift_non_dataset :
    (casefold : String → String) (digest : String → String → String) (w : SwarmWorker)
    (around : Surroundings) (before after : List Target) (target : Target)
    (evidence : List Evidence) (run : WorkerRun)
    → order_for_worker digest w.id (plan around.show casefold w.auditor) ≡ before ++ target ∷ after
    → attend_all w around 0 before (new_run w) ≡ some run
    → leb w.auditor.budget (length run.examined) ≡ false
    → Uncovered around (length before) target.urn
    → examine w.auditor target.urn ≡ some evidence
    → establishes_nothing evidence ≡ false
    → writable target.urn ≡ false
    → shift casefold digest w around ≡ none
unfolding shift attend_all
shift_non_dataset casefold digest w around before after target evidence run o h b u e f g =
    let there =
      attend_all-append w around 0 (length before) before (target ∷ after) (new_run w) run
        (omega arith) h b in
    let lost = attend_refused w around (length before) target evidence run u e f g in
    rw (shift, o, there, attend_all, b, lost) refl
