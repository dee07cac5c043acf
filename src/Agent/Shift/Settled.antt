-- ===== src/Agent/Shift/Settled.antt =====
-- What became of every asset that a shift examined.
use sidq.Prelude.{
  ℕ, suc, leb, length, String, str_eq, str_eq_refl, Bool, true, false, ends_with, Option, none,
  some, List, [], ◌∷◌, ◌++◌, All, All-map, All-append, any, any-append, Option-cases, Bool-cases,
  ◌≡◌, ◌≢◌, refl, sym, subst, inl, inr, arith,
}
use sidq.Prelude.Sets.{member, member-append}
use sidq.Value.{obj}
use sidq.Models.{Evidence, Verdict}
use sidq.Policy.Engine.{decide}
use sidq.Receipt.State.{judge}
use sidq.Receipt.Build.{Receipt, writable, build_receipt}
use sidq.Agent.Auditor.{Target, plan, examine, is_unverifiable}
use sidq.Agent.Run.{found_in}
use sidq.Catalog.Checks.Columns.{is_empty_list}
use sidq.Agent.Swarm.{order_for_worker}
use sidq.Agent.Shift.{
  WorkerRun, Surroundings, SwarmWorker, skip, write_verdict, establishes_nothing,
  record_examination, work, attend, attend_all, new_run, shift,
}

-- The run has a write of the asset that failed.
unfoldable pub failed_at : String → WorkerRun → Bool
failed_at urn run = any (λ (p : String × String). str_eq urn p.0) run.write_failures

-- The examination gave evidence, none of which could be verified, or the asset is a dataset and the run says that its receipt
-- was written or that the write failed.
pub data Settled (w : SwarmWorker) (run : WorkerRun) (urn : String) : Type 0 where
  nothing :
      (evidence : List Evidence)
      → examine w.auditor urn ≡ some evidence
      → evidence ≢ []
      → All (λ ev. ends_with "_unverifiable" ev.kind ≡ true) evidence
      → Settled w run urn
  written : writable urn ≡ true → member urn run.written ≡ true → Settled w run urn
  write_failed : writable urn ≡ true → failed_at urn run ≡ true → Settled w run urn

record Later (run run' : WorkerRun) : Type 0 where
  pub still_written : (u : String) → member u run.written ≡ true → member u run'.written ≡ true
  pub still_failed : (u : String) → failed_at u run ≡ true → failed_at u run' ≡ true

later_Settled :
    (w : SwarmWorker) (run run' : WorkerRun)
    → Later run run'
    → (urn : String) → Settled w run urn
    → Settled w run' urn
later_Settled w run run' h urn (nothing evidence e n a) = nothing evidence e n a
later_Settled w run run' h urn (written d m) = written d (h.still_written urn m)
later_Settled w run run' h urn (write_failed d m) = write_failed d (h.still_failed urn m)

-- A round examines the target and settles it, or examines nothing.
data Rounded (w : SwarmWorker) (urn : String) (run run' : WorkerRun) : Type 0 where
  examined_it :
      run'.examined ≡ run.examined ++ urn ∷ []
      → Later run run'
      → Settled w run' urn
      → Rounded w urn run run'
  skipped_it : run'.examined ≡ run.examined → Later run run' → Rounded w urn run run'

all_unverifiable :
    (evidence : List Evidence)
    → is_empty_list (found_in evidence) ≡ true
    → All (λ ev. ends_with "_unverifiable" ev.kind ≡ true) evidence
unfolding is_unverifiable is_empty_list
all_unverifiable [] h = tt
all_unverifiable (ev ∷ evidence) h = elim (Bool-cases (ends_with "_unverifiable" ev.kind)) [
  | inl e ↦ (e, all_unverifiable evidence (ground (arith, e, h)))
  | inr e ↦ let q : true ≡ false = ground (arith, e, h) in cc
]

some_evidence : (evidence : List Evidence) → establishes_nothing evidence ≡ true → evidence ≢ []
unfolding establishes_nothing is_empty_list
some_evidence [] h = let q : true ≡ false = ground (arith, h) in cc
some_evidence (ev ∷ evidence) h = λ e. cc

built_writable :
    (urn : String) (v : Verdict) (at verifier url swarm id : String) (r : Receipt)
    → build_receipt urn v at verifier url swarm id ≡ some r
    → writable urn ≡ true
unfolding build_receipt
built_writable urn v at verifier url swarm id r h = ground (arith, h)

written_last : (urn : String) (us : List String) → member urn (us ++ urn ∷ []) ≡ true
unfolding member
written_last urn us = ground (arith, any-append (str_eq urn) us (urn ∷ []), str_eq_refl urn)

-- The write of a verdict settles the asset, if it does not raise.
abbrev Ended : SwarmWorker → String → WorkerRun → Option WorkerRun → Type 0
Ended w urn run none = Unit
Ended w urn run (some run') = (run'.examined ≡ run.examined) × Later run run' × Settled w run' urn

write_verdict-Settled :
    (w : SwarmWorker) (around : Surroundings) (n : ℕ) (urn : String) (evidence : List Evidence)
    (run : WorkerRun)
    → Ended w urn run (write_verdict w around n urn evidence run)
unfolding write_verdict failed_at
write_verdict-Settled w around n urn evidence run =
    elim (Option-cases (decide around.format w.policy evidence [] w.commit_sha)) [
      | inl e ↦ rw (write_verdict, e) tt
      | inr (verdict, e) ↦
          elim (Option-cases
            (build_receipt urn verdict (around.clock n) w.verifier "" w.swarm w.id)) [
              | inl f ↦ rw (write_verdict, e, f) tt
              | inr (receipt, f) ↦
                  let dataset =
                    built_writable urn verdict (around.clock n) w.verifier "" w.swarm w.id receipt
                      f in
                  elim (Option-cases (around.write n receipt)) [
                    | inl g ↦
                        rw (write_verdict, e, f, g)
                          (
                            refl,
                            record {
                              still_written =
                                  λ u m. ground (arith, m, member-append u run.written (urn ∷ []));
                              still_failed = λ u m. m;
                            },
                            written dataset (written_last urn run.written),
                          )
                    | inr (error, g) ↦
                        let test = λ (u : String) (p : String × String). str_eq u p.0 in
                        let last : List (String × String) = (urn, error) ∷ [] in
                        rw (write_verdict, e, f, g)
                          (
                            refl,
                            record {
                              still_written = λ u m. m;
                              still_failed = λ u m.
                                  ground (arith, m, any-append (test u) run.write_failures last);
                            },
                            write_failed dataset (
                                ground (
                                  arith,
                                  any-append (test urn) run.write_failures last,
                                  str_eq_refl urn,
                                )),
                          )
                  ]
            ]
    ]

abbrev Settles : SwarmWorker → String → WorkerRun → Option WorkerRun → Type 0
Settles w urn run none = Unit
Settles w urn run (some run') = Rounded w urn run run'

Ended-Rounded :
    (w : SwarmWorker) (around : Surroundings) (urn : String) (evidence : List Evidence)
    (run : WorkerRun) (result : Option WorkerRun)
    → Ended w urn (record_examination around urn evidence run) result
    → Settles w urn run result
unfolding record_examination failed_at
Ended-Rounded w around urn evidence run none h = tt
Ended-Rounded w around urn evidence run (some run') (x, l, s) =
    examined_it x (record { still_written = l.still_written; still_failed = l.still_failed }) s

work-Settles :
    (w : SwarmWorker) (around : Surroundings) (n : ℕ) (target : Target) (run : WorkerRun)
    → Settles w target.urn run (work w around n target run)
unfolding work record_examination failed_at establishes_nothing
work-Settles w around n target run = elim (Option-cases (examine w.auditor target.urn)) [
  | inl e ↦ rw (work, e) tt
  | inr (evidence, e) ↦
      let run₁ = record_examination around target.urn evidence run in
      elim (Bool-cases (establishes_nothing evidence)) [
        | inl f ↦
            rw (work, e, f)
              (examined_it refl (record { still_written = λ u m. m; still_failed = λ u m. m })
                (nothing evidence e (some_evidence evidence f)
                  (all_unverifiable evidence (ground (arith, f)))))
        | inr f ↦
            rw (work, e, f)
              (Ended-Rounded w around target.urn evidence run _
                (write_verdict-Settled w around n target.urn evidence run₁))
      ]
]

attend-Settles :
    (w : SwarmWorker) (around : Surroundings) (n : ℕ) (target : Target) (run : WorkerRun)
    → Settles w target.urn run (attend w around n target run)
unfolding attend skip failed_at
attend-Settles w around n target run = elim (Option-cases (around.read n target.urn)) [
  | inl e ↦ rw (attend, e) (work-Settles w around n target run)
  | inr (status, e) ↦ elim (Bool-cases (judge around.show (obj status)).covers) [
    | inr f ↦ rw (attend, e, f) (work-Settles w around n target run)
    | inl f ↦
        rw (attend, e, f)
          (skipped_it (ground arith) (record {
            still_written = λ u m. ground (arith, m);
            still_failed = λ u m. ground (arith, m);
          }))
  ]
]

next_Settled :
    (w : SwarmWorker) (urn : String) (run run' : WorkerRun)
    → Rounded w urn run run'
    → All (Settled w run) run.examined
    → All (Settled w run') run'.examined
next_Settled w urn run run' (examined_it x l s) h = subst (All (Settled w run')) (sym x) (
    All-append (Settled w run') run.examined (urn ∷ [])
      (All-map (Settled w run) (Settled w run') run.examined (later_Settled w run run' l) h)
      (s, tt))
next_Settled w urn run run' (skipped_it x l) h =
    subst (All (Settled w run')) (sym x)
      (All-map (Settled w run) (Settled w run') run.examined (later_Settled w run run' l) h)

abbrev AllSettled : SwarmWorker → Option WorkerRun → Type 0
AllSettled w none = Unit
AllSettled w (some run) = All (Settled w run) run.examined

attend_all-Settled :
    (w : SwarmWorker) (around : Surroundings) (n : ℕ) (targets : List Target) (run r : WorkerRun)
    → All (Settled w run) run.examined
    → attend_all w around n targets run ≡ some r
    → All (Settled w r) r.examined
unfolding attend_all
attend_all-Settled w around n [] run r s h =
    let same : some run ≡ some r = h in subst (λ (o : Option WorkerRun). AllSettled w o) same s
attend_all-Settled w around n (target ∷ targets) run r s h =
    elim (Bool-cases (leb w.auditor.budget (length run.examined))) [
      | inl b ↦
          let same : some run ≡ some r = rw (attend_all, b) at h in
          subst (λ (o : Option WorkerRun). AllSettled w o) same s
      | inr b ↦ elim (Option-cases (attend w around n target run)) [
        | inl e ↦ let q : true ≡ false = ground (arith, b, e, h) in cc
        | inr (next, e) ↦
            attend_all-Settled w around (suc n) targets next r
              (next_Settled w target.urn run next (rw e at (attend-Settles w around n target run))
                s)
              (rw (attend_all, b, e) at h)
      ]
    ]

-- If a shift ends without an exception, nothing that it examined is lost: of each asset, either the
-- examination gave evidence and none of it could be verified, or the asset is a dataset and the account has its receipt as
-- written or its write as failed.
pub shift-AllSettled :
    (casefold : String → String) (digest : String → String → String) (w : SwarmWorker)
    (around : Surroundings) (r : WorkerRun)
    → shift casefold digest w around ≡ some r
    → All (Settled w r) r.examined
unfolding shift
shift-AllSettled casefold digest w around r h =
    attend_all-Settled w around 0
      (order_for_worker digest w.id (plan around.show casefold w.auditor)) (new_run w) r tt h
