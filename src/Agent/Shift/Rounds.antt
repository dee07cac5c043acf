-- ===== src/Agent/Shift/Rounds.antt =====
-- What one round of a shift does to the worker's account.
use sidq.Prelude.{
  ℕ, suc, ◌+◌, ◌≤◌, String, Option, none, some, List, [], ◌∷◌, map, length, length-append,
  Bool-cases, Option-cases, ◌≡◌, refl, sym, ap, subst, ◌∙◌, inl, inr, arith,
}
use sidq.Prelude.Sets.{count, count-append}
use sidq.Value.{Fields, obj}
use sidq.Models.{Evidence}
use sidq.Policy.Engine.{decide}
use sidq.Receipt.State.{Show, judge}
use sidq.Receipt.Build.{build_receipt}
use sidq.Agent.Auditor.{Target, examine}
use sidq.Agent.Run.Rounds.{count_snoc}
use sidq.Agent.Shift.{
  WorkerRun, Surroundings, SwarmWorker, peer_of, skip, write_verdict, establishes_nothing,
  record_examination, work, attend,
}

-- How often an asset is booked as examined or as skipped.
unfoldable pub turns : String → WorkerRun → ℕ
turns u run =
    count u run.examined
    + count u (map (λ (p : String × String). p.0) run.vouched_by_peer)
    + count u run.vouched_unattributed
    + count u run.refused_urns

-- How often a receipt for it was tried to write.
unfoldable pub attempts : String → WorkerRun → ℕ
attempts u run =
    count u run.written + count u (map (λ (p : String × String). p.0) run.write_failures)

-- A round for the target books it once, and tries to write only what it examined.
pub record Round (target : Target) (run run' : WorkerRun) : Type 0 where
  pub one_turn : (u : String) → turns u run' ≡ turns u run + count u (target.urn ∷ [])
  pub backed :
      (u : String) → attempts u run ≤ count u run.examined → attempts u run' ≤ count u run'.examined
  pub one_examined : length run'.examined ≤ suc (length run.examined)

abbrev pub Ends : Target → WorkerRun → Option WorkerRun → Type 0
Ends target run none = Unit
Ends target run (some run') = Round target run run'

skip-Round :
    (w : SwarmWorker) (show : Show) (target : Target) (status : Fields) (run : WorkerRun)
    → Round target run (skip w show target status run)
unfolding skip turns attempts
skip-Round w show target status run = record {
  one_turn = λ u. ground (
    arith,
    count-append u run.refused_urns (target.urn ∷ []),
    count-append u run.vouched_unattributed (target.urn ∷ []),
    count_snoc u (λ (p : String × String). p.0) run.vouched_by_peer
        (target.urn, peer_of show status),
  );
  backed = λ u h. ground (arith, h);
  one_examined = ground arith;
}

-- The step from the examination to what is written of it.
abbrev Written : String → WorkerRun → Option WorkerRun → Type 0
Written urn run none = Unit
Written urn run (some run') =
    ((u : String) → turns u run' ≡ turns u run)
    × ((u : String) → attempts u run' ≤ attempts u run + count u (urn ∷ []))
    × (run'.examined ≡ run.examined)

write_verdict-Written :
    (w : SwarmWorker) (around : Surroundings) (n : ℕ) (urn : String) (evidence : List Evidence)
    (run : WorkerRun)
    → Written urn run (write_verdict w around n urn evidence run)
unfolding write_verdict turns attempts
write_verdict-Written w around n urn evidence run =
    elim (Option-cases (decide around.format w.policy evidence [] w.commit_sha)) [
      | inl e ↦ rw (write_verdict, e) tt
      | inr (verdict, e) ↦
          elim (Option-cases
            (build_receipt urn verdict (around.clock n) w.verifier "" w.swarm w.id)) [
              | inl f ↦ rw (write_verdict, e, f) tt
              | inr (receipt, f) ↦ elim (Option-cases (around.write n receipt)) [
                | inl g ↦
                    rw (write_verdict, e, f, g)
                      (λ u. refl, λ u. omega (arith, count-append u run.written (urn ∷ [])), refl)
                | inr (error, g) ↦
                    rw (write_verdict, e, f, g)
                      (
                        λ u. refl,
                        λ u. omega (
                          arith,
                          count_snoc u (λ (p : String × String). p.0) run.write_failures
                              (urn, error),
                        ),
                        refl,
                      )
              ]
            ]
    ]

examined-Round :
    (around : Surroundings) (target : Target) (evidence : List Evidence) (run : WorkerRun)
    → Round target run (record_examination around target.urn evidence run)
unfolding record_examination turns attempts
examined-Round around target evidence run = record {
  one_turn = λ u. omega (arith, count-append u run.examined (target.urn ∷ []));
  backed = λ u h. omega (arith, h, count-append u run.examined (target.urn ∷ []));
  one_examined = omega (arith, length-append run.examined (target.urn ∷ []));
}

Written-Round :
    (around : Surroundings) (target : Target) (evidence : List Evidence) (run run₂ : WorkerRun)
    → Written target.urn (record_examination around target.urn evidence run) (some run₂)
    → Round target run run₂
unfolding record_examination attempts
Written-Round around target evidence run run₂ h =
    let before = examined-Round around target evidence run in
    record {
      one_turn = λ u. h.0 u ∙ before.one_turn u;
      backed = λ u k.
          omega (arith, h.1 u, k, ap (count u) h.2, count-append u run.examined (target.urn ∷ []));
      one_examined =
          subst (λ xs. length xs ≤ suc (length run.examined)) (sym h.2) before.one_examined;
    }

work-Ends :
    (w : SwarmWorker) (around : Surroundings) (n : ℕ) (target : Target) (run : WorkerRun)
    → Ends target run (work w around n target run)
unfolding work
work-Ends w around n target run = elim (Option-cases (examine w.auditor target.urn)) [
  | inl e ↦ rw (work, e) tt
  | inr (evidence, e) ↦
      let run₁ = record_examination around target.urn evidence run in
      elim (Bool-cases (establishes_nothing evidence)) [
        | inl f ↦ rw (work, e, f) (examined-Round around target evidence run)
        | inr f ↦ elim (Option-cases (write_verdict w around n target.urn evidence run₁)) [
          | inl g ↦ rw (work, e, f, g) tt
          | inr (run₂, g) ↦
              rw (work, e, f, g)
                (Written-Round around target evidence run run₂
                  (rw g at (write_verdict-Written w around n target.urn evidence run₁)))
        ]
      ]
]

pub attend-Ends :
    (w : SwarmWorker) (around : Surroundings) (n : ℕ) (target : Target) (run : WorkerRun)
    → Ends target run (attend w around n target run)
unfolding attend
attend-Ends w around n target run = elim (Option-cases (around.read n target.urn)) [
  | inl e ↦ rw (attend, e) (work-Ends w around n target run)
  | inr (status, e) ↦ elim (Bool-cases (judge around.show (obj status)).covers) [
    | inl f ↦ rw (attend, e, f) (skip-Round w around.show target status run)
    | inr f ↦ rw (attend, e, f) (work-Ends w around n target run)
  ]
]
