-- ===== src/Agent/Shift/Accounts.antt =====
-- What a worker's account of its shift is worth.
use sidq.Prelude.{
  ℕ, suc, ◌≤◌, leb, String, false, some, List, [], ◌∷◌, ◌++◌, length, append_assoc, Bool-cases,
  Option-cases, ◌≡◌, refl, subst, ◌⊎◌, inl, inr, arith,
}
use sidq.Prelude.Sets.{count}
use sidq.Agent.Auditor.{Target, plan}
use sidq.Agent.Run.Rounds.{count_snoc}
use sidq.Agent.Run.Total.{urns}
use sidq.Agent.Swarm.{order_for_worker}
use sidq.Agent.Shift.{WorkerRun, Surroundings, SwarmWorker, attend, attend_all, new_run, shift}
use sidq.Agent.Shift.Rounds.{turns, attempts, Round, attend-Ends}

-- The account of a shift over an order: a first part of the order was done, each target booked
-- once; what is left was left because the budget was spent; nothing was written unexamined.
pub record IsAccount (budget : ℕ) (order : List Target) (run : WorkerRun) : Type 0 where
  pub done : List Target
  pub left : List Target
  pub in_order : order ≡ done ++ left
  pub booked : (u : String) → turns u run ≡ count u (urns done)
  pub backed_up : (u : String) → attempts u run ≤ count u run.examined
  pub within : length run.examined ≤ budget
  pub stopped : (left ≡ []) ⊎ (budget ≤ length run.examined)

record Before (budget : ℕ) (done : List Target) (run : WorkerRun) : Type 0 where
  pub so_far : (u : String) → turns u run ≡ count u (urns done)
  pub backed_so_far : (u : String) → attempts u run ≤ count u run.examined
  pub within_so_far : length run.examined ≤ budget

account :
    (budget : ℕ) (done left : List Target) (run : WorkerRun)
    → Before budget done run
    → (left ≡ []) ⊎ (budget ≤ length run.examined)
    → IsAccount budget (done ++ left) run
account budget done left run h s = record {
  done = done;
  left = left;
  in_order = refl;
  booked = h.so_far;
  backed_up = h.backed_so_far;
  within = h.within_so_far;
  stopped = s;
}

next-Before :
    (budget : ℕ) (done : List Target) (target : Target) (run run' : WorkerRun)
    → leb budget (length run.examined) ≡ false
    → Before budget done run
    → Round target run run'
    → Before budget (done ++ target ∷ []) run'
next-Before budget done target run run' b h r = record {
  so_far = λ u.
      omega (arith, r.one_turn u, h.so_far u, count_snoc u (λ (t : Target). t.urn) done target);
  backed_so_far = λ u. r.backed u (h.backed_so_far u);
  within_so_far = ground (arith, b, r.one_examined);
}

attend_all-IsAccount :
    (w : SwarmWorker) (around : Surroundings) (n : ℕ) (done targets : List Target)
    (run r : WorkerRun)
    → Before w.auditor.budget done run
    → attend_all w around n targets run ≡ some r
    → IsAccount w.auditor.budget (done ++ targets) r
unfolding attend_all
attend_all-IsAccount w around n done [] run r h e =
    let same : run ≡ r = ground (arith, e) in
    subst (IsAccount w.auditor.budget (done ++ [])) same
      (account w.auditor.budget done [] run h (inl refl))
attend_all-IsAccount w around n done (target ∷ targets) run r h e =
    elim (Bool-cases (leb w.auditor.budget (length run.examined))) [
      | inl b ↦
          let same : run ≡ r = ground (arith, e, b) in
          subst (IsAccount w.auditor.budget (done ++ target ∷ targets)) same
            (account w.auditor.budget done (target ∷ targets) run h (inr (ground (arith, b))))
      | inr b ↦ elim (Option-cases (attend w around n target run)) [
        | inl f ↦ ground (arith, e, b, f)
        | inr (run', f) ↦
            subst (λ ts. IsAccount w.auditor.budget ts r) (append_assoc done (target ∷ []) targets)
              (attend_all-IsAccount w around (suc n) (done ++ target ∷ []) targets run' r
                (next-Before w.auditor.budget done target run run' b h
                  (rw f at (attend-Ends w around n target run)))
                (ground (arith, e, b, f)))
      ]
    ]

-- A worker that ends its shift has done a first part of its order, each target booked once as
-- examined or skipped; it stops early only with its budget spent, and never writes a receipt for
-- what it did not examine in this shift.
pub shift-IsAccount :
    (casefold : String → String) (digest : String → String → String) (w : SwarmWorker)
    (around : Surroundings) (r : WorkerRun)
    → shift casefold digest w around ≡ some r
    → IsAccount w.auditor.budget
        (order_for_worker digest w.id (plan around.show casefold w.auditor))
        r
unfolding shift turns attempts count
shift-IsAccount casefold digest w around r e =
    attend_all-IsAccount w around 0 []
      (order_for_worker digest w.id (plan around.show casefold w.auditor)) (new_run w) r
      (record {
        so_far = λ u. refl;
        backed_so_far = λ u. ground arith;
        within_so_far = ground arith;
      })
      e
