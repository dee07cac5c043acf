-- ===== src/Repair/Apply/Poll/Returns.antt =====
-- `verify_repairs` returns, on a clock that runs.
use sidq.Prelude.{
  ℕ, zero, suc, ◌+◌, ◌-◌, ◌*◌, ◌≤◌, min, leb, Bool, true, false, Option, some, List, if◌then◌else◌,
  Bool-cases, arith, ◌≡◌, refl, inl, inr,
}
use sidq.Catalog.Checks.Columns.{is_empty_list}
use sidq.Catalog.Snapshot.{CatalogSnapshot}
use sidq.Repair.Proposals.{Proposal}
use sidq.Repair.Prove.{Gate}
use sidq.Repair.Apply.{ApplyOutcome}
use sidq.Repair.Apply.Poll.{World, judge_read, acknowledged, poll, verify_repairs}

-- `time.monotonic` reads a clock that never goes back, and `time.sleep` waits at least as long as
-- it is told; `time` is what the clock would show.
pub record Runs {W : Type 0} (world : World W) (time : W → ℕ) : Type 0 where
  pub shows : (w : W) → time w ≤ (world.0 w).0
  pub shown : (w : W) → (world.0 w).0 ≤ time (world.0 w).1
  pub sleeps : (d : ℕ) (w : W) → time w + d ≤ time (world.1 d w)
  pub reads : (ps : List Proposal) (d : ℕ) (w : W) → time w ≤ time (world.2 ps d w).1

unfoldable pub Returned {ℓ} : {A : Type ℓ} → Option A → Type ℓ
Returned {A = A} r = (a : A) × (r ≡ some a)

branches_Returned {ℓ} :
    {A : Type ℓ} (b c : Bool) (x y : A) (r : Option A)
    → (c ≡ false → Returned r)
    → Returned (if b then some x else if c then some y else r)
unfolding Returned
branches_Returned true c x y r h = (x, refl)
branches_Returned false true x y r h = (y, refl)
branches_Returned false false x y r h = h refl

module _ {W : Type 0} (world : World W) (time : W → ℕ) (clock : Runs world time) (gate : Gate)
    (before : CatalogSnapshot) (outcomes : List ApplyOutcome) where
  -- The clock after a round, before the wait.
  round_time :
      (d : ℕ) (w : W)
      → let answer = world.2 (acknowledged world gate before outcomes) d (world.0 w).1 in
        time w ≤ (world.0 answer.1).0
  round_time d w =
      let ps = acknowledged world gate before outcomes in
      let answer = world.2 ps d (world.0 w).1 in
      omega
        (arith, clock.shows w, clock.shown w, clock.reads ps d (world.0 w).1, clock.shows answer.1)

  poll-Returned :
      (fuel deadline delay : ℕ) (checked : List ApplyOutcome) (w : W)
      → 1 ≤ delay
      → deadline ≤ time w + fuel
      → Returned (poll world gate before outcomes (suc fuel) deadline delay checked w)
  unfolding poll
  poll-Returned zero deadline delay checked w hd hf =
      let d = deadline - (world.0 w).0 in
      let answer = world.2 (acknowledged world gate before outcomes) d (world.0 w).1 in
      branches_Returned _ (leb deadline (world.0 answer.1).0) _ _ _
        (λ h. let q : true ≡ false = ground (arith, h, round_time d w, hf) in cc)
  poll-Returned (suc fuel) deadline delay checked w hd hf =
      let d = deadline - (world.0 w).0 in
      let answer = world.2 (acknowledged world gate before outcomes) d (world.0 w).1 in
      let stopped = world.0 answer.1 in
      let wait = min delay (deadline - stopped.0) in
      branches_Returned _ (leb deadline stopped.0) _ _ _ (λ h.
        poll-Returned fuel deadline (min (delay * 2) 1000)
          (judge_read gate before outcomes (acknowledged world gate before outcomes) checked
            answer.0).checked
          (world.1 wait stopped.1) (ground (arith, hd))
          (ground
            (arith, h, hf, hd, round_time d w, clock.shown answer.1, clock.sleeps wait stopped.1)))

-- On a clock that never goes back and waits as told, `verify_repairs` returns after one round for
-- each millisecond of its timeout and one more, whatever the catalog answers.
pub verify_repairs-Returned :
    {W : Type 0} (world : World W) (time : W → ℕ) (gate : Gate) (before : CatalogSnapshot)
    (outcomes : List ApplyOutcome) (timeout : ℕ) (w : W)
    → Runs world time
    → Returned (verify_repairs world gate before outcomes (suc timeout) timeout w)
unfolding verify_repairs Returned
verify_repairs-Returned world time gate before outcomes timeout w clock =
    elim (Bool-cases (is_empty_list (acknowledged world gate before outcomes))) [
      | inl e ↦ rw (e, verify_repairs) ((outcomes, w), refl)
      | inr e ↦
          rw (e, verify_repairs)
            (poll-Returned world time clock gate before outcomes timeout ((world.0 w).0 + timeout)
              50 outcomes (world.0 w).1 (omega arith) (omega (arith, clock.shown w)))
    ]
