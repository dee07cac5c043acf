-- ===== src/Repair/Apply/Poll/Honest.antt =====
-- `verify_repairs` closes a finding only on a live read that shows it gone.
use sidq.Prelude.{
  ℕ, zero, suc, ◌+◌, ◌-◌, ◌*◌, min, leb, String, Bool, true, false, Option, some, List, [], ◌∷◌,
  map, All, All-pure, map-All, All-map, if◌then◌else◌, Bool-cases, arith, ◌≡◌, refl, inl, inr, ap,
  sym, subst, ◌∙◌,
}
use sidq.Prelude.Pairs.{Pair, has_pair}
use sidq.Catalog.Checks.Columns.{is_empty_list}
use sidq.Catalog.Snapshot.{CatalogSnapshot}
use sidq.Repair.Proposals.{Proposal}
use sidq.Repair.Prove.{Gate, target_key, findings}
use sidq.Repair.Prove.Applied.{
  AppliedRepairProof, verify_applied, NoCollateral, has_pair-resolved, collateral_none,
}
use sidq.Repair.Apply.{ApplyOutcome, closed}
use sidq.Repair.Apply.Poll.{
  World, Answer, resolved_keys, recheck, expire, judge_read, acknowledged, poll, verify_repairs,
}

-- A proposal and the answer of its write.
abbrev pub write_of : ApplyOutcome → Proposal × Bool
write_of o = (o.proposal, o.applied)

no_pair : (k : Pair) → has_pair k [] ≡ false
unfolding has_pair
no_pair k = refl

recheck_closes :
    (proof : AppliedRepairProof) (o : ApplyOutcome)
    → closed (recheck proof o) ≡ true
    → has_pair (target_key o.proposal) (resolved_keys proof) ≡ true
unfolding recheck closed
recheck_closes proof o h = elim (Bool-cases o.applied) [
  | inl e ↦ ground (arith, e, h)
  | inr e ↦ let q : false ≡ true = ground (arith, e, h) in cc
]

recheck_write :
    (proof : AppliedRepairProof) (o : ApplyOutcome) → write_of (recheck proof o) ≡ write_of o
unfolding recheck
recheck_write proof o = ground arith

expire_write : (text : String) (o : ApplyOutcome) → write_of (expire text o) ≡ write_of o
unfolding expire
expire_write text o = ground arith

expire_keeps : (text : String) (o : ApplyOutcome) → closed (expire text o) ≡ closed o
unfolding expire closed
expire_keeps text o = ground arith

map_writes :
    (f : ApplyOutcome → ApplyOutcome) (os : List ApplyOutcome)
    → ((o : ApplyOutcome) → write_of (f o) ≡ write_of o)
    → map write_of (map f os) ≡ map write_of os
map_writes f [] h = refl
map_writes f (o ∷ os) h = λ i. h o i ∷ map_writes f os h i

module _ {W : Type 0} (world : World W) (gate : Gate) (before : CatalogSnapshot) where
  -- A closed outcome has a live read of the catalog without its finding, where no finding is new
  -- and everything could be checked.
  unfoldable pub IsConfirmed : ApplyOutcome → Type 0
  IsConfirmed o =
      closed o ≡ true
      → (ps : List Proposal) × (d : ℕ) × (w : W) × (snapshot : CatalogSnapshot) × ((world.2 ps d
            w).0
          ≡ Answer.current snapshot)
        × (has_pair (target_key o.proposal) (findings gate snapshot) ≡ false)
        × NoCollateral gate before snapshot

  -- The same proposal with the same answer of its write.
  unfoldable pub SameWrites : List ApplyOutcome → List ApplyOutcome → Type 0
  SameWrites os qs = map write_of os ≡ map write_of qs

  Good : List ApplyOutcome → List ApplyOutcome → Type 0
  unfolding IsConfirmed SameWrites
  Good outcomes checked = All IsConfirmed checked × SameWrites outcomes checked

  -- A proof that resolves a finding is a read without it.
  resolved_gone :
      (snapshot : CatalogSnapshot) (ps : List Proposal) (k : Pair)
      → has_pair k (resolved_keys (verify_applied gate before snapshot ps)) ≡ true
      → (has_pair k (findings gate snapshot) ≡ false) × NoCollateral gate before snapshot
  unfolding resolved_keys
  resolved_gone snapshot ps k h =
      let proof = verify_applied gate before snapshot ps in
      elim (Bool-cases (is_empty_list proof.collateral)) [
        | inl e ↦ (
          ground (arith, e, h, has_pair-resolved gate before snapshot ps k),
          (collateral_none gate before snapshot ps).0 e,
        )
        | inr e ↦ let q : false ≡ true = ground (arith, e, h, no_pair k) in cc
      ]

  recheck-IsConfirmed :
      (snapshot : CatalogSnapshot) (ps qs : List Proposal) (d : ℕ) (w : W) (o : ApplyOutcome)
      → (world.2 qs d w).0 ≡ Answer.current snapshot
      → IsConfirmed (recheck (verify_applied gate before snapshot ps) o)
  unfolding IsConfirmed
  recheck-IsConfirmed snapshot ps qs d w o a h =
      let proof = verify_applied gate before snapshot ps in
      let gone = resolved_gone snapshot ps (target_key o.proposal) (recheck_closes proof o h) in
      let same : (recheck proof o).proposal ≡ o.proposal =
        ap (λ (p : Proposal × Bool). p.0) (recheck_write proof o) in
      (
        qs,
        d,
        w,
        snapshot,
        a,
        subst (λ p. has_pair (target_key p) (findings gate snapshot) ≡ false) (sym same) gone.0,
        gone.1,
      )

  expire-IsConfirmed :
      (text : String) (o : ApplyOutcome) → IsConfirmed o → IsConfirmed (expire text o)
  unfolding IsConfirmed
  expire-IsConfirmed text o c h =
      let found = c (sym (expire_keeps text o) ∙ h) in
      let same : (expire text o).proposal ≡ o.proposal =
        ap (λ (p : Proposal × Bool). p.0) (expire_write text o) in
      (
        found.0,
        found.1,
        found.2,
        found.3,
        found.4,
        subst (λ p. has_pair (target_key p) (findings gate found.3) ≡ false) (sym same) found.5,
        found.6,
      )

  judge_read-Good :
      (outcomes checked : List ApplyOutcome) (ps qs : List Proposal) (d : ℕ) (w : W)
      (answer : Answer)
      → (world.2 qs d w).0 ≡ answer
      → Good outcomes checked
      → Good outcomes (judge_read gate before outcomes ps checked answer).checked
  unfolding judge_read Good
  judge_read-Good outcomes checked ps qs d w (Answer.failed error) a g = g
  judge_read-Good outcomes checked ps qs d w (Answer.current snapshot) a g =
      let proof = verify_applied gate before snapshot ps in
      (
        map-All IsConfirmed (recheck proof) outcomes (
            All-pure (λ o. IsConfirmed (recheck proof o)) outcomes
              (λ o. recheck-IsConfirmed snapshot ps qs d w o a)),
        unfold SameWrites in sym (map_writes (recheck proof) outcomes (recheck_write proof)),
      )

  expire-Good :
      (text : String) (outcomes checked : List ApplyOutcome)
      → Good outcomes checked
      → Good outcomes (map (expire text) checked)
  unfolding Good
  expire-Good text outcomes checked g = (
    map-All IsConfirmed (expire text) checked (
        All-map IsConfirmed (λ o. IsConfirmed (expire text o)) checked
          (λ o. expire-IsConfirmed text o) g.0),
    unfold SameWrites in g.1 ∙ sym (map_writes (expire text) checked (expire_write text)),
  )

  AllGood : List ApplyOutcome → Option (List ApplyOutcome × W) → Type 0
  unfolding Good
  AllGood outcomes r = (os : List ApplyOutcome) (v : W) → r ≡ some (os, v) → Good outcomes os

  branches-AllGood :
      (outcomes os qs : List ApplyOutcome) (b c : Bool) (v w : W)
      (r : Option (List ApplyOutcome × W))
      → Good outcomes os
      → Good outcomes qs
      → AllGood outcomes r
      → AllGood outcomes (if b then some (os, v) else if c then some (qs, w) else r)
  unfolding AllGood
  branches-AllGood outcomes os qs true c v w r g k h ps u e =
      let q : os ≡ ps = cc in subst (Good outcomes) q g
  branches-AllGood outcomes os qs false true v w r g k h ps u e =
      let q : qs ≡ ps = cc in subst (Good outcomes) q k
  branches-AllGood outcomes os qs false false v w r g k h ps u e = h ps u e

  branch-AllGood :
      (outcomes os : List ApplyOutcome) (b : Bool) (v : W) (r : Option (List ApplyOutcome × W))
      → Good outcomes os
      → AllGood outcomes r
      → AllGood outcomes (if b then some (os, v) else r)
  unfolding AllGood
  branch-AllGood outcomes os true v r g h ps u e = let q : os ≡ ps = cc in subst (Good outcomes) q g
  branch-AllGood outcomes os false v r g h ps u e = h ps u e

  poll-AllGood :
      (outcomes : List ApplyOutcome) (fuel deadline delay : ℕ) (checked : List ApplyOutcome) (w : W)
      → Good outcomes checked
      → AllGood outcomes (poll world gate before outcomes fuel deadline delay checked w)
  unfolding poll
  poll-AllGood outcomes zero deadline delay checked w g = unfold AllGood in λ os v e. cc
  poll-AllGood outcomes (suc fuel) deadline delay checked w g =
      let ps = acknowledged world gate before outcomes in
      let d = deadline - (world.0 w).0 in
      let answer = world.2 ps d (world.0 w).1 in
      let round = judge_read gate before outcomes ps checked answer.0 in
      let stopped = world.0 answer.1 in
      let good : Good outcomes round.checked =
        judge_read-Good outcomes checked ps ps d (world.0 w).1 answer.0 refl g in
      branches-AllGood outcomes round.checked (map (expire round.last_detail) round.checked)
        round.proven (leb deadline stopped.0) answer.1 stopped.1 _ good
        (expire-Good round.last_detail outcomes round.checked good)
        (poll-AllGood outcomes fuel deadline (min (delay * 2) 1000) round.checked
          (world.1 (min delay (deadline - stopped.0)) stopped.1) good)

  unverified-IsConfirmed : (o : ApplyOutcome) → o.verified ≡ false → IsConfirmed o
  unfolding IsConfirmed closed
  unverified-IsConfirmed o h k = let q : false ≡ true = ground (arith, h, k) in cc

-- However often `verify_repairs` polls, and whatever its reads answer: what it returns has the same
-- proposals with the same answers of their writes, in order, and it closes a finding only if some
-- read of the catalog showed that finding gone, no finding new, and nothing that could not be
-- checked.
pub verify_repairs-IsConfirmed :
    {W : Type 0} (world : World W) (gate : Gate) (before : CatalogSnapshot)
    (outcomes checked : List ApplyOutcome) (fuel timeout : ℕ) (w v : W)
    → All (λ (o : ApplyOutcome). o.verified ≡ false) outcomes
    → verify_repairs world gate before outcomes fuel timeout w ≡ some (checked, v)
    → All (IsConfirmed world gate before) checked × SameWrites world gate before outcomes checked
unfolding verify_repairs Good AllGood
verify_repairs-IsConfirmed world gate before outcomes checked fuel timeout w v h e =
    let start : Good world gate before outcomes outcomes = (
      All-map (λ (o : ApplyOutcome). o.verified ≡ false) (IsConfirmed world gate before) outcomes
          (unverified-IsConfirmed world gate before) h,
      unfold SameWrites in refl,
    ) in
    let polled : AllGood world gate before outcomes
        (verify_repairs world gate before outcomes fuel timeout w) =
      branch-AllGood world gate before outcomes outcomes
        (is_empty_list (acknowledged world gate before outcomes)) w _ start
        (poll-AllGood world gate before outcomes fuel ((world.0 w).0 + timeout) 50 outcomes
          (world.0 w).1 start) in
    polled checked v e
