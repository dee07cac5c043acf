-- ===== src/Repair/Tests/Writes.antt =====
-- The repairs of the small catalog, written and checked.
use sidq.Prelude.{
  ℕ, ◌+◌, String, true, false, Option, none, some, [], ◌∷◌, All, ◌≡◌, refl, ◌==◌, str_eq, arith,
  if◌then◌else◌,
}
use sidq.Prelude.Dict.{Dict, lookup}
use sidq.Prelude.Pairs.{minus, distinct_pairs}
use sidq.Prelude.Sets.{distinct}
use sidq.Prelude.Sort.{sorted}
use sidq.Catalog.Checks.Columns.{is_empty_list}
use sidq.Repair.Proposals.{Argument, Proposal, targets}
use sidq.Repair.Simulate.{simulate, added}
use sidq.Repair.Prove.{writable, prove, findings, unverifiable_keys}
use sidq.Repair.Prove.Sound.{Cleared}
use sidq.Repair.Prove.Applied.{verify_applied, detail}
use sidq.Repair.Apply.{ApplyOutcome, apply_repairs}
use sidq.Repair.Apply.Writes.{Wrote, apply_repairs-Wrote}
use sidq.Repair.Apply.Poll.{World, current, verify_repairs}
use sidq.Repair.Apply.Poll.Returns.{Runs, Returned, verify_repairs-Returned}
use sidq.Repair.Apply.Poll.Honest.{IsConfirmed, SameWrites, verify_repairs-IsConfirmed}
use sidq.Repair.Tests.{catalog, owner_repair, tag_repair, decimal, toy_gate, toy_gate_of}

-- A catalog that counts the calls and answers the first with an error.
abbrev caller : String → Dict Argument → ℕ → Option String × ℕ
caller tool arguments n = (if n == 0 then some "TimeoutError" else none, n + 1)

abbrev HasSubject : Proposal → Type 0
HasSubject p = str_eq p.subject "" ≡ false

apply_repairs-Wrote_example :
    let plan = prove decimal toy_gate catalog (owner_repair ∷ tag_repair ∷ []) in
    Wrote caller (writable plan) false 0 (apply_repairs caller plan false 0)
    × All HasSubject (writable plan)
    × Cleared toy_gate catalog (writable plan)
apply_repairs-Wrote_example =
    apply_repairs-Wrote caller decimal toy_gate catalog (owner_repair ∷ tag_repair ∷ []) HasSubject
      false 0 (refl, (refl, tt))

-- The world is its clock. A read takes a millisecond and shows the repaired catalog.
abbrev clockwork : World ℕ
clockwork = (λ n. (n, n), λ d n. n + d, λ ps d n. (current (simulate catalog owner_repair), n + 1))

abbrev id_time : ℕ → ℕ
id_time n = n

clockwork-Runs : Runs clockwork id_time
clockwork-Runs = record {
  shows = λ w. omega arith;
  shown = λ w. omega arith;
  sleeps = λ d w. omega arith;
  reads = λ ps d w. omega arith;
}

abbrev acknowledged : ApplyOutcome
acknowledged = record {
  proposal = owner_repair;
  applied = true;
  detail = "mutation acknowledged; awaiting live read";
  verified = false;
  unresolved = [];
  collateral = [];
}

abbrev confirmed : ApplyOutcome
confirmed = record acknowledged {
  verified = true;
  detail = "live read confirms the required findings are gone with no collateral";
}

verify_repairs-Returned_example :
    Returned (verify_repairs clockwork toy_gate catalog (acknowledged ∷ []) 101 100 5)
verify_repairs-Returned_example =
    verify_repairs-Returned clockwork id_time toy_gate catalog (acknowledged ∷ []) 100 5
      clockwork-Runs

polled :
    verify_repairs clockwork toy_gate catalog (acknowledged ∷ []) 1 100 5 ≡ some (confirmed ∷ [], 6)
unfolding verify_repairs toy_gate_of is_empty_list verify_applied sorted distinct_pairs findings
    simulate targets lookup added distinct minus unverifiable_keys detail
polled = refl

verify_repairs-IsConfirmed_example :
    All (IsConfirmed clockwork toy_gate catalog) (confirmed ∷ [])
    × SameWrites clockwork toy_gate catalog (acknowledged ∷ []) (confirmed ∷ [])
verify_repairs-IsConfirmed_example =
    verify_repairs-IsConfirmed clockwork toy_gate catalog (acknowledged ∷ []) (confirmed ∷ []) 1 100
      5 6 (refl, tt) polled
