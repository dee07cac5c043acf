-- ===== src/Repair/Prove.antt =====
-- The proof of a repair before it is written (src/sidq/repair/prove.py). The gate is a parameter,
-- as in the code: `standard_gate` is its default. `decimal` prints a number.
pub mod Sound
pub mod Applied
use Prim.Native.String as Text
use sidq.Prelude.{
  ℕ, String, str_eq, str_le, ends_with, Bool, true, false, not, ◌&&◌, Option, none, some, List, [],
  ◌∷◌, ◌++◌, any, keep, length, map, if◌then◌else◌,
}
use sidq.Prelude.Pairs.{Pair, has_pair, minus, distinct_pairs, pair_le}
use sidq.Prelude.Sort.{sorted}
use sidq.Models.{Evidence}
use sidq.Catalog.Snapshot.{CatalogSnapshot}
use sidq.Catalog.Gate.{collect}
use sidq.Catalog.Checks.Columns.{is_empty_list}
use sidq.Repair.Proposals.{Proposal}
use sidq.Repair.Simulate.{simulate, simulate_all}

pub record RepairOutcome : Type 0 where
  pub proposal : Proposal
  pub is_proven : Bool
  pub resolved : Bool
  pub collateral : List String
  pub reason : String

pub record RepairPlan : Type 0 where
  pub proven : List RepairOutcome
  pub rejected : List RepairOutcome
  pub jointly_verified : Bool
  pub joint_reason : String

abbrev pub Gate : Type 0
Gate = CatalogSnapshot → List Evidence

-- `SelfContradictionGate().collect((), _Supplied(snapshot))`, which always returns.
unfoldable pub standard_gate : (String → String) → (String → List String) → Gate
standard_gate casefold column_references snapshot =
    elim (collect casefold column_references snapshot) [ none ↦ [] | some found ↦ found ]

-- `plan.writable`
unfoldable pub writable : RepairPlan → List Proposal
writable plan =
    if plan.jointly_verified then map (λ (o : RepairOutcome). o.proposal) plan.proven else []

-- `(proposal.finding_kind, proposal.subject)`
abbrev pub target_key : Proposal → Pair
target_key p = (p.finding_kind, p.subject)

abbrev pub evidence_key : Evidence → Pair
evidence_key item = (item.kind, item.subject)

unfoldable pub findings : Gate → CatalogSnapshot → List Pair
findings gate snapshot = map evidence_key (gate snapshot)

unfoldable pub unverifiable_keys : List Pair → List Pair
unverifiable_keys keys = keep (λ (k : Pair). ends_with "_unverifiable" k.0) keys

-- `f"{kind} on {subject}"`
unfoldable pub spell : Pair → String
spell k = Text.◌++◌ k.0 (Text.◌++◌ " on " k.1)

-- `sorted(f"{kind} on {subject}" for kind, subject in after - baseline)`
unfoldable pub introduced : List Pair → List Pair → List String
unfolding spell
introduced after baseline = sorted str_le (map spell (minus after baseline))

-- `", ".join(texts[:3])`
unfoldable pub first_three : List String → String
first_three [] = ""
first_three (a ∷ []) = a
first_three (a ∷ b ∷ []) = Text.◌++◌ a (Text.◌++◌ ", " b)
first_three (a ∷ b ∷ c ∷ rest) = Text.◌++◌ a (Text.◌++◌ ", " (Text.◌++◌ b (Text.◌++◌ ", " c)))

module _ (decimal : ℕ → String) where
  -- `_prove_together`
  unfoldable pub prove_together : Gate → CatalogSnapshot → List Pair → List Proposal → Bool × String
  unfolding introduced first_three
  prove_together gate snapshot baseline [] = (true, "nothing to apply")
  prove_together gate snapshot baseline (p ∷ ps) =
      let after = findings gate (simulate_all snapshot (p ∷ ps)) in
      let new = introduced after baseline in
      let unresolved = keep (λ q. has_pair (target_key q) after) (p ∷ ps) in
      if not (is_empty_list new)
      then (false, Text.◌++◌ "applied together they introduce: " (first_three new))
      else if not (is_empty_list unresolved)
      then (
        false,
        Text.◌++◌ (decimal (length unresolved)) " finding(s) survive when the set is applied",
      )
      else (true, "the whole set resolves cleanly and introduces nothing")

  -- The body of the loop over the proposals.
  unfoldable pub prove_one : Gate → CatalogSnapshot → List Pair → Proposal → RepairOutcome
  unfolding introduced
  prove_one gate snapshot baseline p =
      let after = findings gate (simulate snapshot p) in
      let collateral = introduced after baseline in
      if has_pair (target_key p) after
      then record {
        proposal = p;
        is_proven = false;
        resolved = false;
        collateral = collateral;
        reason = "the finding survives this change, so it is not a repair";
      }
      else if is_empty_list collateral
      then record {
        proposal = p;
        is_proven = true;
        resolved = true;
        collateral = [];
        reason = "engine confirms the finding is gone";
      }
      else record {
        proposal = p;
        is_proven = false;
        resolved = true;
        collateral = collateral;
        reason =
            Text.◌++◌ "resolves the finding but introduces "
              (Text.◌++◌ (decimal (length collateral)) " new one(s)");
      }

  refuse : String → Proposal → RepairOutcome
  refuse reason p = record {
    proposal = p;
    is_proven = false;
    resolved = false;
    collateral = [];
    reason = reason;
  }

  unfoldable pub incomplete_reason : List Pair → String
  unfolding first_three
  incomplete_reason incomplete =
      Text.◌++◌ "catalog evidence is incomplete: "
        (first_three (map (λ (k : Pair). k.0) (sorted pair_le (distinct_pairs incomplete))))

  -- The plan for a catalog whose evidence is complete.
  unfoldable pub prove_each : Gate → CatalogSnapshot → List Pair → List Proposal → RepairPlan
  unfolding prove_one prove_together
  prove_each gate snapshot baseline proposals =
      let outcomes = map (prove_one gate snapshot baseline) proposals in
      let proven = keep (λ (o : RepairOutcome). o.is_proven) outcomes in
      let joint =
        prove_together gate snapshot baseline (map (λ (o : RepairOutcome). o.proposal) proven) in
      record {
        proven = proven;
        rejected = keep (λ (o : RepairOutcome). not o.is_proven) outcomes;
        jointly_verified = joint.0;
        joint_reason = joint.1;
      }

  unfoldable pub prove : Gate → CatalogSnapshot → List Proposal → RepairPlan
  unfolding refuse incomplete_reason prove_each unverifiable_keys
  prove gate snapshot proposals =
      let baseline = findings gate snapshot in
      let incomplete = unverifiable_keys baseline in
      if is_empty_list incomplete then prove_each gate snapshot baseline proposals else record {
        proven = [];
        rejected = map (refuse (incomplete_reason incomplete)) proposals;
        jointly_verified = false;
        joint_reason = incomplete_reason incomplete;
      }

-- `unfixed`
unfoldable pub unfixed : List Evidence → RepairPlan → List Evidence
unfixed items plan =
    if plan.jointly_verified
    then keep
        (λ item. not (
          has_pair (evidence_key item)
            (map (λ (o : RepairOutcome). target_key o.proposal) plan.proven)))
        items
    else items
