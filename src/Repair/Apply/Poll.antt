-- ===== src/Repair/Apply/Poll.antt =====
-- The live check of the writes (src/sidq/repair/apply.py, `verify_repairs`). `monotonic`, `sleep`
-- and `read_snapshot` act on the state of the world. Times are whole milliseconds; a negative
-- timeout counts as 0 in the code.
pub mod Returns
pub mod Honest
use Prim.Native.String as Text
use sidq.Prelude.{
  ℕ, zero, suc, ◌+◌, ◌-◌, ◌*◌, min, leb, String, Bool, true, false, not, ◌&&◌, Option, none, some,
  List, [], ◌∷◌, keep, map, if◌then◌else◌,
}
use sidq.Prelude.Pairs.{Pair, has_pair}
use sidq.Catalog.Checks.Columns.{is_empty_list}
use sidq.Catalog.Snapshot.{CatalogSnapshot}
use sidq.Repair.Proposals.{Proposal}
use sidq.Repair.Prove.{Gate, target_key}
use sidq.Repair.Prove.Applied.{AppliedRepairProof, verify_applied, detail}
use sidq.Repair.Apply.{ApplyOutcome, PostWriteFinding}

-- A read of the catalog, or the name of its error.
pub data Answer : Type 0 where
  current : CatalogSnapshot → Answer
  failed : String → Answer

abbrev pub World : Type 0 → Type 0
World W = (W → ℕ × W) × (ℕ → W → W) × (List Proposal → ℕ → W → Answer × W)

post_write : Pair → PostWriteFinding
post_write k = record { kind = k.0; subject = k.1; detail = "" }

-- `set(proof.resolved) if not proof.collateral else set()`
unfoldable pub resolved_keys : AppliedRepairProof → List Pair
resolved_keys proof = if is_empty_list proof.collateral then proof.resolved else []

-- What a proof says of one outcome.
unfoldable pub recheck : AppliedRepairProof → ApplyOutcome → ApplyOutcome
unfolding post_write resolved_keys
recheck proof o =
    if o.applied
    then record o {
      verified = has_pair (target_key o.proposal) (resolved_keys proof);
      detail = detail proof;
      unresolved = map post_write proof.unresolved;
      collateral = map post_write proof.collateral;
    }
    else o

-- An outcome when the time is over.
unfoldable pub expire : String → ApplyOutcome → ApplyOutcome
expire last_detail o = if o.applied && not o.verified then record o { detail = last_detail } else o

pub record Round : Type 0 where
  pub proven : Bool
  pub checked : List ApplyOutcome
  pub last_detail : String

-- The `try` of one round: a failed read keeps what was checked before.
unfoldable pub judge_read :
    Gate → CatalogSnapshot → List ApplyOutcome → List Proposal → List ApplyOutcome → Answer → Round
unfolding recheck
judge_read gate before outcomes proposals checked (failed error) = record {
  proven = false;
  checked = checked;
  last_detail = Text.◌++◌ "direct live read failed: " error;
}
judge_read gate before outcomes proposals checked (current snapshot) =
    let proof = verify_applied gate before snapshot proposals in
    record {
      proven = proof.verified;
      checked = map (recheck proof) outcomes;
      last_detail = detail proof;
    }

module _ {W : Type 0} (world : World W) (gate : Gate) (before : CatalogSnapshot)
    (outcomes : List ApplyOutcome) where
  -- `proposals`
  abbrev pub acknowledged : List Proposal
  acknowledged =
      map (λ (o : ApplyOutcome). o.proposal) (keep (λ (o : ApplyOutcome). o.applied) outcomes)

  -- The `while` loop, on fuel; none is a loop that is still running.
  unfoldable pub poll : ℕ → ℕ → ℕ → List ApplyOutcome → W → Option (List ApplyOutcome × W)
  unfolding judge_read expire
  poll zero deadline delay checked w = none
  poll (suc fuel) deadline delay checked w =
      let started = world.0 w in
      let answer = world.2 acknowledged (deadline - started.0) started.1 in
      let round = judge_read gate before outcomes acknowledged checked answer.0 in
      let stopped = world.0 answer.1 in
      let rest =
        poll fuel deadline (min (delay * 2) 1000) round.checked
          (world.1 (min delay (deadline - stopped.0)) stopped.1) in
      if round.proven
      then some (round.checked, answer.1)
      else if leb deadline stopped.0
      then some (map (expire round.last_detail) round.checked, stopped.1)
      else rest

  unfoldable pub verify_repairs : ℕ → ℕ → W → Option (List ApplyOutcome × W)
  unfolding poll
  verify_repairs fuel timeout w =
      let started = world.0 w in
      let polled = poll fuel (started.0 + timeout) 50 outcomes started.1 in
      if is_empty_list acknowledged then some (outcomes, w) else polled
