-- ===== src/Repair/Apply.antt =====
-- The writes of the proven repairs (src/sidq/repair/apply.py). `tool_caller` is a parameter that
-- acts on the state of the world; it gives the name of its error, or none.
pub mod Writes
pub mod Refresh
pub mod Poll
use sidq.Prelude.{
  String, str_eq, Bool, true, false, not, ◌&&◌, Option, none, some, List, [], ◌∷◌, map,
  if◌then◌else◌,
}
use sidq.Prelude.Dict.{Dict}
use sidq.Repair.Proposals.{Proposal, Argument}
use sidq.Repair.Prove.{RepairPlan, writable}

pub record PostWriteFinding : Type 0 where
  pub kind : String
  pub subject : String
  pub detail : String

pub record ApplyOutcome : Type 0 where
  pub proposal : Proposal
  pub applied : Bool
  pub detail : String
  pub verified : Bool
  pub unresolved : List PostWriteFinding
  pub collateral : List PostWriteFinding

unfoldable pub closed : ApplyOutcome → Bool
closed o = o.applied && o.verified

unfoldable pub status : ApplyOutcome → String
status o =
    if str_eq o.detail "dry run — nothing written"
    then "dry_run"
    else if not o.applied
    then "write_failed"
    else if o.verified
    then "applied_verified"
    else "applied_unverified"

-- `ApplyOutcome(proposal, applied, detail)`
abbrev pub outcome : Proposal → Bool → String → ApplyOutcome
outcome p applied detail = record {
  proposal = p;
  applied = applied;
  detail = detail;
  verified = false;
  unresolved = [];
  collateral = [];
}

module _ {W : Type 0} (tool_caller : String → Dict Argument → W → Option String × W) where
  -- The outcome of one call.
  unfoldable pub answered : Proposal → Option String → ApplyOutcome
  answered p none = outcome p true "mutation acknowledged; awaiting live read"
  answered p (some error) = outcome p false error

  -- The loop over the proposals without `dry_run`.
  unfoldable pub call_each : List Proposal → W → List ApplyOutcome × W
  unfolding answered
  call_each [] w = ([], w)
  call_each (p ∷ ps) w =
      let called = tool_caller p.tool p.arguments w in
      let rest = call_each ps called.1 in (answered p called.0 ∷ rest.0, rest.1)

  unfoldable pub apply_repairs : RepairPlan → Bool → W → List ApplyOutcome × W
  unfolding call_each
  apply_repairs plan dry_run w =
      if dry_run
      then (map (λ p. outcome p false "dry run — nothing written") (writable plan), w)
      else call_each (writable plan) w
