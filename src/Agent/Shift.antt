-- ===== src/Agent/Shift.antt =====
-- The shift of a swarm worker (src/sidq/agent/swarm.py, `SwarmWorker`). What the catalog answers
-- may change from one target to the next, since other workers write to it: each answer is a
-- function of the number of the target. none of `read` is a read that failed.
pub mod Rounds
pub mod Accounts
pub mod Escapes
pub mod Settled
mod Tests
use sidq.Prelude.{
  ℕ, suc, leb, String, str_eq, Bool, true, false, not, ◌&&◌, Option, none, some, List, [], ◌∷◌,
  ◌++◌, any, length, if◌then◌else◌,
}
use sidq.Prelude.Dict.{Dict, insert}
use sidq.Value.{Value, Fields, str, obj}
use sidq.Models.{Evidence, Verdict}
use sidq.Catalog.Checks.Columns.{is_empty_list}
use sidq.Policy.Engine.{Format, Policy, decide}
use sidq.Receipt.State.{Show, judge, refused, text_of, get, value_or}
use sidq.Receipt.Build.{Receipt, build_receipt}
use sidq.Agent.Auditor.{Target, CatalogAuditor, plan, is_unverifiable, examine}
use sidq.Agent.Run.{found_in}
use sidq.Agent.Swarm.{order_for_worker}

pub record WorkerRun : Type 0 where
  pub worker_id : String
  pub swarm_run : String
  pub examined : List String
  pub written : List String
  pub findings : List Evidence
  pub vouched_by_peer : List (String × String)
  pub vouched_unattributed : List String
  pub refused_urns : List String
  pub write_failures : List (String × String)
  pub verdicts : Dict String

-- `get_verification_status`, `write_receipt` (none, or the name of its error), the clock, the
-- digest of an examination, and `str.format`.
pub record Surroundings : Type 0 where
  pub read : ℕ → String → Option Fields
  pub write : ℕ → Receipt → Option String
  pub clock : ℕ → String
  pub examination_digest : List Evidence → String
  pub format : Format
  pub show : Show

pub record SwarmWorker : Type 0 where
  pub auditor : CatalogAuditor
  pub id : String
  pub swarm : String
  pub policy : Policy
  pub commit_sha : String
  pub verifier : String

-- `str(status.get("worker_id") or "")`
unfoldable pub peer_of : Show → Fields → String
peer_of show status = text_of show (value_or (get "worker_id" status) (str ""))

-- A target that a current receipt covers.
pub skip : SwarmWorker → Show → Target → Fields → WorkerRun → WorkerRun
skip w show target status run =
    let peer = peer_of show status in
    if refused (judge show (obj status))
    then record run { refused_urns = run.refused_urns ++ target.urn ∷ [] }
    else if not (str_eq peer "") && not (str_eq peer w.id)
    then record run { vouched_by_peer = run.vouched_by_peer ++ (target.urn, peer) ∷ [] }
    else record run { vouched_unattributed = run.vouched_unattributed ++ target.urn ∷ [] }

-- `_write`; an exception of `decide` or `build_receipt` escapes.
pub write_verdict :
    SwarmWorker → Surroundings → ℕ → String → List Evidence → WorkerRun → Option WorkerRun
write_verdict w around n urn evidence run =
    elim (decide around.format w.policy evidence [] w.commit_sha) [
      | none ↦ none
      | some verdict ↦
          elim (build_receipt urn verdict (around.clock n) w.verifier "" w.swarm w.id) [
            | none ↦ none
            | some receipt ↦ elim (around.write n receipt) [
              | none ↦ some (record run { written = run.written ++ urn ∷ [] })
              | some error ↦
                  some (record run { write_failures = run.write_failures ++ (urn, error) ∷ [] })
            ]
          ]
    ]

-- Examined, but nothing could be established: no receipt is written.
unfoldable pub establishes_nothing : List Evidence → Bool
establishes_nothing evidence = is_empty_list (found_in evidence) && any is_unverifiable evidence

pub record_examination : Surroundings → String → List Evidence → WorkerRun → WorkerRun
record_examination around urn evidence run = record run {
  examined = run.examined ++ urn ∷ [];
  verdicts = insert urn (around.examination_digest evidence) run.verdicts;
  findings = run.findings ++ found_in evidence;
}

-- From the examination to the end of the round.
pub work : SwarmWorker → Surroundings → ℕ → Target → WorkerRun → Option WorkerRun
work w around n target run = elim (examine w.auditor target.urn) [
  | none ↦ none
  | some evidence ↦
      let run' = record_examination around target.urn evidence run in
      if establishes_nothing evidence
      then some run'
      else write_verdict w around n target.urn evidence run'
]

-- One round after the budget was checked.
pub attend : SwarmWorker → Surroundings → ℕ → Target → WorkerRun → Option WorkerRun
attend w around n target run = elim (around.read n target.urn) [
  | none ↦ work w around n target run
  | some status ↦
      if (judge around.show (obj status)).covers
      then some (skip w around.show target status run)
      else work w around n target run
]

-- The loop; `break` where the budget is spent.
pub attend_all : SwarmWorker → Surroundings → ℕ → List Target → WorkerRun → Option WorkerRun
attend_all w around n [] run = some run
attend_all w around n (target ∷ targets) run =
    if leb w.auditor.budget (length run.examined)
    then some run
    else elim (attend w around n target run) [
      | none ↦ none
      | some run' ↦ attend_all w around (suc n) targets run'
    ]

abbrev pub new_run : SwarmWorker → WorkerRun
new_run w = record {
  worker_id = w.id;
  swarm_run = w.swarm;
  examined = [];
  written = [];
  findings = [];
  vouched_by_peer = [];
  vouched_unattributed = [];
  refused_urns = [];
  write_failures = [];
  verdicts = [];
}

unfoldable pub shift :
    (String → String) → (String → String → String) → SwarmWorker → Surroundings → Option WorkerRun
shift casefold digest w around =
    attend_all w around 0 (order_for_worker digest w.id (plan around.show casefold w.auditor))
      (new_run w)
