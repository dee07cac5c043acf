-- ===== src/Agent/Run.antt =====
-- `CatalogAuditor.run` (src/sidq/agent/auditor.py): the loop over a queue that its own findings
-- reorder. Each round takes one target off the queue and each promotion puts one of the plan back,
-- at most once, so twice the length of the plan is fuel enough.
pub mod Rounds
pub mod Books
pub mod Total
pub mod Buckets
pub mod Honest
pub mod Steps
pub mod Report
pub mod Findings
mod Tests
use sidq.Prelude.{
  ℕ, zero, suc, ◌*◌, leb, String, str_eq, Bool, true, false, not, ◌||◌, Option, none, some, List,
  [], ◌∷◌, ◌++◌, map, any, keep, length, if◌then◌else◌,
}
use sidq.Prelude.Dict.{Dict, lookup, insert}
use sidq.Prelude.Sets.{member, insert_all}
use sidq.Models.{Evidence}
use sidq.Catalog.Checks.Columns.{is_empty_list}
use sidq.Receipt.State.{Show}
use sidq.Agent.Memory.{PriorReceipt, prior_refused}
use sidq.Agent.Auditor.{
  Target, AuditRun, CatalogAuditor, plan, neighbours, is_unverifiable, examine,
}

-- The locals of `run`.
pub record Progress : Type 0 where
  pub result : AuditRun
  pub queue : List Target
  pub promoted_urns : List String
  pub seen : List String

abbrev pub contagious_findings : List String
contagious_findings =
    "doc_references_missing_column" ∷ "lineage_field_missing" ∷ "orphan_lineage"
    ∷ "pii_leak_untagged" ∷ []

-- A skip on a receipt that covers the asset.
pub record_prior : PriorReceipt → Target → AuditRun → AuditRun
record_prior p target r =
    if prior_refused p
    then record r { refused = r.refused ++ (target.urn, p.reason) ∷ [] }
    else record r { vouched = r.vouched ++ (target.urn, p.reason) ∷ [] }

abbrev pub found_in : List Evidence → List Evidence
found_in collected = keep (λ ev. not (is_unverifiable ev)) collected

-- The books of one examination, up to `if not found`.
pub record_evidence : Target → List Evidence → AuditRun → AuditRun
record_evidence target collected r = record r {
  examined = r.examined ++ target.urn ∷ [];
  evidence_by_urn = insert target.urn collected r.evidence_by_urn;
  unverifiable = r.unverifiable ++ keep is_unverifiable collected;
  findings = r.findings ++ found_in collected;
}

-- The branch `if not found`.
pub record_empty : Target → List Evidence → AuditRun → AuditRun
record_empty target collected r =
    if any is_unverifiable collected
    then record r { unestablished = r.unestablished ++ target.urn ∷ [] }
    else record r { verified = r.verified ++ target.urn ∷ [] }

-- One round of the loop over the neighbours.
pub promote : Dict Target → String → String → Progress → Progress
promote by_urn because urn st =
    if member urn st.seen || member urn st.promoted_urns then st else elim (lookup urn by_urn) [
      | none ↦ st
      | some target ↦ record st {
        promoted_urns = urn ∷ st.promoted_urns;
        result = record st.result { promoted = st.result.promoted ++ (because, urn) ∷ [] };
        queue = target ∷ st.queue;
      }
    ]

pub promote_all : Dict Target → String → List String → Progress → Progress
promote_all by_urn because [] st = st
promote_all by_urn because (urn ∷ urns) st =
    promote_all by_urn because urns (promote by_urn because urn st)

-- What follows an examination.
pub conclude : CatalogAuditor → Dict Target → Target → List Evidence → Progress → Progress
conclude a by_urn target collected st =
    let st' = record st { result = record_evidence target collected st.result } in
    if is_empty_list (found_in collected)
    then record st' { result = record_empty target collected st'.result }
    else if not (any (λ (ev : Evidence). member ev.kind contagious_findings) (found_in collected))
    then st'
    else promote_all by_urn target.urn (neighbours a.snapshot target.urn) st'

-- A target that no receipt covers.
pub audit_target : CatalogAuditor → Dict Target → Target → Progress → Option Progress
audit_target a by_urn target st =
    if leb a.budget (length st.result.examined)
    then some
        (record st { result = record st.result { deferred = st.result.deferred ++ target ∷ [] } })
    else elim (examine a target.urn) [
      | none ↦ none
      | some collected ↦ some (conclude a by_urn target collected st)
    ]

-- A target that was not seen before.
pub take_target : CatalogAuditor → Dict Target → Target → Progress → Option Progress
take_target a by_urn target st = elim (lookup target.urn a.prior) [
  | none ↦ audit_target a by_urn target st
  | some p ↦
      if p.covers
      then some (record st { result = record_prior p target st.result })
      else audit_target a by_urn target st
]

-- One round of `while queue`, after the pop.
pub consider : CatalogAuditor → Dict Target → Target → Progress → Option Progress
consider a by_urn target st =
    if member target.urn st.seen
    then some st
    else take_target a by_urn target (record st { seen = target.urn ∷ st.seen })

-- The loop; none is an exception, or fuel that ends before the queue does.
pub run_loop : ℕ → CatalogAuditor → Dict Target → Progress → Option AuditRun
run_loop zero a by_urn st = elim st.queue [ [] ↦ some st.result | _ ∷ _ ↦ none ]
run_loop (suc fuel) a by_urn st = elim st.queue [
  | [] ↦ some st.result
  | target ∷ rest ↦ elim (consider a by_urn target (record st { queue = rest })) [
    | none ↦ none
    | some st' ↦ run_loop fuel a by_urn st'
  ]
]

abbrev pub empty_run : List Target → AuditRun
empty_run order = record {
  examined = [];
  findings = [];
  unverifiable = [];
  deferred = [];
  verified = [];
  unestablished = [];
  vouched = [];
  refused = [];
  order = order;
  evidence_by_urn = [];
  promoted = [];
}

abbrev pub start : List Target → Progress
start targets = record {
  result = empty_run targets;
  queue = targets;
  promoted_urns = [];
  seen = [];
}

-- `{target.urn: target for target in plan}`
unfoldable pub targets_by_urn : List Target → Dict Target
targets_by_urn targets = insert_all (map (λ (t : Target). (t.urn, t)) targets) []

unfoldable pub run : Show → (String → String) → CatalogAuditor → Option AuditRun
run show casefold a =
    let targets = plan show casefold a in
    run_loop (2 * length targets) a (targets_by_urn targets) (start targets)
