-- ===== src/Agent/Run/Tests.antt =====
-- An audit of four assets, run, and the theorems at this input.
use sidq.Prelude.{
  ℕ, String, str_eq, true, false, none, some, List, [], ◌∷◌, map, All, ◌≡◌, refl, has_prefix,
  ends_with,
}
use sidq.Prelude.Sort.{sorted}
use sidq.Prelude.Dict.{lookup, insert}
use sidq.Prelude.Sets.{member, insert_all, distinct}
use sidq.Catalog.Checks.Lineage.{sorted_set}
use sidq.Catalog.Checks.Columns.{is_empty_list}
use sidq.Agent.Memory.{prior_refused}
use mathlib.Core.List.{Perm}
use sidq.Value.{Value, end}
use sidq.Models.{Evidence}
use sidq.Catalog.Snapshot.{CatalogEntity, LineageEdge, CatalogSnapshot}
use sidq.Catalog.Gate.{collect}
use sidq.Receipt.State.{ReceiptState, Action}
use sidq.Agent.Memory.{PriorReceipt}
use sidq.Agent.Auditor.{
  Gate, Target, AuditRun, CatalogAuditor, consequence, rank_le, plan, exposure, downstream,
  neighbours, examine, keep_concerning, concerns_target, slice_of, touching, is_unverifiable,
}
use sidq.Agent.Auditor.Order.{summary, expected, Ranked, plan-Ranked}
use sidq.Agent.Run.{
  run, run_loop, consider, take_target, audit_target, conclude, promote_all, promote, record_prior,
  record_evidence, record_empty, targets_by_urn,
}
use sidq.Agent.Run.Rounds.{bookings}
use sidq.Agent.Run.Total.{audit_total}
use sidq.Agent.Run.Buckets.{run_books}
use sidq.Agent.Run.Honest.{IsHonest}
use sidq.Agent.Run.Report.{run-IsHonest}
use sidq.Agent.Run.Findings.{run_orphan_blind}

abbrev dataset : String → List String → CatalogEntity
dataset urn owners = record {
  urn = urn;
  kind = "dataset";
  description = none;
  fields = [];
  tags = [];
  owners = owners;
  deprecated = false;
  live = true;
  schema_available = true;
}

abbrev edge : String → String → LineageEdge
edge source target = record {
  source_urn = source;
  source_field = none;
  target_urn = target;
  target_field = none;
}

-- `a` feeds `d` and an asset that the catalog does not have.
abbrev catalog : CatalogSnapshot
catalog = record {
  entities =
      dataset "a" ("o" ∷ [])
      ∷ dataset "b" []
      ∷ dataset "c" ("o" ∷ [])
      ∷ dataset "d" ("o" ∷ [])
      ∷ [];
  edges = edge "a" "d" ∷ edge "a" "ghost" ∷ [];
  entities_complete = true;
  field_lineage_resolved = none;
}

abbrev evidence : String → String → Evidence
evidence kind subject = record { kind = kind; subject = subject; detail = end; graph_links = [] }

abbrev toy_gate : Gate
toy_gate snapshot =
    some (evidence "pii_leak_untagged" "a#x" ∷ evidence "schema_unverifiable" "d" ∷ [])

abbrev prior_c : PriorReceipt
prior_c = record {
  urn = "c";
  covers = true;
  reason = "receipt records PASS; continue";
  state = ReceiptState.current;
  verdict = some "PASS";
  action = Action.continue;
  worker_id = "";
}

abbrev toy_auditor : CatalogAuditor
toy_auditor = record {
  snapshot = catalog;
  budget = 2;
  gate = toy_gate;
  prior = ("c", prior_c) ∷ [];
  gaps = [];
}

abbrev shown : Value → String
shown v = "2"

abbrev fold : String → String
fold s = s

abbrev no_references : String → List String
no_references s = []

abbrev target : String → ℕ → List String → Target
target urn score reasons = record {
  urn = urn;
  consequence = score;
  reasons = reasons;
  resisted = false;
}

abbrev target_b : Target
target_b = target "b" 15 ("no owner" ∷ [])

abbrev toy_order : List Target
toy_order =
    target "a" 20 ("2 downstream consumers" ∷ [])
    ∷ target_b
    ∷ target "c" 0 ("no notable exposure" ∷ [])
    ∷ target "d" 0 ("no notable exposure" ∷ [])
    ∷ []

-- The finding on `a` promotes its neighbour `d` before `b`, for which the budget is too small.
abbrev toy_report : AuditRun
toy_report = record {
  examined = "a" ∷ "d" ∷ [];
  findings = evidence "pii_leak_untagged" "a#x" ∷ [];
  unverifiable = evidence "schema_unverifiable" "d" ∷ [];
  deferred = target_b ∷ [];
  verified = [];
  unestablished = "d" ∷ [];
  vouched = ("c", "receipt records PASS; continue") ∷ [];
  refused = [];
  order = toy_order;
  evidence_by_urn =
      ("a", evidence "pii_leak_untagged" "a#x" ∷ [])
      ∷ ("d", evidence "schema_unverifiable" "d" ∷ [])
      ∷ [];
  promoted = ("a", "d") ∷ [];
}

toy_run : run shown fold toy_auditor ≡ some toy_report
unfolding run run_loop consider take_target audit_target conclude promote_all promote record_prior
    record_evidence record_empty targets_by_urn plan consequence exposure downstream neighbours
    rank_le sorted lookup insert member insert_all distinct sorted_set is_empty_list prior_refused
    examine keep_concerning concerns_target slice_of touching is_unverifiable has_prefix ends_with
toy_run = refl

run_books_example : bookings "d" toy_report ≡ 1
run_books_example = run_books shown fold toy_auditor toy_report toy_run "d"

run-IsHonest_example : IsHonest toy_auditor toy_report
run-IsHonest_example = run-IsHonest shown fold toy_auditor toy_report toy_run

plan-Ranked_example :
    Perm
      (map summary (plan shown fold toy_auditor))
      (map (expected fold toy_auditor) catalog.entities)
    × Ranked (plan shown fold toy_auditor)
plan-Ranked_example = plan-Ranked shown fold toy_auditor

-- The same auditor with the gate of the source.
abbrev real_auditor : CatalogAuditor
real_auditor = record toy_auditor { gate = collect fold no_references }

audit_total_example : (r : AuditRun) × (run shown fold real_auditor ≡ some r)
audit_total_example = audit_total shown fold no_references real_auditor refl

abbrev real_report : AuditRun
real_report = (audit_total shown fold no_references real_auditor refl).0

-- The catalog has an edge to a missing asset, and the report does not say so.
run_orphan_blind_example : All (λ ev. str_eq ev.kind "orphan_lineage" ≡ false) real_report.findings
run_orphan_blind_example =
    run_orphan_blind shown fold no_references real_auditor real_report refl
      (audit_total shown fold no_references real_auditor refl).1
