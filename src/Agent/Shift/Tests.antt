-- ===== src/Agent/Shift/Tests.antt =====
-- A shift of one worker on two assets, and the theorems there.
use sidq.Prelude.{
  All, inl, has_prefix, ends_with, String, true, false, none, some, List, [], ◌∷◌, ◌≡◌, refl,
}
use sidq.Policy.Engine.{decide, consider_all, Action, Formatted}
use sidq.Catalog.Snapshot.{CatalogEntity}
use sidq.Agent.Auditor.{
  Target, plan, examine, keep_concerning, consequence, downstream, exposure, slice_of, rank_le,
}
use sidq.Agent.Swarm.{
  order_for_worker, order_tiers, consequence_tiers, tiers_from, runs_from, extend_runs,
  crosses_zero, would_overflow, tier_rank_le, ties_with, worker_le,
}
use sidq.Catalog.Checks.Columns.{is_empty_list}
use sidq.Receipt.Build.{build_receipt, writable, rules_of}
use sidq.Prelude.Sort.{sorted}
use sidq.Prelude.Sets.{member}
use sidq.Prelude.Dict.{insert}
use sidq.Agent.Shift.{
  WorkerRun, Surroundings, SwarmWorker, attend_all, work, establishes_nothing, write_verdict,
  record_examination, attend, new_run, shift,
}
use sidq.Agent.Shift.Accounts.{IsAccount, shift-IsAccount}
use sidq.Agent.Shift.Settled.{Settled, shift-AllSettled}
use sidq.Agent.Shift.Escapes.{Uncovered, shift_non_dataset}

abbrev orders_urn : String
orders_urn = "urn:li:dataset:(urn:li:dataPlatform:pg,orders,PROD)"

abbrev chart_urn : String
chart_urn = "urn:li:chart:(looker,sales)"

abbrev asset : String → String → CatalogEntity
asset urn kind = record {
  urn = urn;
  kind = kind;
  description = none;
  fields = [];
  tags = [];
  owners = "ann" ∷ [];
  deprecated = false;
  live = true;
  schema_available = true;
}

abbrev worker : List CatalogEntity → SwarmWorker
worker entities = record {
  auditor = record {
    snapshot = record {
      entities = entities;
      edges = [];
      entities_complete = true;
      field_lineage_resolved = none;
    };
    budget = 1;
    gate = λ snapshot. some [];
    prior = [];
    gaps = [];
  };
  id = "w1";
  swarm = "s1";
  policy = record { rules = []; policy_hash = "p"; unhandled_evidence = Action.block };
  commit_sha = "c";
  verifier = "sidq";
}

abbrev around : Surroundings
around = record {
  read = λ n urn. none;
  write = λ n receipt. none;
  clock = λ n. "2026-01-01T00:00:00+00:00";
  examination_digest = λ evidence. "d";
  format = λ message ev. Formatted.text message;
  show = λ v. "";
}

abbrev fold : String → String
fold s = s

abbrev digest : String → String → String
digest id urn = urn

abbrev dataset_worker : SwarmWorker
dataset_worker = worker (asset orders_urn "dataset" ∷ [])

abbrev done : WorkerRun
done = record (new_run dataset_worker) {
  examined = orders_urn ∷ [];
  written = orders_urn ∷ [];
  verdicts = (orders_urn, "d") ∷ [];
}

done_run : shift fold digest dataset_worker around ≡ some done
unfolding shift attend_all order_for_worker order_tiers consequence_tiers tiers_from runs_from
    extend_runs crosses_zero is_empty_list would_overflow attend work examine establishes_nothing
    write_verdict keep_concerning consequence downstream exposure plan sorted slice_of
    record_examination insert member build_receipt writable has_prefix ends_with decide consider_all
    rules_of
done_run = refl

shift-IsAccount_example :
    IsAccount 1 (order_for_worker digest "w1" (plan around.show fold dataset_worker.auditor)) done
shift-IsAccount_example = shift-IsAccount fold digest dataset_worker around done done_run

abbrev chart_worker : SwarmWorker
chart_worker = worker (asset orders_urn "dataset" ∷ asset chart_urn "chart" ∷ [])

abbrev chart : Target
chart = record {
  urn = chart_urn;
  consequence = 0;
  reasons = "no notable exposure" ∷ [];
  resisted = false;
}

abbrev orders_target : Target
orders_target = record chart { urn = orders_urn }

chart_first :
    order_for_worker digest "w1" (plan around.show fold chart_worker.auditor)
    ≡ chart ∷ orders_target ∷ []
unfolding order_for_worker order_tiers consequence_tiers tiers_from runs_from extend_runs
    crosses_zero is_empty_list would_overflow consequence downstream exposure plan sorted member
    rank_le tier_rank_le ties_with worker_le
chart_first = refl

shift_non_dataset_example : shift fold digest chart_worker around ≡ none
unfolding examine establishes_nothing is_empty_list writable has_prefix keep_concerning attend_all
    Uncovered
shift_non_dataset_example =
    shift_non_dataset fold digest chart_worker around [] (orders_target ∷ []) chart []
      (new_run chart_worker) chart_first refl refl (inl refl) refl refl refl

shift-AllSettled_example : All (Settled dataset_worker done) done.examined
shift-AllSettled_example = shift-AllSettled fold digest dataset_worker around done done_run
