-- ===== src/Policy/Engine/Tests.antt =====
-- Runs of the engine on a small policy, and its theorems at concrete inputs.

use mathlib.Core.List.Perm
use sidq.Prelude.{
  ◌≤◌, String, true, ◌||◌, none, some, List, [], ◌∷◌, ◌++◌, any, if◌then◌else◌, ◌≡◌, ◌≢◌, refl,
}
use sidq.Prelude.Int.{pos}
use sidq.Value.{Value, null, int, str, end, field}
use sidq.Models.{Evidence, Severity, Decision, Verdict}
use sidq.Policy.Condition.{Op, Rule, matches_rule}
use sidq.Policy.Engine.{
  Action, Policy, Format, Formatted, render, scan, consider, consider_all, decision_of, decide,
}
use sidq.Policy.Engine.Spec.{fails, unhandled, raises, item_tally, total_tally}
use sidq.Policy.Engine.Refines.{verdict_of, decide-eq-verdict_of, blocking, warning}
use sidq.Policy.Engine.Accounting.{Accounts, decide-Accounts}
use sidq.Policy.Engine.Order.{rank, decide_monotone, decide_fail_closed, decision_at, decide-perm}

abbrev missing_field : Rule
missing_field = record {
  id = "unknown_field";
  evidence_kind = "unknown_field";
  severity = Severity.block;
  reason_code = some "MISSING_FIELD";
  message = "Referenced field is not present in the catalog";
  where_all = [];
  where_any = [];
}

abbrev wide_blast : Rule
wide_blast = record {
  id = "wide_blast_radius";
  evidence_kind = "downstream_blast_radius";
  severity = Severity.warn;
  reason_code = none;
  message = "Wide blast radius";
  where_all = record { path = "detail.count"; op = Op.gte; value = int (pos 5) } ∷ [];
  where_any = [];
}

abbrev policy : Policy
policy = record {
  rules = missing_field ∷ wide_blast ∷ [];
  policy_hash = "ab12";
  unhandled_evidence = Action.block;
}

abbrev verbatim : Format
verbatim message ev = Formatted.text message

abbrev blast : Value → Evidence
blast count = record {
  kind = "downstream_blast_radius";
  subject = "urn:li:dataset:orders";
  detail = field "count" count end;
  graph_links = [];
}

abbrev unknown : Evidence
unknown = record {
  kind = "unknown_field";
  subject = "urn:li:dataset:orders#total";
  detail = end;
  graph_links = [];
}

abbrev wide : List Evidence
wide = blast (int (pos 7)) ∷ []

abbrev warned : Verdict
warned = verdict_of policy (total_tally verbatim policy wide) [] "c0ffee"

abbrev blocked : Verdict
blocked = verdict_of policy (total_tally verbatim policy (unknown ∷ wide)) [] "c0ffee"

wide_warns : decide verbatim policy wide [] "c0ffee" ≡ some warned
unfolding decide consider_all consider scan render matches_rule total_tally item_tally
wide_warns = refl

unknown_blocks : decide verbatim policy (unknown ∷ wide) [] "c0ffee" ≡ some blocked
unfolding decide consider_all consider scan render matches_rule total_tally item_tally
unknown_blocks = refl

wide_then_unknown :
    decide verbatim policy (wide ++ unknown ∷ []) [] "c0ffee"
    ≡ some (verdict_of policy (total_tally verbatim policy (wide ++ unknown ∷ [])) [] "c0ffee")
unfolding decide consider_all consider scan render matches_rule total_tally item_tally
wide_then_unknown = refl

-- A count that is a text cannot be compared with a number, and blocks.
mistyped_blocks :
    decision_at (decide verbatim policy (blast (str "many") ∷ []) [] "") ≡ some Decision.block
unfolding decide consider_all consider scan render matches_rule
mistyped_blocks = refl

-- A missing count matches nothing, and is informational.
narrow_passes : decision_at (decide verbatim policy (blast null ∷ []) [] "") ≡ some Decision.pass
unfolding decide consider_all consider scan render matches_rule
narrow_passes = refl

decide-eq-verdict_of_example : decide verbatim policy wide [] "c0ffee" ≡ (
    if any (raises verbatim policy) wide
    then none
    else some (verdict_of policy (total_tally verbatim policy wide) [] "c0ffee"))
decide-eq-verdict_of_example = decide-eq-verdict_of verbatim policy wide [] "c0ffee"

decide-Accounts_example :
    Accounts (unknown ∷ wide) blocked.findings
    × (blocked.decision
        ≡ decision_of (any blocking blocked.findings) (any warning blocked.findings))
decide-Accounts_example =
    decide-Accounts verbatim policy (unknown ∷ wide) [] "c0ffee" unknown_blocks

abbrev both : Verdict
both = verdict_of policy (total_tally verbatim policy (wide ++ unknown ∷ [])) [] "c0ffee"

decide_monotone_example :
    (both.findings ≡ warned.findings ++ (total_tally verbatim policy (unknown ∷ [])).findings)
    × (rank warned.decision ≤ rank both.decision)
    × ((code : String) → warned.reason_code ≡ some code → both.reason_code ≡ some code)
decide_monotone_example =
    decide_monotone verbatim policy [] "c0ffee" wide (unknown ∷ []) wide_warns wide_then_unknown

abbrev mistyped : List Evidence
mistyped = unknown ∷ blast (str "many") ∷ []

abbrev failed : Verdict
failed = verdict_of policy (total_tally verbatim policy mistyped) [] ""

mistyped_returns : decide verbatim policy mistyped [] "" ≡ some failed
unfolding decide consider_all consider scan render matches_rule total_tally item_tally
mistyped_returns = refl

mistyped_fails :
    (fails policy.rules (blast (str "many")) || unhandled policy (blast (str "many"))) ≡ true
unfolding fails unhandled matches_rule
mistyped_fails = refl

decide_fail_closed_example : (failed.decision ≡ Decision.block) × (failed.reason_code ≢ none)
decide_fail_closed_example =
    decide_fail_closed verbatim policy [] "" (unknown ∷ []) [] (blast (str "many")) mistyped_returns
      mistyped_fails

decide-perm_example :
    decision_at (decide verbatim policy (unknown ∷ blast null ∷ []) [] "")
    ≡ decision_at (decide verbatim policy (blast null ∷ unknown ∷ []) [] "")
decide-perm_example =
    decide-perm verbatim policy (unknown ∷ blast null ∷ []) (blast null ∷ unknown ∷ []) [] ""
      (Perm.swap (blast null) unknown [])
