-- ===== src/Policy/Load/Tests.antt =====
-- A policy of one rule, loaded.
use sidq.Prelude.{has_prefix, remove_prefix, none, some, [], ◌∷◌, ◌≡◌, refl}
use sidq.Prelude.Int.{pos}
use sidq.Prelude.Sets.{member}
use sidq.Value.{Value, int, str, arr, obj, nil, cons, end, field, get_key, eq_value}
use sidq.Models.{Severity}
use sidq.Receipt.State.{get}
use sidq.Policy.Condition.{Op}
use sidq.Policy.Engine.{Action, Policy}
use sidq.Policy.Document.{
  ParseFormat, require_mapping, only_keys, get_or, valid_path, validate_field, resolve_setting,
  op_named, parse_op, is_valueless, parse_operand, parse_condition_fields, parse_condition,
  parse_conditions, parse_where, known_name, validate_message, parse_severity, parse_reason,
  non_empty_text,
}
use sidq.Policy.Load.{
  parse_match, parse_id, parse_rest, parse_rule_fields, parse_rule, parse_rules, parse_action,
  parse_rule_list, load_fields, load_policy,
}
use sidq.Policy.Load.Loaded.{AreRules, load_policy-AreRules}

abbrev condition : Value
condition = obj (
    field "field" (str "detail.count")
      (field "op" (str "gt") (field "value" (str "$settings.limit") end)))

abbrev rule : Value
rule = obj (
    field "id" (str "wide") (
      field "match"
        (obj (field "evidence_kind" (str "blast") (field "where" (arr (cons condition nil)) end)))
        (field "severity" (str "block") (field "message" (str "{subject}") end))))

abbrev document : Value
document = obj (
    field "version" (int (pos 1)) (
      field "settings" (obj (field "limit" (int (pos 3)) end))
        (field "rules" (arr (cons rule nil)) (field "unhandled_evidence" (str "block") end))))

abbrev names_of : ParseFormat
names_of message = some ("subject" ∷ [])

abbrev loaded : Policy
loaded = record {
  rules =
      record {
        id = "wide";
        evidence_kind = "blast";
        severity = Severity.block;
        reason_code = none;
        message = "{subject}";
        where_all = record { path = "detail.count"; op = Op.gt; value = int (pos 3) } ∷ [];
        where_any = [];
      }
      ∷ [];
  policy_hash = "h";
  unhandled_evidence = Action.block;
}

load_run : load_policy names_of "h" document ≡ some loaded
unfolding load_policy load_fields require_mapping only_keys get_or valid_path validate_field
    resolve_setting op_named parse_op is_valueless parse_operand parse_condition_fields
    parse_condition parse_conditions parse_where known_name validate_message parse_severity
    parse_reason non_empty_text parse_match parse_id parse_rest parse_rule_fields parse_rule
    parse_rules parse_action parse_rule_list member get get_key eq_value has_prefix remove_prefix
load_run = refl

load_policy-AreRules_example : AreRules names_of [] loaded.rules × (loaded.policy_hash ≡ "h")
load_policy-AreRules_example = load_policy-AreRules names_of "h" document loaded load_run
