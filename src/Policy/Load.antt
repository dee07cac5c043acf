-- ===== src/Policy/Load.antt =====
-- `load_policy` on the document that `yaml.safe_load` gave, with the SHA-256 of the file as a text.
-- none is a refusal (`PolicyConfigError`, or the `TypeError` of a value that no set can hold).
-- `parse_format` is `string.Formatter().parse`: the field names of a message, with an empty text
-- where there is none, or none where it raises.
pub mod Valid
pub mod Loaded
mod Tests
use sidq.Prelude.{
  String, str_eq, has_prefix, remove_prefix, Bool, true, false, not, ◌&&◌, ◌||◌, Option, none, some,
  List, [], ◌∷◌, any, all, if◌then◌else◌,
}
use sidq.Prelude.Int.{ℤ, pos}
use sidq.Prelude.Sets.{member}
use sidq.Value.{
  Value, null, int, str, arr, obj, Items, nil, cons, Fields, end, field, get_key, eq_value,
}
use sidq.Models.{Severity}
use sidq.Receipt.State.{get}
use sidq.Policy.Condition.{Op, Condition, Rule}
use sidq.Policy.Engine.{Action, Policy}
use sidq.Policy.Document.{
  ParseFormat, require_mapping, only_keys, get_or, valid_path, validate_field, resolve_setting,
  op_named, parse_op, is_valueless, parse_operand, parse_condition_fields, parse_condition,
  parse_conditions, parse_where, known_name, validate_message, parse_severity, parse_reason,
  non_empty_text,
}

-- A rule's `match`: the evidence kind, `where` and `where_any`.
unfoldable pub parse_match : Fields → Value → Option (String × List Condition × List Condition)
parse_match settings raw = elim (require_mapping raw) [
  | none ↦ none
  | some m ↦
      if only_keys ("evidence_kind" ∷ "where" ∷ "where_any" ∷ []) m
      then elim (non_empty_text (get "evidence_kind" m)) [
        | none ↦ none
        | some kind ↦ elim (parse_where settings (get_or (arr nil) "where" m)) [
          | none ↦ none
          | some where_all ↦ elim (parse_where settings (get_or (arr nil) "where_any" m)) [
            | none ↦ none
            | some where_any ↦ some (kind, where_all, where_any)
          ]
        ]
      ]
      else none
]

-- `rule_id`, which has to be new.
unfoldable pub parse_id : List String → Value → Option String
parse_id seen v = elim (non_empty_text v) [
  | none ↦ none
  | some id ↦ if member id seen then none else some id
]

-- The rest of a rule, once its id and its match are known.
unfoldable pub parse_rest :
    ParseFormat → String → String → List Condition → List Condition → Fields → Option Rule
parse_rest parse_format id kind where_all where_any r = elim (parse_severity (get "severity" r)) [
  | none ↦ none
  | some severity ↦ elim (parse_reason (get "reason_code" r)) [
    | none ↦ none
    | some reason ↦ elim (validate_message parse_format (get "message" r)) [
      | none ↦ none
      | some message ↦ some (record {
        id = id;
        evidence_kind = kind;
        severity = severity;
        reason_code = reason;
        message = message;
        where_all = where_all;
        where_any = where_any;
      })
    ]
  ]
]

unfoldable pub parse_rule_fields : ParseFormat → Fields → List String → Fields → Option Rule
parse_rule_fields parse_format settings seen r =
    if only_keys ("id" ∷ "match" ∷ "severity" ∷ "reason_code" ∷ "message" ∷ []) r
    then elim (parse_id seen (get "id" r)) [
      | none ↦ none
      | some id ↦ elim (parse_match settings (get "match" r)) [
        | none ↦ none
        | some (kind, where_all, where_any) ↦ parse_rest parse_format id kind where_all where_any r
      ]
    ]
    else none

unfoldable pub parse_rule : ParseFormat → Fields → List String → Value → Option Rule
parse_rule parse_format settings seen raw = elim (require_mapping raw) [
  | none ↦ none
  | some r ↦ parse_rule_fields parse_format settings seen r
]

-- The loop over the rules, with `seen_ids`.
unfoldable pub parse_rules : ParseFormat → Fields → List String → Items → Option (List Rule)
parse_rules parse_format settings seen nil = some []
parse_rules parse_format settings seen (cons raw raws) =
    elim (parse_rule parse_format settings seen raw) [
      | none ↦ none
      | some r ↦ elim (parse_rules parse_format settings (r.id ∷ seen) raws) [
        | none ↦ none
        | some rs ↦ some (r ∷ rs)
      ]
    ]

unfoldable pub parse_action : Value → Option Action
parse_action (str s) =
    if str_eq s "block"
    then some Action.block
    else if str_eq s "info"
    then some Action.info
    else none
parse_action v = none

-- `rules_raw`, which has to be a list.
unfoldable pub parse_rule_list : ParseFormat → Fields → Value → Option (List Rule)
parse_rule_list parse_format settings (arr items) = parse_rules parse_format settings [] items
parse_rule_list parse_format settings v = none

unfoldable pub load_fields : ParseFormat → String → Fields → Option Policy
load_fields parse_format policy_hash d =
    if eq_value (get "version" d) (int (pos 1))
      && only_keys ("version" ∷ "settings" ∷ "rules" ∷ "unhandled_evidence" ∷ []) d
    then elim (parse_action (get_or (str "info") "unhandled_evidence" d)) [
      | none ↦ none
      | some action ↦ elim (require_mapping (get_or (obj end) "settings" d)) [
        | none ↦ none
        | some settings ↦ elim (parse_rule_list parse_format settings (get "rules" d)) [
          | none ↦ none
          | some rules ↦
              some
                (record { rules = rules; policy_hash = policy_hash; unhandled_evidence = action })
        ]
      ]
    ]
    else none

unfoldable pub load_policy : ParseFormat → String → Value → Option Policy
load_policy parse_format policy_hash document = elim (require_mapping document) [
  | none ↦ none
  | some d ↦ load_fields parse_format policy_hash d
]
