-- ===== src/Policy/Document.antt =====
-- The parts of a policy document: settings, conditions, messages and the texts of a rule
-- (`_require_mapping`, `_validate_field`, `_resolve_setting`, `_parse_condition` and
-- `_validate_message`). none is a refusal.
use sidq.Prelude.{
  String, str_eq, has_prefix, remove_prefix, Bool, true, false, not, ◌&&◌, ◌||◌, Option, none, some,
  List, [], ◌∷◌, all, if◌then◌else◌,
}
use sidq.Prelude.Sets.{member}
use sidq.Value.{Value, null, str, arr, obj, Items, nil, cons, Fields, end, field, get_key}
use sidq.Models.{Severity}
use sidq.Receipt.State.{get}
use sidq.Policy.Condition.{Op, Condition}

abbrev pub ParseFormat : Type 0
ParseFormat = String → Option (List String)

-- `_require_mapping`
unfoldable pub require_mapping : Value → Option Fields
require_mapping (obj fs) = some fs
require_mapping v = none

-- `not set(mapping) - keys`
unfoldable pub only_keys : List String → Fields → Bool
only_keys keys end = true
only_keys keys (field k v rest) = member k keys && only_keys keys rest

-- `mapping.get(key, default)`
unfoldable pub get_or : Value → String → Fields → Value
get_or default key fs = elim (get_key key fs) [ none ↦ default | some v ↦ v ]

unfoldable pub valid_path : String → Bool
valid_path path =
    str_eq path "subject"
    || str_eq path "graph_links"
    || (has_prefix "detail." path && not (str_eq path "detail."))

unfoldable pub validate_field : Value → Option String
validate_field (str path) = if valid_path path then some path else none
validate_field v = none

unfoldable pub resolve_setting : Fields → Value → Option Value
resolve_setting settings (str s) =
    if has_prefix "$settings." s
    then if str_eq (remove_prefix "$settings." s) ""
      then none
      else get_key (remove_prefix "$settings." s) settings
    else some (str s)
resolve_setting settings v = some v

unfoldable pub op_named : String → Option Op
op_named s =
    if str_eq s "eq"
    then some Op.eq
    else if str_eq s "ne"
    then some Op.ne
    else if str_eq s "gt"
    then some Op.gt
    else if str_eq s "gte"
    then some Op.gte
    else if str_eq s "lt"
    then some Op.lt
    else if str_eq s "lte"
    then some Op.lte
    else if str_eq s "in"
    then some Op.in_value
    else if str_eq s "contains"
    then some Op.contains
    else if str_eq s "empty"
    then some Op.empty
    else if str_eq s "not_empty"
    then some Op.not_empty
    else none

unfoldable pub parse_op : Value → Option Op
unfolding op_named
parse_op (str s) = op_named s
parse_op v = none

unfoldable pub is_valueless : Op → Bool
is_valueless Op.empty = true
is_valueless Op.not_empty = true
is_valueless op = false

-- The last part of `_parse_condition`, from `has_value`.
unfoldable pub parse_operand : Fields → String → Op → Option Value → Option Condition
parse_operand settings path op none =
    if is_valueless op then some (record { path = path; op = op; value = null }) else none
parse_operand settings path op (some v) =
    if is_valueless op then none else elim (resolve_setting settings v) [
      | none ↦ none
      | some w ↦ some (record { path = path; op = op; value = w })
    ]

unfoldable pub parse_condition_fields : Fields → Fields → Option Condition
parse_condition_fields settings c =
    if only_keys ("field" ∷ "op" ∷ "value" ∷ []) c
    then elim (validate_field (get "field" c)) [
      | none ↦ none
      | some path ↦ elim (parse_op (get "op" c)) [
        | none ↦ none
        | some op ↦ parse_operand settings path op (get_key "value" c)
      ]
    ]
    else none

unfoldable pub parse_condition : Fields → Value → Option Condition
parse_condition settings raw = elim (require_mapping raw) [
  | none ↦ none
  | some c ↦ parse_condition_fields settings c
]

unfoldable pub parse_conditions : Fields → Items → Option (List Condition)
parse_conditions settings nil = some []
parse_conditions settings (cons raw raws) = elim (parse_condition settings raw) [
  | none ↦ none
  | some c ↦ elim (parse_conditions settings raws) [ none ↦ none | some cs ↦ some (c ∷ cs) ]
]

-- `match.get(key, [])`, which has to be a list, parsed.
unfoldable pub parse_where : Fields → Value → Option (List Condition)
parse_where settings (arr items) = parse_conditions settings items
parse_where settings v = none

unfoldable pub known_name : String → Bool
known_name name = str_eq name "" || str_eq name "subject" || has_prefix "detail." name

unfoldable pub validate_message : ParseFormat → Value → Option String
validate_message parse_format (str message) = elim (parse_format message) [
  | none ↦ none
  | some names ↦ if all known_name names then some message else none
]
validate_message parse_format v = none

unfoldable pub parse_severity : Value → Option Severity
parse_severity (str s) =
    if str_eq s "block"
    then some Severity.block
    else if str_eq s "warn"
    then some Severity.warn
    else if str_eq s "info"
    then some Severity.info
    else none
parse_severity v = none

-- `None`, or a text.
unfoldable pub parse_reason : Value → Option (Option String)
parse_reason null = some none
parse_reason (str s) = some (some s)
parse_reason v = none

unfoldable pub non_empty_text : Value → Option String
non_empty_text (str s) = if str_eq s "" then none else some s
non_empty_text v = none
