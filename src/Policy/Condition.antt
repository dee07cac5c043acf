-- ===== src/Policy/Condition.antt =====
-- Conditions and rules, and how a rule is matched against one piece of evidence
-- (`Condition`, `Rule`, `_field_value`, `_matches_condition`, `_matches_rule`).
-- `none` is a `TypeError` that the comparison raised.
use sidq.Prelude.{
  String, str_eq, split_on, remove_prefix, Bool, true, false, not, Option, none, some, List, [],
  ◌∷◌, ◌==◌, if◌then◌else◌,
}
use sidq.Value.{
  Value, null, str, tup, obj, get_key, strings, eq_value, order_value, contains_value, len_value,
  strict, loose,
}
use sidq.Models.{Evidence, Severity}

pub data Op : Type 0 where
  eq ne gt gte lt lte in_value contains empty not_empty : Op

pub record Condition : Type 0 where
  pub path : String
  pub op : Op
  pub value : Value

pub record Rule : Type 0 where
  pub id : String
  pub evidence_kind : String
  pub severity : Severity
  pub reason_code : Option String
  pub message : String
  pub where_all : List Condition
  pub where_any : List Condition

-- The loop of `_field_value`: a missing key, and a step into no mapping, give `None`.
walk : List String → Value → Value
unfolding get_key
walk [] v = v
walk (part ∷ parts) (obj fs) = elim (get_key part fs) [ none ↦ null | some w ↦ walk parts w ]
walk (part ∷ parts) v = null

unfoldable pub field_value : Evidence → String → Value
unfolding walk split_on remove_prefix strings
field_value ev path =
    if str_eq path "subject"
    then str ev.subject
    else if str_eq path "graph_links"
    then tup (strings ev.graph_links)
    else walk (split_on b'.' (remove_prefix "detail." path)) (obj ev.detail)

-- `left is None or len(left) == 0`, and its opposite.
is_empty : Value → Option Bool
unfolding len_value
is_empty null = some true
is_empty v = elim (len_value v) [ none ↦ none | some n ↦ some (n == 0) ]

negate : Option Bool → Option Bool
negate none = none
negate (some b) = some (not b)

-- A comparison whose left side is missing fails; `apply_op` is the `match` below that guard.
abbrev or_missing : Value → Option Bool → Option Bool
or_missing null r = some false
or_missing _ r = r

unfoldable pub apply_op : Op → Value → Value → Option Bool
unfolding is_empty negate eq_value order_value contains_value
apply_op Op.eq left right = or_missing left (some (eq_value left right))
apply_op Op.ne left right = or_missing left (some (not (eq_value left right)))
apply_op Op.gt left right = or_missing left (order_value strict right left)
apply_op Op.gte left right = or_missing left (order_value loose right left)
apply_op Op.lt left right = or_missing left (order_value strict left right)
apply_op Op.lte left right = or_missing left (order_value loose left right)
apply_op Op.in_value left right = or_missing left (contains_value right left)
apply_op Op.contains left right = or_missing left (contains_value left right)
apply_op Op.empty left right = is_empty left
apply_op Op.not_empty left right = negate (is_empty left)

unfoldable pub matches_condition : Evidence → Condition → Option Bool
unfolding field_value apply_op
matches_condition ev c = apply_op c.op (field_value ev c.path) c.value

-- `all(...)` and `any(...)` stop at the first answer, and pass an exception on.
unfoldable pub all_match : Evidence → List Condition → Option Bool
unfolding matches_condition
all_match ev [] = some true
all_match ev (c ∷ cs) = elim (matches_condition ev c) [
  | none ↦ none
  | some true ↦ all_match ev cs
  | some false ↦ some false
]

unfoldable pub any_match : Evidence → List Condition → Option Bool
unfolding matches_condition
any_match ev [] = some false
any_match ev (c ∷ cs) = elim (matches_condition ev c) [
  | none ↦ none
  | some true ↦ some true
  | some false ↦ any_match ev cs
]

-- `not rule.where_any or any(...)`
any_or_none : Evidence → List Condition → Option Bool
unfolding any_match
any_or_none ev [] = some true
any_or_none ev (c ∷ cs) = any_match ev (c ∷ cs)

unfoldable pub matches_rule : Evidence → Rule → Option Bool
unfolding any_or_none all_match
matches_rule ev r =
    if str_eq ev.kind r.evidence_kind
    then elim (all_match ev r.where_all) [
      | none ↦ none
      | some true ↦ any_or_none ev r.where_any
      | some false ↦ some false
    ]
    else some false
