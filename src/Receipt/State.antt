-- ===== src/Receipt/State.antt =====
-- The three questions a receipt answers (src/sidq/receipt/state.py). A status is any value that
-- came back from the catalog. `show` is Python's `str` on a value that is no text.
pub mod Axes
use Prim.Native.String.{◌++◌}
use sidq.Prelude.{
  String, str_eq, Bool, true, false, not, zero, Option, none, some, List, [], ◌∷◌, ◌==◌,
  if◌then◌else◌, any,
}
use sidq.Prelude.Int.{ℤ, pos}
use sidq.Value.{
  Value, null, bool, int, str, arr, tup, obj, Items, nil, cons, Fields, end, field, get_key,
  eq_value,
}

pub data ReceiptState : Type 0 where
  current stale absent invalid : ReceiptState

pub data Action : Type 0 where
  continue review stop recheck : Action

pub record ReceiptJudgment : Type 0 where
  pub state : ReceiptState
  pub verdict : Option String
  pub action : Action
  pub covers : Bool
  pub reason : String

abbrev pub Show : Type 0
Show = Value → String

-- `str(value)`
unfoldable pub text_of : Show → Value → String
text_of show (str s) = s
text_of show v = show v

-- `status.get(key)`; a missing key is `None`.
unfoldable pub get : String → Fields → Value
unfolding get_key
get key fs = elim (get_key key fs) [ none ↦ null | some v ↦ v ]

-- `bool(value)`
unfoldable pub truthy : Value → Bool
truthy null = false
truthy (bool b) = b
truthy (int (pos zero)) = false
truthy (int n) = true
truthy (str s) = not (str_eq s "")
truthy (arr nil) = false
truthy (arr xs) = true
truthy (tup nil) = false
truthy (tup xs) = true
truthy (obj end) = false
truthy (obj fs) = true

-- `value or default`
abbrev pub value_or : Value → Value → Value
value_or v default = if truthy v then v else default

not_applicable : ReceiptState → Option String → String → ReceiptJudgment
not_applicable state verdict reason = record {
  state = state;
  verdict = verdict;
  action = Action.recheck;
  covers = false;
  reason = reason;
}

applicable : String → Action → String → ReceiptJudgment
applicable verdict action reason = record {
  state = ReceiptState.current;
  verdict = some verdict;
  action = action;
  covers = true;
  reason = reason;
}

abbrev pub verdicts : List String
verdicts = "PASS" ∷ "WARN" ∷ "BLOCK" ∷ []

-- The end of `judge`, where the receipt is current.
judge_current : Show → Fields → String → ReceiptJudgment
unfolding applicable
judge_current show fs verdict =
    if str_eq verdict "BLOCK"
    then applicable verdict Action.stop (
        "receipt records a current refusal ("
        ++ text_of show (value_or (get "reason_code" fs) (str "BLOCK"))
        ++ "); stop")
    else if str_eq verdict "WARN"
    then applicable verdict Action.review "receipt records WARN; review or escalate before acting"
    else applicable verdict Action.continue "receipt records PASS; continue"

-- `stale is True`, `stale is not False`, and the rest.
judge_freshness : Show → Fields → String → Value → ReceiptJudgment
unfolding judge_current not_applicable
judge_freshness show fs verdict (bool true) =
    not_applicable ReceiptState.stale (some verdict)
      ("receipt is stale: " ++ text_of show (value_or (get "stale_reason" fs) (str "unknown")))
judge_freshness show fs verdict (bool false) = judge_current show fs verdict
judge_freshness show fs verdict _ =
    not_applicable ReceiptState.invalid (some verdict) "receipt freshness could not be established"

judge_fields : Show → Fields → ReceiptJudgment
unfolding judge_freshness
judge_fields show fs =
    let verdict = text_of show (get "verdict" fs) in
    if not (truthy (get "verdict" fs))
    then not_applicable ReceiptState.absent none "no receipt on this asset"
    else if eq_value (get "attestation" fs) (str "TAMPERED")
    then not_applicable ReceiptState.invalid (some verdict)
        "receipt signature does not cover this body; it is not the engine's"
    else if not (any (str_eq verdict) verdicts)
    then not_applicable ReceiptState.invalid (some verdict)
        ("receipt records an unrecognised verdict (" ++ verdict ++ ")")
    else judge_freshness show fs verdict (get "stale" fs)

unfoldable pub judge : Show → Value → ReceiptJudgment
unfolding judge_fields
judge show (obj fs) = judge_fields show fs
judge show _ = not_applicable ReceiptState.invalid none "receipt could not be read back"

-- The properties of a judgment.
unfoldable pub may_continue : ReceiptJudgment → Bool
may_continue j = elim j.action [ Action.continue ↦ true | _ ↦ false ]

unfoldable pub refused : ReceiptJudgment → Bool
refused j = elim j.action [ Action.stop ↦ true | _ ↦ false ]

abbrev pub action_text : Action → String
action_text Action.continue = "CONTINUE"
action_text Action.review = "REVIEW_OR_ESCALATE"
action_text Action.stop = "STOP"
action_text Action.recheck = "RECHECK"

abbrev verdict_text : Option String → String
verdict_text none = "None"
verdict_text (some v) = v

unfoldable pub label : ReceiptJudgment → String
label j = elim j.state [
  | ReceiptState.current ↦
      "CURRENT RECEIPT · " ++ verdict_text j.verdict ++ " · " ++ action_text j.action
  | _ ↦ "NOT VERIFIED"
]
