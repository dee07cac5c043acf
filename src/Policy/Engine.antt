-- ===== src/Policy/Engine.antt =====
-- `PolicyEngine.decide`. `Format` is Python's `str.format` on a message of a rule: it gives a text,
-- raises one of the lookup errors that `_render` catches, or raises what nothing here catches.
pub mod Spec
pub mod Rounds
pub mod Refines
pub mod Accounting
pub mod Order
mod Tests
use sidq.Prelude.{
  String, str_eq, Bool, true, false, ◌||◌, Option, none, some, List, [], ◌∷◌, ◌++◌, any,
  if◌then◌else◌,
}
use Prim.Native.String as Text
use sidq.Models.{Evidence, TouchedAsset, Severity, Finding, Decision, Verdict}
use sidq.Policy.Condition.{Rule, matches_rule}

pub data Action : Type 0 where
  block info : Action

pub record Policy : Type 0 where
  pub rules : List Rule
  pub policy_hash : String
  pub unhandled_evidence : Action

pub data Formatted : Type 0 where
  text : String → Formatted
  lookup_error : Formatted
  other_error : Formatted

abbrev pub Format : Type 0
Format = String → Evidence → Formatted

-- `_render`; `none` is an exception that escapes.
unfoldable pub render : Format → Rule → Evidence → Option String
render format r ev = elim (format r.message ev) [
  | Formatted.text s ↦ some s
  | Formatted.lookup_error ↦ some r.message
  | Formatted.other_error ↦ none
]

-- The locals of `decide` that outlive a round: `findings`, `reason_code`, `has_block`, `has_warn`.
pub record Tally : Type 0 where
  pub findings : List Finding
  pub reason_code : Option String
  pub has_block : Bool
  pub has_warn : Bool

abbrev pub start : Tally
start = record { findings = []; reason_code = none; has_block = false; has_warn = false }

abbrev pub or_else : Option String → Option String → Option String
or_else none later = later
or_else (some code) later = some code

-- A finding that blocks with no rule to name its reason.
unverifiable : String → String → Evidence → Tally → Tally
unverifiable id message ev t = record {
  findings =
      t.findings
      ++ record { rule_id = id; severity = Severity.block; message = message; evidence = ev ∷ [] }
        ∷ [];
  reason_code = or_else t.reason_code (some "UNVERIFIABLE_CHANGE");
  has_block = true;
  has_warn = t.has_warn;
}

informational : String → Evidence → Tally → Tally
informational message ev t = record t {
  findings =
      t.findings
      ++ record {
        rule_id = "informational";
        severity = Severity.info;
        message = message;
        evidence = ev ∷ [];
      }
        ∷ [];
}

abbrev pub is_block : Severity → Bool
is_block Severity.block = true
is_block _ = false

abbrev pub is_warn : Severity → Bool
is_warn Severity.warn = true
is_warn _ = false

-- A rule that matched, with its rendered message.
matched : Rule → String → Evidence → Tally → Tally
matched r message ev t = record {
  findings =
      t.findings
      ++ record { rule_id = r.id; severity = r.severity; message = message; evidence = ev ∷ [] }
        ∷ [];
  reason_code = if is_block r.severity then or_else t.reason_code r.reason_code else t.reason_code;
  has_block = t.has_block || is_block r.severity;
  has_warn = t.has_warn || is_warn r.severity;
}

-- The inner loop, over the rules that are left: the tally and `found_match` at its end.
pub scan : Format → List Rule → Evidence → Bool → Tally → Option (Tally × Bool)
unfolding matched unverifiable
scan format [] ev found t = some (t, found)
scan format (r ∷ rs) ev found t = elim (matches_rule ev r) [
  | none ↦ some (
    unverifiable "policy_evaluation_failed"
        (Text.◌++◌ "Policy could not safely evaluate evidence kind " (Text.◌++◌ ev.kind ".")) ev t,
    true,
  )
  | some false ↦ scan format rs ev found t
  | some true ↦ elim (render format r ev) [
    | none ↦ none
    | some message ↦ scan format rs ev true (matched r message ev t)
  ]
]

-- `item.kind in configured_kinds`
unfoldable pub configured : Policy → String → Bool
configured p kind = any (λ (r : Rule). str_eq r.evidence_kind kind) p.rules

-- What `decide` does where no rule matched.
unmatched : Policy → Evidence → Tally → Tally
unfolding configured unverifiable informational
unmatched p ev t =
    if configured p ev.kind
    then informational
        (Text.◌++◌ "No policy condition matched evidence kind " (Text.◌++◌ ev.kind ".")) ev t
    else elim p.unhandled_evidence [
      | Action.block ↦
          unverifiable "unhandled_evidence"
            (Text.◌++◌ "No policy rule handles evidence kind " (Text.◌++◌ ev.kind ".")) ev t
      | Action.info ↦
          informational (Text.◌++◌ "No policy rule handles evidence kind " (Text.◌++◌ ev.kind "."))
            ev t
    ]

-- One round of the outer loop.
pub consider : Format → Policy → Evidence → Tally → Option Tally
unfolding unmatched
consider format p ev t = elim (scan format p.rules ev false t) [
  | none ↦ none
  | some (t', true) ↦ some t'
  | some (t', false) ↦ some (unmatched p ev t')
]

unfoldable pub consider_all : Format → Policy → List Evidence → Tally → Option Tally
consider_all format p [] t = some t
consider_all format p (ev ∷ evs) t = elim (consider format p ev t) [
  | none ↦ none
  | some t' ↦ consider_all format p evs t'
]

abbrev pub decision_of : Bool → Bool → Decision
decision_of has_block has_warn =
    if has_block then Decision.block else if has_warn then Decision.warn else Decision.pass

unfoldable pub decide :
    Format → Policy → List Evidence → List TouchedAsset → String → Option Verdict
decide format p evs touched commit_sha = elim (consider_all format p evs start) [
  | none ↦ none
  | some t ↦ some (record {
    decision = decision_of t.has_block t.has_warn;
    reason_code = t.reason_code;
    findings = t.findings;
    touched = touched;
    commit_sha = commit_sha;
    policy_hash = p.policy_hash;
  })
]
