-- ===== src/Policy/Engine/Spec.antt =====
-- What `decide` promises, said without its loops: for each piece of evidence the rules that fire,
-- whether matching failed, and what these add to the verdict.
use Prim.Native.String as Text
use sidq.Prelude.{
  String, Bool, true, false, not, ◌&&◌, ◌||◌, Option, none, some, List, [], ◌∷◌, ◌++◌, any, map,
  if◌then◌else◌,
}
use sidq.Models.{Evidence, Severity, Finding}
use sidq.Policy.Condition.{Rule, matches_rule}
use sidq.Policy.Engine.{
  Action, Policy, Format, Formatted, Tally, start, is_block, is_warn, or_else, configured,
}

-- The rules that match, in order, up to the first whose conditions cannot be evaluated.
unfoldable pub fired : List Rule → Evidence → List Rule
fired [] ev = []
fired (r ∷ rs) ev = elim (matches_rule ev r) [
  | none ↦ []
  | some true ↦ r ∷ fired rs ev
  | some false ↦ fired rs ev
]

-- Some rule's conditions could not be evaluated.
unfoldable pub fails : List Rule → Evidence → Bool
fails [] ev = false
fails (r ∷ rs) ev = elim (matches_rule ev r) [ none ↦ true | some _ ↦ fails rs ev ]

abbrev pub is_nil {ℓ} : {A : Type ℓ} → List A → Bool
is_nil [] = true
is_nil (x ∷ xs) = false

-- The message of a rule cannot be rendered, with an exception that `_render` does not catch.
unfoldable pub escapes : Format → Evidence → Rule → Bool
escapes format ev r = elim (format r.message ev) [ Formatted.other_error ↦ true | _ ↦ false ]

-- The message of a rule where no exception escapes.
unfoldable pub message_of : Format → Evidence → Rule → String
message_of format ev r = elim (format r.message ev) [ Formatted.text s ↦ s | _ ↦ r.message ]

unfoldable pub finding_of : Format → Evidence → Rule → Finding
unfolding message_of
finding_of format ev r = record {
  rule_id = r.id;
  severity = r.severity;
  message = message_of format ev r;
  evidence = ev ∷ [];
}

-- The first reason that a blocking rule names.
unfoldable pub first_reason : List Rule → Option String
first_reason [] = none
first_reason (r ∷ rs) =
    or_else (if is_block r.severity then r.reason_code else none) (first_reason rs)

abbrev pub failed_finding : Evidence → Finding
failed_finding ev = record {
  rule_id = "policy_evaluation_failed";
  severity = Severity.block;
  message = Text.◌++◌ "Policy could not safely evaluate evidence kind " (Text.◌++◌ ev.kind ".");
  evidence = ev ∷ [];
}

abbrev pub unverifiable_if : Bool → Option String
unverifiable_if true = some "UNVERIFIABLE_CHANGE"
unverifiable_if false = none

-- Two tallies, one after the other.
abbrev pub join : Tally → Tally → Tally
join t u = record {
  findings = t.findings ++ u.findings;
  reason_code = or_else t.reason_code u.reason_code;
  has_block = t.has_block || u.has_block;
  has_warn = t.has_warn || u.has_warn;
}

-- No rule fires for this evidence, no rule names its kind, and the policy blocks such evidence.
unfoldable pub unhandled : Policy → Evidence → Bool
unfolding fired configured
unhandled p ev =
    is_nil (fired p.rules ev)
    && not (fails p.rules ev)
    && not (configured p ev.kind)
    && elim p.unhandled_evidence [ Action.block ↦ true | Action.info ↦ false ]

-- The finding for evidence that no rule decided.
abbrev pub default_finding : Policy → Evidence → Finding
default_finding p ev =
    if configured p ev.kind
    then record {
      rule_id = "informational";
      severity = Severity.info;
      message = Text.◌++◌ "No policy condition matched evidence kind " (Text.◌++◌ ev.kind ".");
      evidence = ev ∷ [];
    }
    else elim p.unhandled_evidence [
      | Action.block ↦ record {
        rule_id = "unhandled_evidence";
        severity = Severity.block;
        message = Text.◌++◌ "No policy rule handles evidence kind " (Text.◌++◌ ev.kind ".");
        evidence = ev ∷ [];
      }
      | Action.info ↦ record {
        rule_id = "informational";
        severity = Severity.info;
        message = Text.◌++◌ "No policy rule handles evidence kind " (Text.◌++◌ ev.kind ".");
        evidence = ev ∷ [];
      }
    ]

-- What one piece of evidence adds to the verdict.
unfoldable pub item_tally : Format → Policy → Evidence → Tally
unfolding fired fails finding_of first_reason unhandled
item_tally format p ev = record {
  findings =
      map (finding_of format ev) (fired p.rules ev)
      ++ (if fails p.rules ev
          then failed_finding ev ∷ []
          else if is_nil (fired p.rules ev)
          then default_finding p ev ∷ []
          else []);
  reason_code =
      or_else (first_reason (fired p.rules ev))
        (unverifiable_if (fails p.rules ev || unhandled p ev));
  has_block =
      any (λ (r : Rule). is_block r.severity) (fired p.rules ev)
      || (fails p.rules ev || unhandled p ev);
  has_warn = any (λ (r : Rule). is_warn r.severity) (fired p.rules ev);
}

-- Some rule that fires has a message that cannot be rendered.
unfoldable pub raises : Format → Policy → Evidence → Bool
unfolding escapes fired
raises format p ev = any (escapes format ev) (fired p.rules ev)

-- What all the evidence adds.
unfoldable pub total_tally : Format → Policy → List Evidence → Tally
total_tally format p [] = start
total_tally format p (ev ∷ evs) = join (item_tally format p ev) (total_tally format p evs)
