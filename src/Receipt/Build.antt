-- ===== src/Receipt/Build.antt =====
-- A receipt from a verdict, and the properties that carry it (src/sidq/receipt/build.py).
-- The time of checking comes as its text, and the version of the engine as `verifier`.
use sidq.Prelude.{
  String, str_eq, str_le, has_prefix, ends_with, Bool, true, false, not, Option, none, some, List,
  [], ◌∷◌, ◌++◌, map, keep, if◌then◌else◌, ◌≡◌, refl,
}
use sidq.Prelude.Dict.{Dict}
use sidq.Prelude.Sort.{sorted}
use sidq.Models.{Severity, Finding, Decision, Verdict}

pub record Receipt : Type 0 where
  pub urn : String
  pub verdict : String
  pub reason_code : Option String
  pub commit_sha : String
  pub checked_at : String
  pub policy_hash : String
  pub rules_fired : List String
  pub verifier : String
  pub evidence_url : String
  pub evidence : List Finding
  pub context_hash : String
  pub swarm_run : String
  pub worker_id : String
  pub signature : String

abbrev pub decision_text : Decision → String
decision_text Decision.pass = "PASS"
decision_text Decision.warn = "WARN"
decision_text Decision.block = "BLOCK"

-- `"" if text is None else text`, as `text or ""`.
abbrev pub or_blank : Option String → String
or_blank none = ""
or_blank (some s) = s

abbrev pub when_text : String → Dict (List String) → Dict (List String)
when_text s d = if str_eq s "" then [] else d

-- The properties but the signature.
unfoldable pub receipt_body : Receipt → Dict (List String)
receipt_body r =
    ("urn:li:structuredProperty:sidq.verdict", r.verdict ∷ [])
    ∷ ("urn:li:structuredProperty:sidq.reason_code", or_blank r.reason_code ∷ [])
    ∷ ("urn:li:structuredProperty:sidq.commit_sha", r.commit_sha ∷ [])
    ∷ ("urn:li:structuredProperty:sidq.checked_at", r.checked_at ∷ [])
    ∷ ("urn:li:structuredProperty:sidq.policy_hash", r.policy_hash ∷ [])
    ∷ ("urn:li:structuredProperty:sidq.rules_fired", r.rules_fired)
    ∷ ("urn:li:structuredProperty:sidq.verifier", r.verifier ∷ [])
    ∷ ("urn:li:structuredProperty:sidq.evidence_url", r.evidence_url ∷ [])
    ∷ ("urn:li:structuredProperty:sidq.context_hash", r.context_hash ∷ [])
    ∷ when_text r.swarm_run (
        ("urn:li:structuredProperty:sidq.swarm_run", r.swarm_run ∷ [])
        ∷ ("urn:li:structuredProperty:sidq.worker_id", r.worker_id ∷ [])
        ∷ [])

unfoldable pub structured_property_values : Receipt → Dict (List String)
unfolding receipt_body
structured_property_values r =
    receipt_body r
    ++ when_text r.signature (("urn:li:structuredProperty:sidq.signature", r.signature ∷ []) ∷ [])

-- A set of texts, each where it is first met.
unfoldable pub distinct : List String → List String
distinct [] = []
distinct (s ∷ ss) = s ∷ keep (λ t. not (str_eq t s)) (distinct ss)

abbrev counts : Severity → Bool
counts Severity.info = false
counts _ = true

unfoldable pub rules_of : List Finding → List String
unfolding distinct
rules_of findings = sorted str_le (
    distinct
      (map (λ (f : Finding). f.rule_id) (keep (λ (f : Finding). counts f.severity) findings)))

-- The shape of a URN that a receipt may be written to.
unfoldable pub writable : String → Bool
unfolding has_prefix ends_with
writable urn =
    if has_prefix "urn:li:dataset:(urn:li:dataPlatform:" urn then ends_with ")" urn else false

-- `none` is the `ValueError` for a URN of another shape.
unfoldable pub build_receipt :
    String → Verdict → String → String → String → String → String → Option Receipt
build_receipt urn v checked_at verifier evidence_url swarm_run worker_id =
    if writable urn
    then some (record {
      urn = urn;
      verdict = decision_text v.decision;
      reason_code = v.reason_code;
      commit_sha = v.commit_sha;
      checked_at = checked_at;
      policy_hash = v.policy_hash;
      rules_fired = rules_of v.findings;
      verifier = verifier;
      evidence_url = evidence_url;
      evidence = v.findings;
      context_hash = "";
      swarm_run = swarm_run;
      worker_id = worker_id;
      signature = "";
    })
    else none

rules_of_tests :
    rules_of (
      record { rule_id = "b"; severity = Severity.warn; message = ""; evidence = [] }
      ∷ record { rule_id = "a"; severity = Severity.block; message = ""; evidence = [] }
      ∷ record { rule_id = "c"; severity = Severity.info; message = ""; evidence = [] }
      ∷ record { rule_id = "b"; severity = Severity.warn; message = ""; evidence = [] }
      ∷ [])
    ≡ "a" ∷ "b" ∷ []
unfolding rules_of sorted
rules_of_tests = refl

writable_tests :
    (writable "urn:li:dataset:(urn:li:dataPlatform:postgres,db.orders,PROD)" ≡ true)
    × (writable "urn:li:corpuser:(urn:li:dataPlatform:x)" ≡ false)
unfolding writable
writable_tests = (refl, refl)
