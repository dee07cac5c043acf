-- ===== src/Receipt/RoundTrip.antt =====
-- A receipt that is written and read back says what the engine decided.
use Prim.Native.String.{◌++◌ as append}
use text.Mathlib.TextLemmas.{append_cancel_left}
use sidq.Prelude.{
  ℕ, ◌+◌, ◌≤◌, String, str_eq, str_eq_iff, true, false, Option, none, some, List, [], ◌∷◌, map, ◌≡◌,
  ◌≢◌, inl, inr, refl, arith, ap, sym, any, ◌∙◌, ◌++◌, Bool-cases, Option-cases, str_eq_refl,
}
use sidq.Prelude.Dict.{Dict, lookup}
use sidq.Value.{str, bool, obj, Fields, eq_value}
use sidq.Models.{Decision, Verdict}
use sidq.Receipt.State.{Show, text_of, get, truthy, judge, verdicts}
use sidq.Receipt.State.Axes.{action_for, judge_of_current}
use sidq.Receipt.Attestation.{Crypto, attest_absent, signature_property}
use sidq.Receipt.Freshness.{Calendar, parse_iso, staleness, staleness-IsFresh}
use sidq.Receipt.Build.{
  Receipt, when_text, structured_property_values, build_receipt, decision_text,
}
use sidq.Receipt.Read.{
  sidq_values, one, Reader, recorded_of, status_of, property_prefix, with_prefix,
}

str_eq-append : (p a b : String) → str_eq (append p a) (append p b) ≡ str_eq a b
str_eq-append p a b = elim (Bool-cases (str_eq a b)) [
  | inl e ↦ rw ((str_eq_iff a b).0 e) (str_eq_refl (append p b) ∙ sym (str_eq_refl b))
  | inr e ↦
      ground (arith, str_eq_iff (append p a) (append p b), append_cancel_left p a b, str_eq_iff a b)
]

pub lookup-with_prefix :
    (name : String) (values : Dict (List String))
    → lookup (append property_prefix name) (map with_prefix values) ≡ lookup name values
unfolding lookup
lookup-with_prefix name [] = refl
lookup-with_prefix name ((k, vs) ∷ rest) =
    rw (str_eq-append property_prefix k name) (rw (lookup-with_prefix name rest))

-- The catalog returns under each name what was written under it.
abbrev pub Stores : Show → Fields → Receipt → Type 0
Stores show entity r =
    (name : String)
    → lookup name (sidq_values show entity)
      ≡ lookup (append property_prefix name) (structured_property_values r)

-- What the reader must find for a receipt checked at `checked` in the context `context`.
pub record Applies (calendar : Calendar) (reader : Reader) (checked_at : String)
    (policy_hash context : String) : Type 0 where
  pub checked : ℕ
  pub read : parse_iso calendar (some checked_at) ≡ some checked
  pub young : reader.now ≤ checked + reader.max_age
  pub schema_unmoved : (m : ℕ) → reader.schema_modified_at ≡ some m → m ≤ checked
  pub same_policy : (h : String) → reader.current_policy ≡ some h → policy_hash ≡ h
  pub has_context : context ≢ ""
  pub same_context : reader.current_context ≡ some context

known_decision : (d : Decision) → any (str_eq (decision_text d)) verdicts ≡ true
known_decision Decision.pass = refl
known_decision Decision.warn = refl
known_decision Decision.block = refl

unsigned_end :
    (swarm_run worker_id : String)
    → lookup signature_property (
        when_text swarm_run (
          ("urn:li:structuredProperty:sidq.swarm_run", swarm_run ∷ [])
          ∷ ("urn:li:structuredProperty:sidq.worker_id", worker_id ∷ [])
          ∷ [])
        ++ [])
      ≡ none
unfolding lookup
unsigned_end swarm_run worker_id = elim (Bool-cases (str_eq swarm_run "")) [
  | inl e ↦ rw e
  | inr e ↦ rw e
]

unsigned_body :
    (r : Receipt)
    → r.signature ≡ ""
    → lookup signature_property (structured_property_values r) ≡ none
unfolding lookup structured_property_values
unsigned_body r h = rw h (unsigned_end r.swarm_run r.worker_id)

truthy_decision : (d : Decision) → truthy (str (decision_text d)) ≡ true
unfolding truthy
truthy_decision Decision.pass = refl
truthy_decision Decision.warn = refl
truthy_decision Decision.block = refl

-- What a receipt holds when it has been built and bound to a context.
record IsBuilt (v : Verdict) (checked_at context : String) (r : Receipt) : Type 0 where
  verdict_eq : r.verdict ≡ decision_text v.decision
  checked_eq : r.checked_at ≡ checked_at
  policy_eq : r.policy_hash ≡ v.policy_hash
  context_eq : r.context_hash ≡ context
  unsigned : r.signature ≡ ""

build-IsBuilt :
    (urn : String) (v : Verdict)
    (checked_at verifier evidence_url swarm_run worker_id context : String) {r : Receipt}
    → build_receipt urn v checked_at verifier evidence_url swarm_run worker_id ≡ some r
    → IsBuilt v checked_at context (record r { context_hash = context })
unfolding build_receipt
build-IsBuilt urn v checked_at verifier evidence_url swarm_run worker_id context b = ground arith

module _ (show : Show) (entity : Fields) (r : Receipt) (stores : Stores show entity r) where
  stored_verdict : one (sidq_values show entity) "verdict" ≡ some r.verdict
  unfolding lookup structured_property_values one
  stored_verdict = rw (stores "verdict")

  stored_checked : one (sidq_values show entity) "checked_at" ≡ some r.checked_at
  unfolding lookup structured_property_values one
  stored_checked = rw (stores "checked_at")

  stored_policy : one (sidq_values show entity) "policy_hash" ≡ some r.policy_hash
  unfolding lookup structured_property_values one
  stored_policy = rw (stores "policy_hash")

  stored_context : one (sidq_values show entity) "context_hash" ≡ some r.context_hash
  unfolding lookup structured_property_values one
  stored_context = rw (stores "context_hash")

  stored_signature :
      r.signature ≡ ""
      → lookup signature_property (map with_prefix (sidq_values show entity)) ≡ none
  stored_signature h =
      lookup-with_prefix "signature" (sidq_values show entity)
      ∙ stores "signature"
      ∙ unsigned_body r h

  stored-IsFresh :
      (calendar : Calendar) (reader : Reader) (v : Verdict) (checked_at context : String)
      → IsBuilt v checked_at context r
      → Applies calendar reader checked_at v.policy_hash context
      → (staleness calendar (recorded_of calendar reader entity (sidq_values show entity))).0
        ≡ false
  unfolding recorded_of
  stored-IsFresh calendar reader v checked_at context built ok =
      (staleness-IsFresh calendar (recorded_of calendar reader entity (sidq_values show entity))).1
        (
          ok.checked,
          record {
            read = rw (stored_checked, built.checked_eq) ok.read;
            same_policy = λ h e. stored_policy ∙ ap some (built.policy_eq ∙ ok.same_policy h e);
            schema_unmoved = λ m e. elim (Option-cases reader.schema_modified_at) [
              | inr (t, k) ↦ ok.schema_unmoved m (ground (arith, k, e))
              | inl k ↦
                  let given = str_eq_iff context "" in
                  absurd
                    (ground (arith, k, e, stored_context, built.context_eq, given, ok.has_context))
            ];
            young = ok.young;
            has_context = λ e. ok.has_context (cc (stored_context, built.context_eq));
            same_context = (context, stored_context ∙ ap some built.context_eq, ok.same_context);
          },
        )

module _ (c : Crypto) (calendar : Calendar) (show : Show) (key : Option (c.PublicKey))
    (reader : Reader) (entity : Fields) where
  -- An unsigned receipt, built from a verdict, bound to a decision context, stored by the
  -- catalog and read back under the same policy and context before it is too old and without a
  -- later change of the schema that the reader brings, covers its asset, names the decision of
  -- the engine, and authorizes what that decision allows.
  pub build_read :
      (urn : String) (v : Verdict)
      (checked_at verifier evidence_url swarm_run worker_id context : String) {r : Receipt}
      → build_receipt urn v checked_at verifier evidence_url swarm_run worker_id ≡ some r
      → Stores show entity (record r { context_hash = context })
      → Applies calendar reader checked_at v.policy_hash context
      → let j = judge show (obj (status_of c calendar show key reader urn entity)) in
        (j.covers ≡ true)
        × (j.verdict ≡ some (decision_text v.decision))
        × (j.action ≡ action_for (decision_text v.decision))
  unfolding status_of get text_of eq_value
  build_read urn v checked_at verifier evidence_url swarm_run worker_id context {r} b stores ok =
      let bound : Receipt = record r { context_hash = context } in
      let built =
        build-IsBuilt urn v checked_at verifier evidence_url swarm_run worker_id context b in
      let recorded = stored_verdict show entity bound stores ∙ ap some built.verdict_eq in
      judge_of_current show (status_of c calendar show key reader urn entity)
        (decision_text v.decision) (rw recorded (truthy_decision v.decision)) (rw recorded refl)
        (known_decision v.decision)
        (rw
          (attest_absent c urn (map with_prefix (sidq_values show entity)) key
            (stored_signature show entity bound stores built.unsigned))
          refl)
        (ap bool
          (stored-IsFresh show entity bound stores calendar reader v checked_at context built ok))
