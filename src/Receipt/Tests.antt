-- ===== src/Receipt/Tests.antt =====
-- Receipts at concrete inputs, with a toy signature scheme in place of Ed25519.

use Prim.Native.Char.{char}
use text.Mathlib.TextLemmas.{cons≢nil}
use text.Mathlib.TextPositions.{eq_refl}
use sidq.Prelude.{
  ℕ, String, str_eq, str_eq_iff, true, false, Option, none, some, List, [], ◌∷◌, map, ◌≡◌, ◌≢◌, ◌↔◌,
  refl, arith, sym,
}
use sidq.Prelude.Dict.{Dict, lookup}
use sidq.Prelude.Sort.{sorted}
use sidq.Value.{Value, null, bool, str, arr, obj, Items, nil, cons, Fields, end, field, eq_value}
use sidq.Models.{Decision, Verdict}
use sidq.Receipt.State.{
  ReceiptState, Action, Show, text_of, get, truthy, judge, may_continue, label,
}
use sidq.Receipt.State.Axes.{IsConsistent, Authorizes, judge_continue, action_for}
use sidq.Receipt.Attestation.{
  Attestation, Crypto, attest, sign, with_signature, attest-sign, attest_signed, signature_property,
  IsGenuine,
}
use sidq.Receipt.Freshness.{Calendar, parse_iso, staleness, IsFresh, staleness-IsFresh}
use sidq.Receipt.Build.{Receipt, structured_property_values, build_receipt, writable, rules_of}
use sidq.Receipt.Read.{sidq_values, one, Reader, recorded_of, status_of, with_prefix}
use sidq.Receipt.Verify.{status_of_continue}
use sidq.Receipt.RoundTrip.{Stores, Applies, lookup-with_prefix, build_read}

abbrev drop_first : String → Option String
drop_first String.[] = none
drop_first (String.◌∷◌ c s) = some s

-- The signature of a message is the message, and the encoding puts one character in front.
abbrev toy : Crypto
toy = record {
  Bytes = String;
  PrivateKey = Unit {0};
  PublicKey = Unit {0};
  public_of = λ k. k;
  sign_bytes = λ k m. m;
  verifies = λ k s m. str_eq s m;
  encode = λ b. String.◌∷◌ (char 120 tt) b;
  decode = λ s. drop_first s;
  dumps = λ urn body. urn;
  decode-encode = λ b. refl;
  encode-ne-empty = λ b. cons≢nil;
  verifies-sign = λ k m. eq_refl m;
}

abbrev show : Show
show v = "?"

abbrev forged_pass : Value
forged_pass = obj (
    field "verdict" (str "PASS")
      (field "attestation" (str "TAMPERED") (field "stale" (bool false) end)))

abbrev genuine_pass : Value
genuine_pass = obj (field "verdict" (str "PASS") (field "stale" (bool false) end))

abbrev unmarked_block : Value
unmarked_block = obj (field "verdict" (str "BLOCK") (field "stale" null end))

judge_tests :
    ((judge show forged_pass).state ≡ ReceiptState.invalid)
    × ((judge show genuine_pass).action ≡ Action.continue)
    × ((judge show unmarked_block).state ≡ ReceiptState.invalid)
    × (label (judge show genuine_pass) ≡ "CURRENT RECEIPT · PASS · CONTINUE")
unfolding judge label get truthy text_of eq_value
judge_tests = (refl, refl, refl, refl)

judge_continue_example :
    ((may_continue (judge show genuine_pass) ≡ true) ↔ Authorizes show genuine_pass)
    × IsConsistent (judge show genuine_pass)
judge_continue_example = judge_continue show genuine_pass

-- Every text is read as one moment here.
abbrev calendar : Calendar
calendar = record { from_iso = λ s. some 1000; from_millis = λ n. 0 }

abbrev orders : String
orders = "urn:li:dataset:(urn:li:dataPlatform:postgres,db.orders,PROD)"

abbrev verdict : Verdict
verdict = record {
  decision = Decision.warn;
  reason_code = none;
  findings = [];
  touched = [];
  commit_sha = "c0ffee";
  policy_hash = "ab12";
}

abbrev written : Receipt
written = record {
  urn = orders;
  verdict = "WARN";
  reason_code = none;
  commit_sha = "c0ffee";
  checked_at = "2026-01-01T00:00:00Z";
  policy_hash = "ab12";
  rules_fired = [];
  verifier = "sidq";
  evidence_url = "";
  evidence = [];
  context_hash = "";
  swarm_run = "";
  worker_id = "";
  signature = "";
}

written_built : build_receipt orders verdict "2026-01-01T00:00:00Z" "sidq" "" "" "" ≡ some written
unfolding build_receipt writable rules_of sorted
written_built = refl

abbrev text_values : List String → Items
text_values [] = nil
text_values (v ∷ vs) = cons (obj (field "stringValue" (str v) end)) (text_values vs)

abbrev assignments : Dict (List String) → Items
assignments [] = nil
assignments ((k, vs) ∷ rest) =
    cons (obj (field "structuredPropertyUrn" (str k) (field "values" (arr (text_values vs)) end)))
      (assignments rest)

-- The catalog's answer for an asset with these properties.
abbrev entity_with : String → Dict (List String) → Fields
entity_with urn values =
    field "urn" (str urn)
      (field "structuredProperties" (obj (field "properties" (arr (assignments values)) end)) end)

abbrev bound : Receipt
bound = record written { context_hash = "sha256:77" }

abbrev names : Dict (List String)
names =
    ("verdict", "WARN" ∷ [])
    ∷ ("reason_code", "" ∷ [])
    ∷ ("commit_sha", "c0ffee" ∷ [])
    ∷ ("checked_at", "2026-01-01T00:00:00Z" ∷ [])
    ∷ ("policy_hash", "ab12" ∷ [])
    ∷ ("rules_fired", [])
    ∷ ("verifier", "sidq" ∷ [])
    ∷ ("evidence_url", "" ∷ [])
    ∷ ("context_hash", "sha256:77" ∷ [])
    ∷ []

abbrev stored : Fields
stored = entity_with orders (map with_prefix names)

names_read : sidq_values show stored ≡ names
unfolding sidq_values
names_read = refl

names_written : map with_prefix names ≡ structured_property_values bound
unfolding structured_property_values
names_written = refl

bound-Stores : Stores show stored bound
bound-Stores name = rw (names_read, ← names_written) (sym (lookup-with_prefix name names))

abbrev reader : Reader
reader = record {
  current_policy = some "ab12";
  current_context = some "sha256:77";
  max_age = 500;
  now = 1200;
  schema_modified_at = some 900;
}

reader-Applies : Applies calendar reader "2026-01-01T00:00:00Z" "ab12" "sha256:77"
unfolding parse_iso
reader-Applies = record {
  checked = 1000;
  read = refl;
  young = omega arith;
  schema_unmoved = λ m e. ground (arith, e);
  same_policy = λ h e. cc;
  has_context = λ e. ground (arith, str_eq_iff "sha256:77" "");
  same_context = refl;
}

build_read_example :
    let j = judge show (obj (status_of toy calendar show none reader orders stored)) in
    (j.covers ≡ true) × (j.verdict ≡ some "WARN") × (j.action ≡ action_for "WARN")
build_read_example =
    build_read toy calendar show none reader stored orders verdict "2026-01-01T00:00:00Z" "sidq" ""
      "" "" "sha256:77" written_built bound-Stores reader-Applies

staleness-IsFresh_example :
    let r = recorded_of calendar reader stored (sidq_values show stored) in
    ((staleness calendar r).0 ≡ false) ↔ ((checked : ℕ) × IsFresh calendar r checked)
staleness-IsFresh_example =
    staleness-IsFresh calendar (recorded_of calendar reader stored (sidq_values show stored))

abbrev passing : Fields
passing = entity_with orders (
    map with_prefix (
      ("verdict", "PASS" ∷ [])
      ∷ ("checked_at", "2026-01-01T00:00:00Z" ∷ [])
      ∷ ("policy_hash", "ab12" ∷ [])
      ∷ ("context_hash", "sha256:77" ∷ [])
      ∷ []))

passing_continues :
    may_continue (judge show (obj (status_of toy calendar show none reader orders passing))) ≡ true
unfolding judge status_of may_continue get truthy text_of eq_value sidq_values attest staleness
    recorded_of parse_iso lookup one
passing_continues = refl

status_of_continue_example :
    (one (sidq_values show passing) "verdict" ≡ some "PASS")
    × (attest toy orders (map with_prefix (sidq_values show passing)) none ≢ Attestation.tampered)
    × (checked : ℕ) × IsFresh calendar
        (recorded_of calendar reader passing (sidq_values show passing))
        checked
status_of_continue_example =
    status_of_continue toy calendar show none reader orders passing passing_continues

abbrev body : Dict (List String)
body = map with_prefix names

attest-sign_example :
    attest toy orders (with_signature toy body (sign toy orders body tt)) (some tt)
    ≡ Attestation.signed
unfolding lookup
attest-sign_example = attest-sign toy orders body tt refl

attest_signed_example :
    (signature : String) × (lookup signature_property
        (with_signature toy body (sign toy orders body tt))
      ≡ some (signature ∷ []))
    × IsGenuine toy orders (with_signature toy body (sign toy orders body tt)) (some tt) signature
attest_signed_example =
    attest_signed toy orders (with_signature toy body (sign toy orders body tt)) (some tt)
      attest-sign_example
