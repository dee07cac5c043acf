-- ===== src/Receipt/Write/Tests.antt =====
-- A receipt written to a small catalog.
use sidq.Prelude.{
  ℕ, ◌+◌, String, Bool, true, false, none, List, [], ◌∷◌, ◌≡◌, refl, arith, All, has_prefix,
  remove_prefix,
}
use sidq.Prelude.Dict.{Dict, lookup, insert}
use sidq.Value.{
  Value, null, str, arr, obj, field, end, Items, nil, cons, strings, eq_value, get_key, items_of,
}
use sidq.Receipt.State.{Show, get, truthy}
use sidq.Receipt.Build.{Receipt, receipt_body, structured_property_values}
use sidq.Receipt.Badges.{managed_badge_state, direct_urns, tag_surface_urns, text_urn, wrap_surface}
use sidq.Receipt.Effects.{
  Call, get_entities, save_document, add_tags, remove_tags, add_structured_properties,
  remove_structured_properties, ok, Service, Keeps, ◌>>=◌, pure, raise,
}
use sidq.Receipt.Read.{
  single_entity, sequence, sidq_values, find_entity, mapping_entity, sequence_entity,
}
use sidq.Receipt.Confirm.{
  confirm_receipt_readback, agrees, badge_of, confirmation_call, expected_values, late_read,
  read_back, same_at, same_values, shows_receipt, sorted_at, texts_eq,
}
use sidq.Receipt.Confirm.Ends.{Runs}
use sidq.Prelude.Sets.{distinct, member}
use sidq.Prelude.Sort.{sorted}
use sidq.Catalog.Checks.Columns.{is_empty_list}
use sidq.Receipt.Write.{
  Host, unsigned, Outcome, write_receipt, attempt_of, change_badges, change_properties,
  document_reference, finish, has_name, key_error, only_if, prepare, publish, publish_prepared,
  read_attempts, returned, badged, save_evidence, settle, sign_with, stale_swarm,
}
use sidq.Receipt.Write.Confirmed.{WellEnded, write_receipt-WellEnded}
use sidq.Receipt.Write.Permitted.{Permitted, Preserves}
use sidq.Receipt.Write.Safe.{write_receipt-Keeps}

abbrev orders : String
orders = "urn:li:dataset:(urn:li:dataPlatform:postgres,orders,PROD)"

abbrev receipt : Receipt
receipt = record {
  urn = orders;
  verdict = "PASS";
  reason_code = none;
  commit_sha = "c";
  checked_at = "2026-01-01T00:00:00Z";
  policy_hash = "p";
  rules_fired = [];
  verifier = "sidq";
  evidence_url = "";
  evidence = [];
  context_hash = "";
  swarm_run = "";
  worker_id = "";
  signature = "";
}

abbrev final : Receipt
final = record receipt { evidence_url = "urn:li:document:1"; context_hash = "h" }

assignments : Dict (List String) → Items
assignments [] = nil
assignments ((urn, values) ∷ rest) =
    cons (obj (field "propertyUrn" (str urn) (field "values" (arr (strings values)) end)))
      (assignments rest)

-- The entity with the receipt on it.
abbrev entity : Value
entity = obj (
    field "urn" (str orders) (
      field "tags" (arr (cons (str "urn:li:tag:sidq:verified") nil))
        (field "structuredProperties" (arr (assignments (structured_property_values final))) end)))

-- What the catalog answers to a call.
abbrev answer : Call → Value
answer (get_entities urns) = arr (cons (obj (field "urn" (str orders) end)) nil)
answer (save_document kind title content assets) = obj (field "urn" (str "urn:li:document:1") end)
answer (add_tags tags urns) = null
answer (remove_tags tags urns) = null
answer (add_structured_properties values urns) = null
answer (remove_structured_properties urns entities) = null

-- The world is its clock; the receipt is visible in the first readback.
abbrev service : Service ℕ
service = record {
  call = λ c n. (ok (answer c), n);
  call_within = λ c d n. (ok (arr (cons entity nil)), n + 1);
  context_hash = λ urn fields n. (ok "h", n);
  monotonic = λ n. (n, n);
  sleep = λ d n. n + d;
}

abbrev show : Show
show v = "?"

abbrev host : Host
host = record { signing = unsigned; markdown = λ r. "#"; has_space = λ s. false }

abbrev clock : ℕ → ℕ
clock n = n

service-Runs : Runs service clock
service-Runs = record {
  shows = λ w. omega arith;
  shown = λ w. omega arith;
  sleeps = λ d w. omega arith;
  reads = λ c d w. omega arith;
}

abbrev is_written : Outcome → Bool
is_written (Outcome.written p published) = true
is_written (Outcome.failed error errors) = false
is_written Outcome.running = false

-- The write succeeds at the first readback.
succeeds : is_written (write_receipt service show host receipt 1 0 100 1000 5).0 ≡ true
unfolding write_receipt ◌>>=◌ managed_badge_state get single_entity sequence eq_value has_prefix
    remove_prefix pure lookup sidq_values is_empty_list sorted distinct confirm_receipt_readback
    assignments structured_property_values insert member direct_urns tag_surface_urns text_urn
    wrap_surface receipt_body agrees badge_of confirmation_call expected_values late_read read_back
    same_at same_values shows_receipt sorted_at texts_eq raise find_entity mapping_entity
    sequence_entity truthy attempt_of change_badges change_properties document_reference finish
    badged has_name key_error only_if prepare publish publish_prepared read_attempts returned
    save_evidence settle sign_with stale_swarm get_key items_of strings
succeeds = refl

write_receipt-WellEnded_example :
    WellEnded service show host receipt
      (write_receipt service show host receipt 301 300 100 1000 5).0
write_receipt-WellEnded_example =
    write_receipt-WellEnded service show host clock receipt 300 100 1000 5 service-Runs

-- The world is the list of the calls so far.
abbrev logging : Service (List Call)
logging = record {
  call = λ c log. (ok (answer c), c ∷ log);
  call_within = λ c d log. (ok (arr (cons entity nil)), c ∷ log);
  context_hash = λ urn fields log. (ok "h", log);
  monotonic = λ log. (0, log);
  sleep = λ d log. log;
}

abbrev Logged : List Call → Type 0
Logged log = All (Permitted orders) log

logging-Preserves : Preserves logging Logged orders
unfolding Keeps Permitted
logging-Preserves = record {
  calls = λ c q log h. (q, h);
  reads = λ d log h. (refl, h);
  contexts = λ fields log h. h;
  clocks = λ log h. h;
  sleeps = λ d log h. h;
}

write_receipt-Keeps_example : Logged (write_receipt logging show host receipt 301 300 100 1000 []).1
write_receipt-Keeps_example =
    write_receipt-Keeps logging show host Logged receipt 301 300 100 1000 [] logging-Preserves tt
