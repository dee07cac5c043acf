-- ===== src/Receipt/Read.antt =====
-- A receipt read back from the catalog (`_single_entity`, `_sidq_values`, `_one`, `_status_of` of
-- src/sidq/receipt/read.py). `show` is Python's `str` on a value that is no text.
use Prim.Native.String.{◌++◌}
use sidq.Prelude.{
  ℕ, String, str_eq, has_prefix, remove_prefix, Bool, false, not, Option, none, some, List, [], ◌∷◌,
  map, if◌then◌else◌,
}
use sidq.Prelude.Dict.{Dict, lookup, insert}
use sidq.Value.{
  Value, null, bool, str, arr, tup, obj, nil, Fields, end, field, get_key, eq_value, items_of,
  strings,
}
use sidq.Receipt.State.{Show, text_of, get, truthy, value_or}
use sidq.Receipt.Attestation.{Attestation, Crypto, attest}
use sidq.Receipt.Freshness.{Calendar, Recorded, staleness, schema_modified_at}

-- The elements of a list or a tuple; a text, like any other value, is no sequence here.
unfoldable pub sequence : Value → Option (List Value)
unfolding items_of
sequence (arr xs) = some (items_of xs)
sequence (tup xs) = some (items_of xs)
sequence _ = none

-- The loop of `_single_entity`.
unfoldable pub find_entity : String → List Value → Fields
find_entity urn [] = end
find_entity urn (obj fs ∷ rest) =
    let later = find_entity urn rest in if eq_value (get "urn" fs) (str urn) then fs else later
find_entity urn (_ ∷ rest) = find_entity urn rest

unfoldable pub sequence_entity : String → Option (List Value) → Fields
unfolding find_entity
sequence_entity urn none = end
sequence_entity urn (some items) = find_entity urn items

unfoldable pub mapping_entity : String → Fields → Option (List Value) → Fields
unfolding sequence_entity
mapping_entity urn raw (some items) = sequence_entity urn (some items)
mapping_entity urn raw none = if eq_value (get "urn" raw) (str urn) then raw else end

unfoldable pub single_entity : Value → String → Fields
unfolding mapping_entity
single_entity (obj raw) urn =
    mapping_entity urn raw (sequence (value_or (get "entities" raw) (get "result" raw)))
single_entity raw urn = sequence_entity urn (sequence raw)

-- `mapping.get(key, default)`
abbrev get_or : String → Fields → Value → Value
get_or key fs default = elim (get_key key fs) [ none ↦ default | some v ↦ v ]

-- The value of one entry of `values`.
unfoldable pub entry_value : Value → Value
unfolding get get_key
entry_value (obj fs) = get_or "stringValue" fs (get_or "value" fs (get "numberValue" fs))
entry_value v = v

pub parse_entries : Show → List Value → List String
unfolding entry_value text_of
parse_entries show [] = []
parse_entries show (v ∷ vs) =
    let rest = parse_entries show vs in
    elim (entry_value v) [ null ↦ rest | other ↦ text_of show other ∷ rest ]

abbrev one_or_all : Value → Option (List Value) → List Value
one_or_all raw none = raw ∷ []
one_or_all raw (some items) = items

-- `assignment.get("structuredPropertyUrn") or assignment.get("propertyUrn")`, else the nested URN.
property_urn : Fields → Value
unfolding truthy get
property_urn assignment =
    let direct = value_or (get "structuredPropertyUrn" assignment) (get "propertyUrn" assignment) in
    if truthy direct
    then direct
    else elim (get "structuredProperty" assignment) [ obj nested ↦ get "urn" nested | _ ↦ direct ]

abbrev pub property_prefix : String
property_prefix = "urn:li:structuredProperty:sidq."

pub assignment_values : Fields → List Value
unfolding truthy get sequence
assignment_values assignment =
    let raw = value_or (value_or (get "values" assignment) (get "value" assignment)) (arr nil) in
    one_or_all raw (sequence raw)

add_named : Show → Fields → Value → Dict (List String) → Dict (List String)
unfolding parse_entries assignment_values insert has_prefix remove_prefix
add_named show assignment (str urn) values =
    if has_prefix property_prefix urn
    then insert (remove_prefix property_prefix urn)
        (parse_entries show (assignment_values assignment)) values
    else values
add_named show assignment _ values = values

add_assignment : Show → Value → Dict (List String) → Dict (List String)
unfolding add_named property_urn
add_assignment show (obj assignment) values =
    add_named show assignment (property_urn assignment) values
add_assignment show _ values = values

add_assignments : Show → List Value → Dict (List String) → Dict (List String)
unfolding add_assignment
add_assignments show [] values = values
add_assignments show (a ∷ rest) values = add_assignments show rest (add_assignment show a values)

-- `assignments.get("properties") or assignments.get("structuredProperties") or []`
assignment_list : Value → Value
unfolding truthy get
assignment_list (obj fs) =
    value_or (value_or (get "properties" fs) (get "structuredProperties" fs)) (arr nil)
assignment_list v = v

unfoldable pub sidq_values : Show → Fields → Dict (List String)
unfolding add_assignments assignment_list
sidq_values show entity =
    let assignments = assignment_list (
      value_or (value_or (get "structuredProperties" entity) (get "structured_properties" entity))
        (obj end)) in
    elim (sequence assignments) [ none ↦ [] | some items ↦ add_assignments show items [] ]

abbrev first : Option (List String) → Option String
first (some (v ∷ vs)) = some v
first _ = none

-- `_one`
unfoldable pub one : Dict (List String) → String → Option String
one values name = first (lookup name values)

abbrev pub text_or_null : Option String → Value
text_or_null none = null
text_or_null (some s) = str s

-- `_one(values, "reason_code") or None`
abbrev nonempty_or_null : Option String → Value
nonempty_or_null none = null
nonempty_or_null (some s) = if str_eq s "" then null else str s

abbrev list_or_empty : Option (List String) → Value
list_or_empty none = arr nil
list_or_empty (some ss) = arr (strings ss)

abbrev pub attestation_text : Attestation → String
attestation_text Attestation.signed = "SIGNED"
attestation_text Attestation.tampered = "TAMPERED"
attestation_text Attestation.unattested = "UNATTESTED"

abbrev pub with_prefix : String × List String → String × List String
with_prefix (name, vs) = (property_prefix ++ name, vs)

-- What the reader of a receipt brings: its policy, its clock, the context that it computed, and the
-- time of the schema's last change, if it knows one.
pub record Reader : Type 0 where
  pub current_policy : Option String
  pub current_context : Option String
  pub max_age : ℕ
  pub now : ℕ
  pub schema_modified_at : Option ℕ

abbrev has_text : Option String → Bool
has_text none = false
has_text (some s) = not (str_eq s "")

-- `a or b`, for a time or none.
abbrev or_else : Option ℕ → Option ℕ → Option ℕ
or_else (some t) other = some t
or_else none other = other

-- What `_status_of` hands to `_staleness`.
unfoldable pub recorded_of : Calendar → Reader → Fields → Dict (List String) → Recorded
unfolding one
recorded_of calendar reader entity values = record {
  checked_at = one values "checked_at";
  schema_modified =
      or_else reader.schema_modified_at
        (if has_text (one values "context_hash") then none else schema_modified_at calendar entity);
  recorded_context = one values "context_hash";
  current_context = reader.current_context;
  recorded_policy = one values "policy_hash";
  current_policy = reader.current_policy;
  max_age = reader.max_age;
  now = reader.now;
}

abbrev pub status_fields : String → Dict (List String) → Bool × Option String → Attestation → Fields
status_fields urn values (stale, stale_reason) attestation = field "urn" (str urn) (
    field "verdict" (text_or_null (one values "verdict")) (
      field "reason_code" (nonempty_or_null (one values "reason_code")) (
        field "commit_sha" (text_or_null (one values "commit_sha")) (
          field "checked_at" (text_or_null (one values "checked_at")) (
            field "policy_hash" (text_or_null (one values "policy_hash")) (
              field "rules_fired" (list_or_empty (lookup "rules_fired" values)) (
                field "verifier" (text_or_null (one values "verifier")) (
                  field "evidence_url" (text_or_null (one values "evidence_url")) (
                    field "context_hash" (text_or_null (one values "context_hash")) (
                      field "swarm_run" (text_or_null (one values "swarm_run")) (
                        field "worker_id" (text_or_null (one values "worker_id")) (
                          field "stale" (bool stale) (
                            field "stale_reason" (text_or_null stale_reason) (
                              field "attestation" (str (attestation_text attestation))
                                end))))))))))))))

module _ (c : Crypto) (calendar : Calendar) where
  open c use {PublicKey}

  -- `_status_of`, where `load_public_key` gives `key`.
  unfoldable pub status_of : Show → Option PublicKey → Reader → String → Fields → Fields
  status_of show key reader urn entity =
      let values = sidq_values show entity in
      status_fields urn values (staleness calendar (recorded_of calendar reader entity values))
        (attest c urn (map with_prefix values) key)
