-- ===== src/Policy/Load/Loaded.antt =====
-- A policy that was loaded is valid throughout.
use sidq.Prelude.{
  String, str_eq, true, false, some, List, [], ◌∷◌, all, All, Bool-cases, Option-cases, ◌≡◌, refl,
  arith, inl, inr, ◌&&◌,
}
use sidq.Prelude.Sets.{member}
use sidq.Prelude.Int.{pos}
use sidq.Value.{Value, null, int, eq_value, str, arr, obj, Items, nil, cons, Fields}
use sidq.Receipt.State.{get}
use sidq.Policy.Condition.{Condition, Rule}
use sidq.Policy.Engine.{Policy}
use sidq.Policy.Document.{
  ParseFormat, require_mapping, only_keys, get_or, known_name, validate_message, parse_severity,
  parse_reason, non_empty_text,
}
use sidq.Policy.Load.{
  parse_match, parse_id, parse_rest, parse_rule_fields, parse_rule, parse_rules, parse_action,
  parse_rule_list, load_fields, load_policy,
}
use sidq.Policy.Load.Valid.{
  Yields, IsRule, known_names-NamesEvidence, AreNew, IsMatch, parse_match-IsMatch,
}

id_lem :
    (seen : List String) (v : Value)
    → Yields (λ s. (str_eq s "" ≡ false) × (member s seen ≡ false)) (parse_id seen v)
unfolding parse_id non_empty_text
id_lem seen v = ground arith

-- What is known of a message that was accepted.
abbrev IsMessage : ParseFormat → String → Type 0
IsMessage parse_format message =
    (names : List String) × (parse_format message ≡ some names) × (all known_name names ≡ true)

validate_message-IsMessage :
    (parse_format : ParseFormat) (v : Value)
    → Yields (IsMessage parse_format) (validate_message parse_format v)
unfolding validate_message
validate_message-IsMessage parse_format (str message) = elim (Option-cases (parse_format message)) [
  | inl e ↦ rw (validate_message, e) tt
  | inr (names, e) ↦ elim (Bool-cases (all known_name names)) [
    | inl f ↦ rw (validate_message, e, f) (names, e, f)
    | inr f ↦ rw (validate_message, e, f) tt
  ]
]
validate_message-IsMessage parse_format null = tt
validate_message-IsMessage parse_format (Value.bool b) = tt
validate_message-IsMessage parse_format (Value.int n) = tt
validate_message-IsMessage parse_format (arr items) = tt
validate_message-IsMessage parse_format (Value.tup items) = tt
validate_message-IsMessage parse_format (obj fs) = tt

-- A rule with an id that is new.
abbrev IsNewRule : ParseFormat → List String → Rule → Type 0
IsNewRule parse_format seen r = IsRule parse_format r × (member r.id seen ≡ false)

rest-IsNewRule :
    (parse_format : ParseFormat) (seen : List String) (id kind : String)
    (where_all where_any : List Condition) (r : Fields)
    → str_eq id "" ≡ false
    → member id seen ≡ false
    → IsMatch (kind, where_all, where_any)
    → Yields (IsNewRule parse_format seen) (parse_rest parse_format id kind where_all where_any r)
unfolding parse_rest
rest-IsNewRule parse_format seen id kind where_all where_any r given new m =
    elim (Option-cases (parse_severity (get "severity" r))) [
      | inl e ↦ rw (parse_rest, e) tt
      | inr (severity, e) ↦ elim (Option-cases (parse_reason (get "reason_code" r))) [
        | inl f ↦ rw (parse_rest, e, f) tt
        | inr (reason, f) ↦
            let known = validate_message-IsMessage parse_format (get "message" r) in
            elim (Option-cases (validate_message parse_format (get "message" r))) [
              | inl g ↦ rw (parse_rest, e, f, g) tt
              | inr (message, g) ↦
                  let parsed : IsMessage parse_format message = rw g at known in
                  rw (parse_rest, e, f, g)
                    (
                      record {
                        id_given = given;
                        kind_given = m.kind_text;
                        all_valid = m.all_parsed;
                        any_valid = m.any_parsed;
                        names = parsed.0;
                        message_parsed = parsed.1;
                        names_known = known_names-NamesEvidence parsed.0 parsed.2;
                      },
                      new,
                    )
            ]
      ]
    ]

rule-IsNewRule :
    (parse_format : ParseFormat) (settings : Fields) (seen : List String) (raw : Value)
    → Yields (IsNewRule parse_format seen) (parse_rule parse_format settings seen raw)
unfolding parse_rule parse_rule_fields
rule-IsNewRule parse_format settings seen raw = elim (Option-cases (require_mapping raw)) [
  | inl e ↦ rw (parse_rule, e) tt
  | inr (r, e) ↦
      elim (Bool-cases
        (only_keys ("id" ∷ "match" ∷ "severity" ∷ "reason_code" ∷ "message" ∷ []) r)) [
          | inr f ↦ rw (parse_rule, e, parse_rule_fields, f) tt
          | inl f ↦ elim (Option-cases (parse_id seen (get "id" r))) [
            | inl g ↦ rw (parse_rule, e, parse_rule_fields, f, g) tt
            | inr (id, g) ↦
                let fresh : (str_eq id "" ≡ false) × (member id seen ≡ false) =
                  rw g at (id_lem seen (get "id" r)) in
                let known = parse_match-IsMatch settings (get "match" r) in
                elim (Option-cases (parse_match settings (get "match" r))) [
                  | inl h ↦ rw (parse_rule, e, parse_rule_fields, f, g, h) tt
                  | inr ((kind, where_all, where_any), h) ↦
                      rw (parse_rule, e, parse_rule_fields, f, g, h)
                        (rest-IsNewRule parse_format seen id kind where_all where_any r fresh.0
                          fresh.1 (rw h at known))
                ]
          ]
        ]
]

-- Every rule is valid and no two share an id.
abbrev pub AreRules : ParseFormat → List String → List Rule → Type 0
AreRules parse_format seen rules = All (IsRule parse_format) rules × AreNew seen rules

rules-AreRules :
    (parse_format : ParseFormat) (settings : Fields) (seen : List String) (raws : Items)
    → Yields (AreRules parse_format seen) (parse_rules parse_format settings seen raws)
unfolding parse_rules
rules-AreRules parse_format settings seen nil = (tt, tt)
rules-AreRules parse_format settings seen (cons raw raws) =
    elim (Option-cases (parse_rule parse_format settings seen raw)) [
      | inl e ↦ rw (parse_rules, e) tt
      | inr (r, e) ↦
          let first : IsNewRule parse_format seen r =
            rw e at (rule-IsNewRule parse_format settings seen raw) in
          elim (Option-cases (parse_rules parse_format settings (r.id ∷ seen) raws)) [
            | inl f ↦ rw (parse_rules, e, f) tt
            | inr (rs, f) ↦
                let later : AreRules parse_format (r.id ∷ seen) rs =
                  rw f at (rules-AreRules parse_format settings (r.id ∷ seen) raws) in
                rw (parse_rules, e, f) ((first.0, later.0), (first.1, later.1))
          ]
    ]

list-AreRules :
    (parse_format : ParseFormat) (settings : Fields) (v : Value)
    → Yields (AreRules parse_format []) (parse_rule_list parse_format settings v)
unfolding parse_rule_list
list-AreRules parse_format settings (arr items) = rules-AreRules parse_format settings [] items
list-AreRules parse_format settings null = tt
list-AreRules parse_format settings (Value.bool b) = tt
list-AreRules parse_format settings (Value.int n) = tt
list-AreRules parse_format settings (str s) = tt
list-AreRules parse_format settings (Value.tup items) = tt
list-AreRules parse_format settings (obj fs) = tt

abbrev IsLoaded : ParseFormat → String → Policy → Type 0
IsLoaded parse_format policy_hash p =
    AreRules parse_format [] p.rules × (p.policy_hash ≡ policy_hash)

fields-IsLoaded :
    (parse_format : ParseFormat) (policy_hash : String) (d : Fields)
    → Yields (IsLoaded parse_format policy_hash) (load_fields parse_format policy_hash d)
unfolding load_fields
fields-IsLoaded parse_format policy_hash d =
    elim (Bool-cases (
      eq_value (get "version" d) (int (pos 1))
      && only_keys ("version" ∷ "settings" ∷ "rules" ∷ "unhandled_evidence" ∷ []) d)) [
        | inr e ↦ rw (load_fields, e) tt
        | inl e ↦ elim (Option-cases (parse_action (get_or (str "info") "unhandled_evidence" d))) [
          | inl f ↦ rw (load_fields, e, f) tt
          | inr (action, f) ↦
              elim (Option-cases (require_mapping (get_or (obj Fields.end) "settings" d))) [
                | inl g ↦ rw (load_fields, e, f, g) tt
                | inr (settings, g) ↦
                    let known = list-AreRules parse_format settings (get "rules" d) in
                    elim (Option-cases (parse_rule_list parse_format settings (get "rules" d))) [
                      | inl h ↦ rw (load_fields, e, f, g, h) tt
                      | inr (rules, h) ↦ rw (load_fields, e, f, g, h) (rw h at known, refl)
                    ]
              ]
        ]
      ]

-- Whatever document is loaded, if it is not refused then every rule has an id that no other rule
-- has and an evidence kind, each condition looks up `subject`, `graph_links` or a path below
-- `detail` and has no value where its operator takes none, each field name that the parser of
-- formats finds in a message is empty, `subject` or begins with `detail.`, and the policy carries
-- the hash of the file. Names inside a format specification are not among those.
pub load_policy-AreRules :
    (parse_format : ParseFormat) (policy_hash : String) (document : Value) (p : Policy)
    → load_policy parse_format policy_hash document ≡ some p
    → AreRules parse_format [] p.rules × (p.policy_hash ≡ policy_hash)
unfolding load_policy
load_policy-AreRules parse_format policy_hash document p h =
    elim (Option-cases (require_mapping document)) [
      | inl e ↦ ground (arith, e, h)
      | inr (d, e) ↦
          let loaded : load_fields parse_format policy_hash d ≡ some p = ground (arith, e, h) in
          rw loaded at (fields-IsLoaded parse_format policy_hash d)
    ]
