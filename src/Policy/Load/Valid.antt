-- ===== src/Policy/Load/Valid.antt =====
-- What a policy that was loaded is known to satisfy.
use Prim.Native.String as Text
use sidq.Prelude.{
  String, str_eq, str_eq_iff, str_eq_of, has_prefix_lem, remove_prefix, ap, ◌∙◌, ◌≢◌, ◌⊎◌, true,
  false, Option, none, some, List, [], ◌∷◌, all, All, Bool-cases, Option-cases, ◌≡◌, refl, arith,
  inl, inr,
}
use sidq.Prelude.Sets.{member}
use sidq.Value.{Value, null, str, arr, obj, Items, nil, cons, Fields, get_key}
use sidq.Receipt.State.{get}
use sidq.Policy.Condition.{Op, Condition, Rule}
use sidq.Policy.Document.{
  ParseFormat, require_mapping, only_keys, get_or, valid_path, validate_field, resolve_setting,
  parse_op, is_valueless, parse_operand, parse_condition_fields, parse_condition, parse_conditions,
  parse_where, known_name, non_empty_text,
}
use sidq.Policy.Load.{parse_match}

-- Of what was parsed, if it was not refused.
abbrev pub Yields {ℓ κ} : {A : Type ℓ} → (A → Type κ) → Option A → Type κ
Yields P none = Unit
Yields P (some x) = P x

-- The path is the subject, the links, or something below the detail.
unfoldable pub ReadsEvidence : String → Type 0
ReadsEvidence path =
    (path ≡ "subject")
    ⊎ ((path ≡ "graph_links") ⊎ ((rest : String) × (rest ≢ "") × (path ≡ Text.◌++◌ "detail." rest)))

-- The name of a field in a message is empty, the subject, or begins below the detail.
unfoldable pub NamesEvidence : String → Type 0
NamesEvidence name =
    (name ≡ "") ⊎ ((name ≡ "subject") ⊎ ((rest : String) × (name ≡ Text.◌++◌ "detail." rest)))

-- The path can be looked up in evidence, and an operator that takes no value has none.
pub record IsCondition (c : Condition) : Type 0 where
  pub path_valid : ReadsEvidence c.path
  pub no_value : (c.op ≡ Op.empty) ⊎ (c.op ≡ Op.not_empty) → c.value ≡ null

pub record IsRule (parse_format : ParseFormat) (r : Rule) : Type 0 where
  pub id_given : str_eq r.id "" ≡ false
  pub kind_given : str_eq r.evidence_kind "" ≡ false
  pub all_valid : All IsCondition r.where_all
  pub any_valid : All IsCondition r.where_any
  pub names : List String
  pub message_parsed : parse_format r.message ≡ some names
  pub names_known : All NamesEvidence names

-- The ids are new and differ from one another.
abbrev pub AreNew : List String → List Rule → Type 0
AreNew seen [] = Unit
AreNew seen (r ∷ rs) = (member r.id seen ≡ false) × AreNew (r.id ∷ seen) rs

valid_path-ReadsEvidence : (path : String) → valid_path path ≡ true → ReadsEvidence path
unfolding valid_path ReadsEvidence
valid_path-ReadsEvidence path h = elim (Bool-cases (str_eq path "subject")) [
  | inl e ↦ inl ((str_eq_iff path "subject").0 e)
  | inr e ↦ elim (Bool-cases (str_eq path "graph_links")) [
    | inl f ↦ inr (inl ((str_eq_iff path "graph_links").0 f))
    | inr f ↦
        let split = has_prefix_lem "detail." path (ground (arith, e, f, h)) in
        inr (
          inr (
            remove_prefix "detail." path,
            λ (empty : remove_prefix "detail." path ≡ "").
                let whole : path ≡ "detail." = split ∙ ap (Text.◌++◌ "detail.") empty in
                let q : false ≡ true = ground (arith, e, f, h, str_eq_of whole) in cc,
            split,
          ))
  ]
]

known_name-NamesEvidence : (name : String) → known_name name ≡ true → NamesEvidence name
unfolding known_name NamesEvidence
known_name-NamesEvidence name h = elim (Bool-cases (str_eq name "")) [
  | inl e ↦ inl ((str_eq_iff name "").0 e)
  | inr e ↦ elim (Bool-cases (str_eq name "subject")) [
    | inl f ↦ inr (inl ((str_eq_iff name "subject").0 f))
    | inr f ↦ inr (
        inr (remove_prefix "detail." name, has_prefix_lem "detail." name (ground (arith, e, f, h))))
  ]
]

pub known_names-NamesEvidence :
    (names : List String) → all known_name names ≡ true → All NamesEvidence names
known_names-NamesEvidence [] h = tt
known_names-NamesEvidence (name ∷ names) h = (
  known_name-NamesEvidence name (ground (arith, h)),
  known_names-NamesEvidence names (ground (arith, h)),
)

valueless : (op : Op) → (op ≡ Op.empty) ⊎ (op ≡ Op.not_empty) → is_valueless op ≡ true
unfolding is_valueless
valueless op (inl e) = ground (arith, e)
valueless op (inr e) = ground (arith, e)

operand-IsCondition :
    (settings : Fields) (path : String) (op : Op) (v : Option Value)
    → valid_path path ≡ true
    → Yields IsCondition (parse_operand settings path op v)
unfolding parse_operand
operand-IsCondition settings path op none h = elim (Bool-cases (is_valueless op)) [
  | inl e ↦
      rw (parse_operand, e)
        (record { path_valid = valid_path-ReadsEvidence path h; no_value = λ k. refl })
  | inr e ↦ rw (parse_operand, e) tt
]
operand-IsCondition settings path op (some v) h = elim (Bool-cases (is_valueless op)) [
  | inl e ↦ rw (parse_operand, e) tt
  | inr e ↦ elim (Option-cases (resolve_setting settings v)) [
    | inl f ↦ rw (parse_operand, e, f) tt
    | inr (w, f) ↦
        rw (parse_operand, e, f)
          (record {
            path_valid = valid_path-ReadsEvidence path h;
            no_value = λ k. ground (arith, e, valueless op k);
          })
  ]
]

validate_field_lem : (v : Value) → Yields (λ p. valid_path p ≡ true) (validate_field v)
unfolding validate_field
validate_field_lem v = ground arith

parse_condition_fields-IsCondition :
    (settings c : Fields) → Yields IsCondition (parse_condition_fields settings c)
unfolding parse_condition_fields
parse_condition_fields-IsCondition settings c =
    elim (Bool-cases (only_keys ("field" ∷ "op" ∷ "value" ∷ []) c)) [
      | inr e ↦ rw (parse_condition_fields, e) tt
      | inl e ↦ elim (Option-cases (validate_field (get "field" c))) [
        | inl f ↦ rw (parse_condition_fields, e, f) tt
        | inr (path, f) ↦
            let valid : valid_path path ≡ true = rw f at (validate_field_lem (get "field" c)) in
            elim (Option-cases (parse_op (get "op" c))) [
              | inl g ↦ rw (parse_condition_fields, e, f, g) tt
              | inr (op, g) ↦
                  rw (parse_condition_fields, e, f, g)
                    (operand-IsCondition settings path op (get_key "value" c) valid)
            ]
      ]
    ]

parse_condition-IsCondition :
    (settings : Fields) (raw : Value) → Yields IsCondition (parse_condition settings raw)
unfolding parse_condition
parse_condition-IsCondition settings raw = elim (Option-cases (require_mapping raw)) [
  | inl e ↦ rw (parse_condition, e) tt
  | inr (c, e) ↦ rw (parse_condition, e) (parse_condition_fields-IsCondition settings c)
]

parse_conditions-IsCondition :
    (settings : Fields) (raws : Items) → Yields (All IsCondition) (parse_conditions settings raws)
unfolding parse_conditions
parse_conditions-IsCondition settings nil = tt
parse_conditions-IsCondition settings (cons raw raws) =
    elim (Option-cases (parse_condition settings raw)) [
      | inl e ↦ rw (parse_conditions, e) tt
      | inr (c, e) ↦ elim (Option-cases (parse_conditions settings raws)) [
        | inl f ↦ rw (parse_conditions, e, f) tt
        | inr (cs, f) ↦
            rw (parse_conditions, e, f)
              (
                rw e at (parse_condition-IsCondition settings raw),
                rw f at (parse_conditions-IsCondition settings raws),
              )
      ]
    ]

parse_where-IsCondition :
    (settings : Fields) (v : Value) → Yields (All IsCondition) (parse_where settings v)
unfolding parse_where
parse_where-IsCondition settings (arr items) = parse_conditions-IsCondition settings items
parse_where-IsCondition settings null = tt
parse_where-IsCondition settings (Value.bool b) = tt
parse_where-IsCondition settings (Value.int n) = tt
parse_where-IsCondition settings (str s) = tt
parse_where-IsCondition settings (Value.tup items) = tt
parse_where-IsCondition settings (obj fs) = tt

-- A parsed `match`.
pub record IsMatch (m : String × List Condition × List Condition) : Type 0 where
  pub kind_text : str_eq m.0 "" ≡ false
  pub all_parsed : All IsCondition m.1
  pub any_parsed : All IsCondition m.2

pub non_empty_lem : (v : Value) → Yields (λ s. str_eq s "" ≡ false) (non_empty_text v)
unfolding non_empty_text
non_empty_lem v = ground arith

pub parse_match-IsMatch :
    (settings : Fields) (raw : Value) → Yields IsMatch (parse_match settings raw)
unfolding parse_match
parse_match-IsMatch settings raw = elim (Option-cases (require_mapping raw)) [
  | inl e ↦ rw (parse_match, e) tt
  | inr (m, e) ↦ elim (Bool-cases (only_keys ("evidence_kind" ∷ "where" ∷ "where_any" ∷ []) m)) [
    | inr f ↦ rw (parse_match, e, f) tt
    | inl f ↦ elim (Option-cases (non_empty_text (get "evidence_kind" m))) [
      | inl g ↦ rw (parse_match, e, f, g) tt
      | inr (kind, g) ↦
          let given : str_eq kind "" ≡ false = rw g at (non_empty_lem (get "evidence_kind" m)) in
          let first = parse_where-IsCondition settings (get_or (arr nil) "where" m) in
          let second = parse_where-IsCondition settings (get_or (arr nil) "where_any" m) in
          elim (Option-cases (parse_where settings (get_or (arr nil) "where" m))) [
            | inl h ↦ rw (parse_match, e, f, g, h) tt
            | inr (ws, h) ↦
                elim (Option-cases (parse_where settings (get_or (arr nil) "where_any" m))) [
                  | inl k ↦ rw (parse_match, e, f, g, h, k) tt
                  | inr (anys, k) ↦
                      rw (parse_match, e, f, g, h, k)
                        (record {
                          kind_text = given;
                          all_parsed = rw h at first;
                          any_parsed = rw k at second;
                        })
                ]
          ]
    ]
  ]
]
