-- ===== src/Claims/Tests.antt =====
-- Claims and constraints at concrete inputs.
use sidq.Prelude.{
  String, str_eq, true, false, none, some, [], ◌∷◌, any, All, ◌≡◌, refl, if◌then◌else◌, split_on,
}
use mathlib.Core.List.{Perm}
use sidq.Claims.Models.{
  ClaimType, Claim, LiveConstraint, Rung, claim_eq, type_text, values_eq, option_eq, list_eq,
}
use sidq.Claims.Canonical.{
  Sql, is_none, normalize_constraint, equivalent, raw_fingerprint, fingerprint, normalise_raw,
  detect_shape, plain_shape, single, or_else,
}
use sidq.Claims.Compare.{
  normalize_claim, same_subject, same_family, equivalence_tier, folded, kind_family, comparison_sql,
  join_with, claim_sql, claim_columns, is_opaque, tier_text, counterparts, first_some,
  positive_conflict, parameters_conflict, sql_literal,
}
use sidq.Claims.Detail.{live_evidence, catalog_evidence}
use sidq.Claims.Reconcile.{
  normalize_live, reconcile, records, live_results, addressed_by, is_addressed, reconcile_live,
  matched, first_match, unmatched, claims_of,
}
use sidq.Catalog.Checks.Columns.{is_empty_list}
use sidq.Prelude.Sort.{sorted}
use sidq.Claims.Reconcile.Backed.{IsBacked}
use sidq.Claims.Reconcile.Records.{names, reconcile-IsBacked}
use sidq.Claims.Reconcile.Duplicates.{Matches, reconcile_duplicate}

-- Every text parses, and is its own rendering and digest.
abbrev toy : Sql
toy = record {
  parse = λ kind ddl. some (record { rendered = some ddl; target = none; check_shape = none });
  canonicalize = λ text. some text;
  rewrite_canonical = λ text. some text;
  digest = λ text. text;
  collapse = λ text. text;
  is_blank = λ text. false;
  casefold = λ text. text;
}

abbrev unique_claim : String → Claim
unique_claim sentence = record {
  kind = ClaimType.unique;
  column = "id";
  values = none;
  expr = none;
  source_sentence = sentence;
  confidence = "0.9";
  origin = "docstring";
}

abbrev unique_id : LiveConstraint
unique_id = record {
  name = "orders_pkey";
  kind = "primary_key";
  columns = "id" ∷ [];
  definition = "PRIMARY KEY (id)";
  target_schema = none;
  target_table = none;
  target_columns = [];
  predicate = none;
  is_partial = false;
}

abbrev KnownColumns : Claim → Type 0
KnownColumns c = str_eq c.column "id" ≡ true

abbrev KnownConstraints : LiveConstraint → Type 0
KnownConstraints l = str_eq l.name "orders_pkey" ≡ true

abbrev first_claim : Claim
first_claim = unique_claim "Each id is unique."

abbrev second_claim : Claim
second_claim = unique_claim "No two orders share an id."

reconcile-IsBacked_example :
    All
      (IsBacked toy "urn:orders" KnownConstraints KnownColumns)
      (reconcile toy "urn:orders" (first_claim ∷ []) (unique_id ∷ []))
    × All
        (λ l.
          any
            (names toy "urn:orders" l)
            (reconcile toy "urn:orders" (first_claim ∷ []) (unique_id ∷ []))
          ≡ true)
        (unique_id ∷ [])
reconcile-IsBacked_example =
    reconcile-IsBacked toy "urn:orders" KnownConstraints KnownColumns (first_claim ∷ [])
      (unique_id ∷ []) (refl, tt) (refl, tt)

first_claim-Matches :
    Matches toy "urn:orders"
      (normalize_live toy "urn:orders" unique_id).normalized
      (normalize_claim toy first_claim)
      Rung.identical
unfolding Matches same_subject same_family equivalence_tier folded kind_family comparison_sql
    join_with list_eq option_eq normalize_constraint equivalent raw_fingerprint fingerprint
    normalise_raw detect_shape plain_shape single or_else normalize_live normalize_claim claim_sql
    claim_columns
first_claim-Matches = (refl, refl, refl)

second_claim-Matches :
    Matches toy "urn:orders"
      (normalize_live toy "urn:orders" unique_id).normalized
      (normalize_claim toy second_claim)
      Rung.identical
unfolding Matches same_subject same_family equivalence_tier folded kind_family comparison_sql
    join_with list_eq option_eq normalize_constraint equivalent raw_fingerprint fingerprint
    normalise_raw detect_shape plain_shape single or_else normalize_live normalize_claim claim_sql
    claim_columns
second_claim-Matches = (refl, refl, refl)

reconcile_duplicate_example :
    Perm (reconcile toy "urn:orders" (first_claim ∷ second_claim ∷ []) (unique_id ∷ [])) (
      live_evidence "constraint_confirmed" "urn:orders"
        (normalize_live toy "urn:orders" unique_id)
        (normalize_claim toy first_claim ∷ [])
        "T0"
        "catalog_claim_matches_enforced_constraint"
      ∷ catalog_evidence "constraint_contradicts_catalog" "urn:orders"
          (normalize_claim toy second_claim)
          "T3"
          "catalog_claim_has_no_matching_enforced_constraint"
          none
      ∷ [])
unfolding normalize_live normalize_constraint is_opaque is_none normalize_claim claim_eq type_text
    values_eq option_eq tier_text
reconcile_duplicate_example =
    reconcile_duplicate toy "urn:orders" first_claim second_claim unique_id Rung.identical
      Rung.identical first_claim-Matches second_claim-Matches refl refl refl refl

-- Checks by a list of values, and one by a pattern.
abbrev checks : Sql
checks = record toy {
  parse = λ kind ddl. some (record {
    rendered = some ddl;
    target = none;
    check_shape =
        some
          (record (plain_shape
            (if str_eq ddl "CHECK (status LIKE 'a%')" then "pattern" else "accepted_values")
            (some "status") ("status" ∷ [])) { values = ddl ∷ [] });
  });
}

abbrev listed : Claim
listed = record first_claim {
  kind = ClaimType.accepted_values;
  column = "status";
  values = some ("a" ∷ []);
}

abbrev pattern_claim : Claim
pattern_claim = record first_claim {
  kind = ClaimType.expression;
  column = "status";
  expr = some "status LIKE 'a%'";
}

abbrev status_check : LiveConstraint
status_check = record unique_id {
  name = "orders_status_check";
  kind = "check";
  columns = "status" ∷ [];
  definition = "CHECK (status IN ('a', 'b'))";
}

-- No record is about the claim of a pattern: the conflict over the list addresses it too.
lost_claim :
    reconcile checks "urn:orders" (listed ∷ pattern_claim ∷ []) (status_check ∷ [])
    ≡ live_evidence "constraint_contradicts_catalog" "urn:orders"
        (normalize_live checks "urn:orders" status_check)
        (normalize_claim checks listed ∷ [])
        "T3"
        "recognised_constraint_parameters_conflict"
      ∷ []
unfolding reconcile records live_results addressed_by is_addressed reconcile_live matched
    first_match unmatched claims_of normalize_live normalize_constraint is_opaque is_none
    normalize_claim claim_eq type_text values_eq option_eq list_eq counterparts first_some
    same_subject same_family equivalence_tier folded kind_family comparison_sql join_with equivalent
    raw_fingerprint fingerprint normalise_raw detect_shape plain_shape single or_else claim_sql
    claim_columns positive_conflict parameters_conflict sql_literal is_empty_list sorted split_on
lost_claim = refl
