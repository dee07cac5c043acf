-- ===== src/Claims/Detail.antt =====
-- The evidence of a reconciliation (src/sidq/claims/reconcile.py, `_detail` and its helpers).
use Prim.Native.String as Text
use sidq.Prelude.{String, str_le, Bool, Option, none, some, List, [], ◌∷◌}
use sidq.Value.{
  Value, null, bool, str, arr, tup, obj, Items, nil, cons, Fields, field, end, strings,
}
use sidq.Models.{Evidence}
use sidq.Catalog.Snapshot.{le_then, nullable}
use sidq.Receipt.State.{get}
use sidq.Claims.Models.{
  Claim, Shape, NormalizedConstraint, CatalogConstraint, DatabaseConstraint, type_text,
}
use sidq.Claims.Compare.{join_with}

-- A dictionary of these entries.
unfoldable pub fields_of : List (String × Value) → Fields
fields_of [] = end
fields_of ((key, value) ∷ rest) = field key value (fields_of rest)

nullable_flag : Option Bool → Value
nullable_flag none = null
nullable_flag (some b) = bool b

nullable_list : Option (List String) → Value
nullable_list none = null
nullable_list (some vs) = arr (strings vs)

-- `asdict(shape) if shape is not None else None`
unfoldable pub shape_detail : Option Shape → Value
unfolding nullable_flag fields_of
shape_detail none = null
shape_detail (some s) = obj (
    fields_of (
      ("name", str s.name)
      ∷ ("column", nullable s.column)
      ∷ ("columns", tup (strings s.columns))
      ∷ ("values", tup (strings s.values))
      ∷ ("lower", nullable s.lower)
      ∷ ("upper", nullable s.upper)
      ∷ ("lower_inclusive", nullable_flag s.lower_inclusive)
      ∷ ("upper_inclusive", nullable_flag s.upper_inclusive)
      ∷ ("operator", nullable s.operator)
      ∷ ("value", nullable s.value)
      ∷ ("function", nullable s.function)
      ∷ ("pattern", nullable s.pattern)
      ∷ ("target_table", nullable s.target_table)
      ∷ ("target_columns", tup (strings s.target_columns))
      ∷ []))

unfoldable pub constraint_detail : NormalizedConstraint → Value
unfolding shape_detail fields_of
constraint_detail c = obj (
    fields_of (
      ("kind", str c.kind)
      ∷ ("columns", arr (strings c.columns))
      ∷ ("canonical", nullable c.canonical)
      ∷ ("fingerprint", str c.fingerprint)
      ∷ ("shape", shape_detail c.shape)
      ∷ ("is_partial", bool c.is_partial)
      ∷ ("partial_predicate", nullable c.partial_predicate)
      ∷ []))

unfoldable pub claim_detail : Claim → Value
unfolding nullable_list fields_of
claim_detail c = obj (
    fields_of (
      ("type", str (type_text c.kind))
      ∷ ("column", str c.column)
      ∷ ("values", nullable_list c.values)
      ∷ ("expr", nullable c.expr)
      ∷ ("source_sentence", str c.source_sentence)
      ∷ ("confidence", str c.confidence)
      ∷ ("status", str "proposed")
      ∷ ("origin", str c.origin)
      ∷ []))

unfoldable pub claims_detail : List CatalogConstraint → Items
unfolding claim_detail
claims_detail [] = nil
claims_detail (item ∷ items) = cons (claim_detail item.claim) (claims_detail items)

-- `_subject`
unfoldable pub subject_of : String → List String → String
subject_of urn (column ∷ []) = Text.◌++◌ urn (Text.◌++◌ "#" column)
subject_of urn columns = Text.◌++◌ urn (Text.◌++◌ "#(" (Text.◌++◌ (join_with "," columns) ")"))

-- The dictionary that both kinds of evidence share; `live` is the constraint that it names.
unfoldable pub detail_of :
    Option DatabaseConstraint
    → NormalizedConstraint
    → List CatalogConstraint
    → String
    → String
    → Fields
unfolding constraint_detail shape_detail claims_detail fields_of
detail_of live normalized catalog tier reason = fields_of (
    ("constraint_name", elim live [ none ↦ null | some d ↦ str d.live.name ])
    ∷ ("constraint_kind", elim live [ none ↦ null | some d ↦ str d.live.kind ])
    ∷ ("raw_ddl", elim live [ none ↦ null | some d ↦ str d.live.definition ])
    ∷ ("fingerprint", str normalized.fingerprint)
    ∷ ("canonical", nullable normalized.canonical)
    ∷ ("shape", shape_detail normalized.shape)
    ∷ ("tier", str tier)
    ∷ ("reason", str reason)
    ∷ ("database_constraint", elim live [ none ↦ null | some d ↦ constraint_detail d.normalized ])
    ∷ ("catalog_claims", arr (claims_detail catalog))
    ∷ [])

-- `_live_evidence`
unfoldable pub live_evidence :
    String → String → DatabaseConstraint → List CatalogConstraint → String → String → Evidence
unfolding detail_of subject_of
live_evidence kind urn database catalog tier reason = record {
  kind = kind;
  subject = subject_of urn database.normalized.columns;
  detail = detail_of (some database) database.normalized catalog tier reason;
  graph_links = [];
}

blocking_form : Option DatabaseConstraint → CatalogConstraint → NormalizedConstraint
blocking_form none catalog = catalog.normalized
blocking_form (some blocker) catalog = blocker.normalized

-- `_catalog_evidence`
unfoldable pub catalog_evidence :
    String → String → CatalogConstraint → String → String → Option DatabaseConstraint → Evidence
unfolding detail_of subject_of blocking_form
catalog_evidence kind urn catalog tier reason blocker = record {
  kind = kind;
  subject = subject_of urn catalog.normalized.columns;
  detail = detail_of blocker (blocking_form blocker catalog) (catalog ∷ []) tier reason;
  graph_links = [];
}

unfoldable pub text_at : String → Fields → String
text_at key fs = elim (get key fs) [ str s ↦ s | _ ↦ "" ]

-- `_evidence_key(a) <= _evidence_key(b)`
unfoldable pub evidence_key_le : Evidence → Evidence → Bool
unfolding text_at le_then
evidence_key_le a b = le_then a.subject b.subject (
    le_then a.kind b.kind (
      le_then (text_at "constraint_name" a.detail) (text_at "constraint_name" b.detail)
        (str_le (text_at "fingerprint" a.detail) (text_at "fingerprint" b.detail))))
