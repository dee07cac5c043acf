-- ===== src/Gates/Schema.antt =====
-- Gate 1 (src/sidq/gates/schema.py): referenced datasets and fields must exist in the catalog.
-- `str.strip` and `str.lower` are parameters.
pub mod Stated
pub mod Silent
use Prim.Native.String as Text
use Prim.Native.Char.{code}
use sidq.Prelude.{
  String, str_eq, str_le, has_prefix, remove_prefix, Bool, true, false, not, ◌&&◌, ◌||◌, Option,
  none, some, List, [], ◌∷◌, ◌++◌, map, any, keep, if◌then◌else◌, ◌==◌,
}
use sidq.Prelude.Pairs.{Pair, pair_le, has_pair, distinct_pairs}
use sidq.Prelude.Sets.{member}
use sidq.Prelude.Sort.{sorted}
use sidq.Value.{Fields, str, arr, field, end, strings}
use sidq.Models.{FieldRef, TouchedAsset, Evidence, SchemaField, DatasetInfo}
use sidq.Gates.Graph.{Reply, GraphClient, Cache, cached, graph_unavailable, answered, failed}

-- `(reference.dataset_urn, reference.field_path)`
abbrev pub ref_pair : FieldRef → Pair
ref_pair r = (r.dataset_urn, r.field_path)

-- All references, of all assets in turn.
unfoldable pub all_references : List TouchedAsset → List Pair
all_references [] = []
all_references (asset ∷ change) = map ref_pair asset.referenced_fields ++ all_references change

-- The references of a change as a sorted set.
unfoldable pub references : List TouchedAsset → List Pair
unfolding all_references
references change = sorted pair_le (distinct_pairs (all_references change))

-- `_sources`
unfoldable pub sources : List TouchedAsset → Pair → List String
sources change reference = sorted str_le (
    map (λ (asset : TouchedAsset). asset.urn)
      (keep (λ (asset : TouchedAsset). has_pair reference (map ref_pair asset.referenced_fields))
        change))

-- `path.rpartition("::")`: what stands before and after the last marker, if there is one.
rpartition : String → Option (String × String)
rpartition String.[] = none
rpartition (String.◌∷◌ c s) =
    let later = rpartition s in
    elim later [
      | some (name, expected) ↦ some (String.◌∷◌ c name, expected)
      | none ↦
          if has_prefix "::" (String.◌∷◌ c s)
          then some ("", remove_prefix "::" (String.◌∷◌ c s))
          else none
    ]

-- `_typed_path`
unfoldable pub typed_path : String → String × Option String
unfolding rpartition
typed_path path = elim (rpartition path) [
  | none ↦ (path, none)
  | some (name, expected) ↦
      if not (str_eq name "") && not (str_eq expected "")
      then (name, some expected)
      else (path, none)
]

-- `value.replace(" ", "")`
without_spaces : String → String
without_spaces String.[] = String.[]
without_spaces (String.◌∷◌ c s) =
    let rest = without_spaces s in if code c == b' ' then rest else String.◌∷◌ c rest

-- `aliases.get(name, name)`
alias : String → String
alias name =
    if str_eq name "int" || str_eq name "int4"
    then "integer"
    else if str_eq name "int8"
    then "bigint"
    else if str_eq name "varchar"
    then "character varying"
    else if str_eq name "bool"
    then "boolean"
    else name

unfoldable pub unknown_dataset : List TouchedAsset → Pair → Evidence
unfolding sources
unknown_dataset change reference = record {
  kind = "unknown_dataset";
  subject = reference.0;
  detail = field "referenced_by" (arr (strings (sources change reference))) end;
  graph_links = [];
}

unfoldable pub field_subject : String → String → String
field_subject urn path = Text.◌++◌ urn (Text.◌++◌ "#" path)

unfoldable pub unknown_field : String → String → Evidence
unfolding field_subject
unknown_field urn path = record {
  kind = "unknown_field";
  subject = field_subject urn path;
  detail = field "field_path" (str path) end;
  graph_links = [];
}

unfoldable pub type_mismatch : String → String → String → String → Evidence
unfolding field_subject
type_mismatch urn path expected actual = record {
  kind = "type_mismatch";
  subject = field_subject urn path;
  detail = field "expected_type" (str expected) (field "graph_type" (str actual) end);
  graph_links = [];
}

-- The first field of the path.
unfoldable pub field_at : String → List SchemaField → Option SchemaField
field_at path [] = none
field_at path (f ∷ fields) =
    let rest = field_at path fields in if str_eq f.path path then some f else rest

module _ (strip lower : String → String) where
  unfoldable pub normalize : String → String
  unfolding without_spaces
  normalize value = without_spaces (lower (strip value))

  -- `_compatible`
  unfoldable pub compatible : String → String → Bool
  unfolding alias normalize
  compatible expected actual = str_eq (alias (normalize expected)) (alias (normalize actual))

  check_type : String → String → Option String → SchemaField → List Evidence
  check_type urn path none f = []
  check_type urn path (some expected) f =
      if not (compatible expected f.native_type)
      then type_mismatch urn path expected f.native_type ∷ []
      else []

  check_found : String → String × Option String → Option SchemaField → List Evidence
  unfolding check_type
  check_found urn (path, expected) none = unknown_field urn path ∷ []
  check_found urn (path, expected) (some f) = check_type urn path expected f

  -- A reference to a dataset that the catalog holds.
  unfoldable pub check_field : Pair → DatasetInfo → List Evidence
  unfolding check_found
  check_field reference info =
      let typed = typed_path reference.1 in
      check_found reference.0 typed (field_at typed.0 info.fields)

  -- One round of the loop, with the set of datasets that failed.
  unfoldable pub check_reply :
      List TouchedAsset
      → Pair
      → List String
      → Reply (Option DatasetInfo)
      → List Evidence × List String
  unfolding check_field
  check_reply change reference failures (failed error) =
      if member reference.0 failures
      then ([], failures)
      else (graph_unavailable reference.0 error ∷ [], reference.0 ∷ failures)
  check_reply change reference failures (answered none) =
      (unknown_dataset change reference ∷ [], failures)
  check_reply change reference failures (answered (some info)) =
      (check_field reference info, failures)

  module _ {W : Type 0} (graph : GraphClient W) where
    pub check_all : List TouchedAsset → List Pair → Cache → List String → W → List Evidence × W
    unfolding check_reply
    check_all change [] cache failures w = ([], w)
    check_all change (reference ∷ rest) cache failures w =
        let (reply, kept) = cached graph reference.0 cache w in
        let (evidence, failures') = check_reply change reference failures reply in
        let (later, w') = check_all change rest kept.0 failures' kept.1 in (evidence ++ later, w')

    unfoldable pub collect : List TouchedAsset → W → List Evidence × W
    unfolding check_all references
    collect change w = check_all change (references change) [] [] w
