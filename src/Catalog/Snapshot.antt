-- ===== src/Catalog/Snapshot.antt =====
-- The snapshot types, and the helpers of the checks: `_unverifiable`, `_unique`, `_edge_key`,
-- `_edge_data` and `_field`.
use sidq.Prelude.{
  String, str_eq, str_le, Bool, ◌&&◌, Option, none, some, List, [], ◌∷◌, any, if◌then◌else◌,
}
use Prim.Native.String as Text
use sidq.Value.{Value, Fields, str, null, field, end, obj, eq_value}
use sidq.Models.{Evidence}

pub record CatalogField : Type 0 where
  pub path : String
  pub description : Option String
  pub tags : List String

pub record CatalogEntity : Type 0 where
  pub urn : String
  pub kind : String
  pub description : Option String
  pub fields : List CatalogField
  pub tags : List String
  pub owners : List String
  pub deprecated : Bool
  pub live : Bool
  pub schema_available : Bool

pub record LineageEdge : Type 0 where
  pub source_urn : String
  pub source_field : Option String
  pub target_urn : String
  pub target_field : Option String

-- `field_lineage_resolved` is `none` where every asset's column lineage is present.
pub record CatalogSnapshot : Type 0 where
  pub entities : List CatalogEntity
  pub edges : List LineageEdge
  pub entities_complete : Bool
  pub field_lineage_resolved : Option (List String)

unfoldable pub unverifiable : String → String → String → Evidence
unverifiable check reason subject = record {
  kind = Text.◌++◌ check "_unverifiable";
  subject = subject;
  detail = field "reason" (str reason) (field "confidence" (str "none") end);
  graph_links = [];
}

-- `edge.source_field or ""`
abbrev pub text_or_empty : Option String → String
text_or_empty none = ""
text_or_empty (some s) = s

-- `key(a) <= key(b)` for the tuples of `_edge_key`.
unfoldable pub le_then : String → String → Bool → Bool
le_then a b later = if str_eq a b then later else str_le a b

unfoldable pub edge_key_le : LineageEdge → LineageEdge → Bool
unfolding le_then
edge_key_le a b = le_then a.source_urn b.source_urn (
    le_then (text_or_empty a.source_field) (text_or_empty b.source_field) (
      le_then a.target_urn b.target_urn
        (str_le (text_or_empty a.target_field) (text_or_empty b.target_field))))

-- A `None` stays one in the detail of an evidence.
abbrev pub nullable : Option String → Value
nullable none = null
nullable (some s) = str s

unfoldable pub edge_data : LineageEdge → Fields
edge_data edge = field "source_dataset" (str edge.source_urn) (
    field "source_field" (nullable edge.source_field) (
      field "target_dataset" (str edge.target_urn)
        (field "target_field" (nullable edge.target_field) end)))

-- The same key for `_unique`: kind, subject and detail.
unfoldable pub same_evidence : Evidence → Evidence → Bool
same_evidence a b =
    str_eq a.kind b.kind && str_eq a.subject b.subject && eq_value (obj a.detail) (obj b.detail)

-- The loop of `_unique`, over the results so far.
unfoldable pub unique_from : List Evidence → List Evidence → List Evidence
unfolding same_evidence
unique_from seen [] = []
unique_from seen (item ∷ items) =
    let rest = unique_from (if any (same_evidence item) seen then seen else item ∷ seen) items in
    if any (same_evidence item) seen then rest else item ∷ rest

unfoldable pub unique : List Evidence → List Evidence
unfolding unique_from
unique items = unique_from [] items

unfoldable pub field_in : List CatalogField → String → Option CatalogField
field_in [] path = none
field_in (f ∷ fs) path = if str_eq f.path path then some f else field_in fs path
