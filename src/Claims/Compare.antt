-- ===== src/Claims/Compare.antt =====
-- How two constraints compare (src/sidq/claims/reconcile.py).
use Prim.Native.String as Text
use sidq.Prelude.{
  String, str_eq, split_on, Bool, true, false, not, ◌&&◌, ◌||◌, Option, none, some, List, [], ◌∷◌,
  ◌++◌, any, keep, map, if◌then◌else◌,
}
use sidq.Prelude.Sets.{member}
use sidq.Claims.Canonical.{Sql, is_none, normalize_constraint, equivalent}
use sidq.Claims.Models.{
  ClaimType, Claim, Shape, NormalizedConstraint, CatalogConstraint, Rung, list_eq, option_eq,
  flag_eq,
}

-- `"".join` with a separator.
unfoldable pub join_with : String → List String → String
join_with separator [] = ""
join_with separator (a ∷ []) = a
join_with separator (a ∷ b ∷ rest) =
    Text.◌++◌ a (Text.◌++◌ separator (join_with separator (b ∷ rest)))

-- `text.replace("'", "''")`
doubled : List String → String
doubled parts = join_with "''" parts

unfoldable pub sql_literal : String → String
unfolding doubled
sql_literal value = Text.◌++◌ "'" (Text.◌++◌ (doubled (split_on b'\'' value)) "'")

or_empty : Option String → String
or_empty none = ""
or_empty (some s) = s

or_none : Option (List String) → List String
or_none none = []
or_none (some vs) = vs

-- `target.rsplit(".", 1)`: all parts but the last joined again, and the last.
last_part : String → List String → List String → List String × String
last_part part before [] = (before, part)
last_part part before (next ∷ rest) = last_part next (before ++ (part ∷ [])) rest

foreign_key : String → List String × String → String
foreign_key column ([], last) = Text.◌++◌ "FOREIGN KEY (" (Text.◌++◌ column ")")
foreign_key column (a ∷ before, last) =
    let table = join_with "." (a ∷ before) in
    let bare = Text.◌++◌ "FOREIGN KEY (" (Text.◌++◌ column ")") in
    if str_eq table "" || str_eq last ""
    then bare
    else Text.◌++◌ bare
        (Text.◌++◌ " REFERENCES " (Text.◌++◌ table (Text.◌++◌ "(" (Text.◌++◌ last ")"))))

rsplit : List String → List String × String
unfolding last_part
rsplit [] = ([], "")
rsplit (part ∷ parts) = last_part part [] parts

in_list : Claim → String
unfolding or_none
in_list c = Text.◌++◌ "CHECK (" (
    Text.◌++◌ c.column
      (Text.◌++◌ " IN (" (Text.◌++◌ (join_with ", " (map sql_literal (or_none c.values))) "))")))

-- `_claim_sql`, for each type of claim.
sql_of : ClaimType → Claim → String × String
unfolding or_empty in_list foreign_key rsplit
sql_of ClaimType.expression c = ("check", Text.◌++◌ "CHECK (" (Text.◌++◌ (or_empty c.expr) ")"))
sql_of ClaimType.accepted_values c = ("check", in_list c)
sql_of ClaimType.not_null c = ("not_null", Text.◌++◌ c.column " IS NOT NULL")
sql_of ClaimType.unique c = ("unique", Text.◌++◌ "UNIQUE (" (Text.◌++◌ c.column ")"))
sql_of ClaimType.relationships c =
    ("foreign_key", foreign_key c.column (rsplit (split_on b'.' (or_empty c.expr))))

unfoldable pub claim_sql : Claim → String × String
unfolding sql_of
claim_sql c = sql_of c.kind c

several : List String → Bool
several (a ∷ b ∷ rest) = true
several columns = false

columns_of_shape : Claim → Option Shape → List String
unfolding several
columns_of_shape c none = c.column ∷ []
columns_of_shape c (some shape) = if several shape.columns then shape.columns else c.column ∷ []

-- `_claim_columns`
unfoldable pub claim_columns : Claim → NormalizedConstraint → List String
unfolding columns_of_shape
claim_columns c normalized = elim c.kind [
  | ClaimType.expression ↦ columns_of_shape c normalized.shape
  | _ ↦ c.column ∷ []
]

is_not_null : Option Shape → Bool
is_not_null none = false
is_not_null (some shape) = str_eq shape.name "not_null"

unfoldable pub kind_family : NormalizedConstraint → String
unfolding is_not_null
kind_family c =
    if str_eq c.kind "unique" || str_eq c.kind "primary_key"
    then "unique"
    else if str_eq c.kind "check" && is_not_null c.shape
    then "not_null"
    else c.kind

unfoldable pub same_family : NormalizedConstraint → NormalizedConstraint → Bool
same_family a b = str_eq (kind_family a) (kind_family b)

-- `_comparison_sql`
unfoldable pub comparison_sql : NormalizedConstraint → String
comparison_sql c =
    if str_eq (kind_family c) "unique"
    then Text.◌++◌ "UNIQUE (" (Text.◌++◌ (join_with ", " c.columns) ")")
    else if str_eq (kind_family c) "not_null"
    then elim c.columns [ column ∷ [] ↦ Text.◌++◌ column " IS NOT NULL" | _ ↦ c.raw_ddl ]
    else c.raw_ddl

-- `{"identical": "T0", "canonical": "T1", "rewrite": "T2"}[result]`
unfoldable pub tier_text : Rung → String
tier_text Rung.identical = "T0"
tier_text Rung.canonical = "T1"
tier_text Rung.rewrite = "T2"

bounds_differ : Shape → Shape → Bool
bounds_differ a b =
    not (option_eq a.lower b.lower)
    || (not (option_eq a.upper b.upper)
        || (not (flag_eq a.lower_inclusive b.lower_inclusive)
            || not (flag_eq a.upper_inclusive b.upper_inclusive)))

-- `_shape_parameters_conflict`, for shapes of the same name.
unfoldable pub parameters_conflict : Shape → Shape → Bool
unfolding bounds_differ
parameters_conflict a b =
    let column = option_eq a.column b.column in
    if str_eq a.name "accepted_values"
    then column && not (list_eq a.values b.values)
    else if str_eq a.name "range"
    then column && bounds_differ a b
    else if str_eq a.name "comparison"
    then column && (not (option_eq a.operator b.operator) || not (option_eq a.value b.value))
    else if str_eq a.name "pattern"
    then column && not (option_eq a.pattern b.pattern)
    else if str_eq a.name "foreign_key"
    then not (option_eq a.target_table b.target_table)
      || not (list_eq a.target_columns b.target_columns)
    else false

shapes_conflict : Option Shape → Option Shape → Bool
unfolding parameters_conflict
shapes_conflict (some a) (some b) = str_eq a.name b.name && parameters_conflict a b
shapes_conflict a b = false

module _ (sql : Sql) where
  -- `_equivalence_tier`
  unfoldable pub equivalence_tier : NormalizedConstraint → NormalizedConstraint → Option Rung
  equivalence_tier database catalog =
      if same_family database catalog
      then equivalent sql (comparison_sql database) (comparison_sql catalog)
      else none

  unfoldable pub folded : NormalizedConstraint → List String
  folded c = map sql.casefold c.columns

  unfoldable pub same_subject : NormalizedConstraint → NormalizedConstraint → Bool
  unfolding folded
  same_subject a b = list_eq (folded a) (folded b)

  unfoldable pub subjects_overlap : NormalizedConstraint → NormalizedConstraint → Bool
  unfolding folded
  subjects_overlap a b = any (λ column. member column (folded b)) (folded a)

  -- `_positive_conflict`
  unfoldable pub positive_conflict : NormalizedConstraint → NormalizedConstraint → Bool
  unfolding shapes_conflict
  positive_conflict database catalog =
      same_subject database catalog
      && (same_family database catalog
          && (not (is_none database.canonical)
              && (not (is_none catalog.canonical) && shapes_conflict database.shape catalog.shape)))

  -- `database.kind == "opaque" or database.canonical is None`
  unfoldable pub is_opaque : NormalizedConstraint → Bool
  is_opaque c = str_eq c.kind "opaque" || is_none c.canonical

  unfoldable pub normalize_claim : Claim → CatalogConstraint
  normalize_claim claim =
      let kind = (claim_sql claim).0 in
      let ddl = (claim_sql claim).1 in
      let initial = normalize_constraint sql kind (claim.column ∷ []) ddl false none in
      record {
        claim = claim;
        normalized = normalize_constraint sql kind (claim_columns claim initial) ddl false none;
      }

  -- The first of the lists that is not empty.
  unfoldable pub first_some :
      List CatalogConstraint → List CatalogConstraint → List CatalogConstraint
  first_some [] later = later
  first_some (item ∷ items) later = item ∷ items

  unfoldable pub counterparts :
      NormalizedConstraint → List CatalogConstraint → List CatalogConstraint
  unfolding first_some
  counterparts database catalog =
      first_some
        (keep
          (λ (item : CatalogConstraint).
            same_subject database item.normalized && same_family database item.normalized)
          catalog)
        (first_some
          (keep
            (λ (item : CatalogConstraint).
              same_family database item.normalized
              && not (is_none (equivalence_tier database item.normalized)))
            catalog)
          (keep
            (λ (item : CatalogConstraint).
              subjects_overlap database item.normalized
              && (is_opaque database || is_none item.normalized.canonical))
            catalog))
