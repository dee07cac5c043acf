-- ===== src/Claims/Models.antt =====
-- Claims (src/sidq/claims/models.py), live constraints (src/sidq/graph/live_source.py) and their
-- normal form (src/sidq/claims/canonical.py). The confidence of a claim, a float, is its text.
use sidq.Prelude.{String, str_eq, Bool, true, false, ◌&&◌, Option, none, some, List, [], ◌∷◌}

pub data ClaimType : Type 0 where
  unique not_null accepted_values relationships expression : ClaimType

pub record Claim : Type 0 where
  pub kind : ClaimType
  pub column : String
  pub values : Option (List String)
  pub expr : Option String
  pub source_sentence : String
  pub confidence : String
  pub origin : String

pub record LiveConstraint : Type 0 where
  pub name : String
  pub kind : String
  pub columns : List String
  pub definition : String
  pub target_schema : Option String
  pub target_table : Option String
  pub target_columns : List String
  pub predicate : Option String
  pub is_partial : Bool

pub record Shape : Type 0 where
  pub name : String
  pub column : Option String
  pub columns : List String
  pub values : List String
  pub lower : Option String
  pub upper : Option String
  pub lower_inclusive : Option Bool
  pub upper_inclusive : Option Bool
  pub operator : Option String
  pub value : Option String
  pub function : Option String
  pub pattern : Option String
  pub target_table : Option String
  pub target_columns : List String

pub record NormalizedConstraint : Type 0 where
  pub kind : String
  pub columns : List String
  pub canonical : Option String
  pub fingerprint : String
  pub shape : Option Shape
  pub raw_ddl : String
  pub is_partial : Bool
  pub partial_predicate : Option String

pub record CatalogConstraint : Type 0 where
  pub claim : Claim
  pub normalized : NormalizedConstraint

pub record DatabaseConstraint : Type 0 where
  pub live : LiveConstraint
  pub normalized : NormalizedConstraint

-- The rungs of `equivalent` that match.
pub data Rung : Type 0 where
  identical canonical rewrite : Rung

unfoldable pub list_eq : List String → List String → Bool
list_eq [] [] = true
list_eq (x ∷ xs) (y ∷ ys) = str_eq x y && list_eq xs ys
list_eq xs ys = false

unfoldable pub option_eq : Option String → Option String → Bool
option_eq none none = true
option_eq (some x) (some y) = str_eq x y
option_eq x y = false

unfoldable pub flag_eq : Option Bool → Option Bool → Bool
flag_eq none none = true
flag_eq (some true) (some true) = true
flag_eq (some false) (some false) = true
flag_eq x y = false

unfoldable pub values_eq : Option (List String) → Option (List String) → Bool
unfolding list_eq
values_eq none none = true
values_eq (some x) (some y) = list_eq x y
values_eq x y = false

unfoldable pub type_text : ClaimType → String
type_text unique = "unique"
type_text not_null = "not_null"
type_text accepted_values = "accepted_values"
type_text relationships = "relationships"
type_text expression = "expression"

-- `==` of the frozen dataclass.
unfoldable pub claim_eq : Claim → Claim → Bool
unfolding type_text values_eq option_eq
claim_eq a b =
    str_eq (type_text a.kind) (type_text b.kind)
    && (str_eq a.column b.column
        && (values_eq a.values b.values
            && (option_eq a.expr b.expr
                && (str_eq a.source_sentence b.source_sentence
                    && (str_eq a.confidence b.confidence && str_eq a.origin b.origin)))))
