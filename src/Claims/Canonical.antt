-- ===== src/Claims/Canonical.antt =====
-- The normal form of a constraint and the comparison of two texts (`normalize_constraint` and
-- `equivalent` in src/sidq/claims/canonical.py). What the module has sqlglot parse, rewrite and
-- render is a parameter, as are SHA-256, the split on white space and `str.casefold`.
use Prim.Native.String as Text
use sidq.Prelude.{
  String, str_eq, Bool, true, false, ◌||◌, Option, none, some, List, [], ◌∷◌, if◌then◌else◌,
}
use sidq.Claims.Models.{Shape, NormalizedConstraint, Rung, option_eq}

-- What is read off a parsed constraint: its rendering, the target of a foreign key, and the
-- shape of a check.
pub record Tree : Type 0 where
  pub rendered : Option String
  pub target : Option (String × List String)
  pub check_shape : Option Shape

-- The parameters: `_parse_constraint_predicate`, `canonicalize`, `_rewrite_canonical`, the first 16
-- digits of SHA-256, `" ".join(text.split())`, `not text.strip()` and `str.casefold`.
pub record Sql : Type 0 where
  pub parse : String → String → Option Tree
  pub canonicalize : String → Option String
  pub rewrite_canonical : String → Option String
  pub digest : String → String
  pub collapse : String → String
  pub is_blank : String → Bool
  pub casefold : String → String

unfoldable pub is_none {ℓ} : {A : Type ℓ} → Option A → Bool
is_none none = true
is_none (some a) = false

unfoldable pub or_else : Option String → String → String
or_else none later = later
or_else (some s) later = s

unfoldable pub single : List String → Option String
single (column ∷ []) = some column
single columns = none

-- A shape that says no more than its name, its column and its columns.
unfoldable pub plain_shape : String → Option String → List String → Shape
plain_shape name column columns = record {
  name = name;
  column = column;
  columns = columns;
  values = [];
  lower = none;
  upper = none;
  lower_inclusive = none;
  upper_inclusive = none;
  operator = none;
  value = none;
  function = none;
  pattern = none;
  target_table = none;
  target_columns = [];
}

target_of : Option Tree → Option (String × List String)
target_of none = none
target_of (some tree) = tree.target

-- `_foreign_key_shape`
unfoldable pub foreign_key_shape : List String → Option Tree → Shape
unfolding plain_shape target_of
foreign_key_shape columns tree = elim (target_of tree) [
  | none ↦ plain_shape "foreign_key" none columns
  | some (table, targets) ↦ record (plain_shape "foreign_key" none columns) {
    target_table = some table;
    target_columns = targets;
  }
]

check_of : Option Tree → Option Shape
check_of none = none
check_of (some tree) = tree.check_shape

rendering : Option Tree → Option String
rendering none = none
rendering (some tree) = tree.rendered

module _ (sql : Sql) where
  -- `_detect_shape`
  unfoldable pub detect_shape : String → List String → Option Tree → Option Shape
  unfolding plain_shape single foreign_key_shape check_of
  detect_shape kind columns tree =
      let folded = sql.casefold kind in
      if str_eq folded "not_null"
      then some (plain_shape "not_null" (single columns) columns)
      else if str_eq folded "unique" || str_eq folded "primary_key"
      then some (plain_shape "unique" none columns)
      else if str_eq folded "foreign_key"
      then some (foreign_key_shape columns tree)
      else if str_eq folded "check"
      then check_of tree
      else none

  -- `_normalise_raw`
  unfoldable pub normalise_raw : String → String
  normalise_raw ddl = sql.casefold (sql.collapse ddl)

  -- `_fingerprint`
  unfoldable pub fingerprint : String → String → String
  fingerprint kind source = Text.◌++◌ (sql.casefold kind) (Text.◌++◌ ":" (sql.digest source))

  unfoldable pub normalize_constraint :
      String → List String → String → Bool → Option String → NormalizedConstraint
  unfolding rendering or_else detect_shape normalise_raw fingerprint
  normalize_constraint kind columns ddl is_partial partial_predicate =
      let tree = sql.parse kind ddl in
      let canonical = rendering tree in
      record {
        kind = kind;
        columns = columns;
        canonical = canonical;
        fingerprint = fingerprint kind (or_else canonical (normalise_raw ddl));
        shape = detect_shape kind columns tree;
        raw_ddl = ddl;
        is_partial = is_partial;
        partial_predicate = partial_predicate;
      }

  -- `_raw_fingerprint`
  unfoldable pub raw_fingerprint : String → Option String
  unfolding fingerprint normalise_raw
  raw_fingerprint text =
      if sql.is_blank text then none else some (fingerprint "check" (normalise_raw text))

  -- `equivalent`, for the pairs that it says match.
  unfoldable pub equivalent : String → String → Option Rung
  unfolding raw_fingerprint option_eq is_none
  equivalent left right =
      if option_eq (raw_fingerprint left) (raw_fingerprint right)
      then some Rung.identical
      else if is_none (sql.canonicalize left) || is_none (sql.canonicalize right)
      then none
      else if option_eq (sql.canonicalize left) (sql.canonicalize right)
      then some Rung.canonical
      else elim (sql.rewrite_canonical left) [
        | none ↦ none
        | some rewritten ↦
            if option_eq (some rewritten) (sql.rewrite_canonical right)
            then some Rung.rewrite
            else none
      ]
