-- ===== src/Gates/Reality/Fields.antt =====
-- When two lists of fields are the same to the reality gate (src/sidq/gates/reality.py,
-- `_field_data`): by their sorted paths, types and nullability.
use sidq.Prelude.{
  String, some, str_eq, str_eq_refl, not, ◌&&◌, any, keep, ◌∙◌, Bool-cases, inl, inr, subst,
  str_eq_of, str_eq_iff, Bool, true, false, List, [], ◌∷◌, ◌≡◌, refl, arith,
}
use sidq.Prelude.Sets.{member, distinct, member-sorted, member-distinct}
use sidq.Prelude.Sort.{sorted}
use sidq.Value.{Value, eq_value, eq_items, arr, strings, get_key, size_fields}
use sidq.Models.{Evidence, SchemaField}
use sidq.Gates.Reality.{field_items, field_data, path_le, paths, difference, mismatch}

-- The same fields in the same order, as far as their paths, types and nullability go.
unfoldable pub SameFields : List SchemaField → List SchemaField → Type 0
SameFields [] [] = Unit
SameFields (f ∷ fs) (g ∷ gs) =
    (f.path ≡ g.path)
    × (f.native_type ≡ g.native_type)
    × (f.nullable ≡ g.nullable)
    × SameFields fs gs
SameFields fs gs = ⊥

bool_same : (a b : Bool) → eq_value (Value.bool a) (Value.bool b) ≡ true → a ≡ b
unfolding eq_value
bool_same true true h = refl
bool_same false false h = refl
bool_same true false h = ground (arith, h)
bool_same false true h = ground (arith, h)

items-SameFields :
    (fs gs : List SchemaField)
    → eq_items (field_items fs) (field_items gs) ≡ true
    → SameFields fs gs
unfolding eq_value field_items get_key size_fields SameFields
items-SameFields [] [] h = tt
items-SameFields [] (g ∷ gs) h = ground (arith, h)
items-SameFields (f ∷ fs) [] h = ground (arith, h)
items-SameFields (f ∷ fs) (g ∷ gs) h = (
  (str_eq_iff f.path g.path).0 (ground (arith, h)),
  (str_eq_iff f.native_type g.native_type).0 (ground (arith, h)),
  bool_same f.nullable g.nullable (ground (arith, h)),
  items-SameFields fs gs (ground (arith, h)),
)

same_bool : (a b : Bool) → a ≡ b → eq_value (Value.bool a) (Value.bool b) ≡ true
unfolding eq_value
same_bool true true e = refl
same_bool false false e = refl
same_bool true false e = ground (arith, e)
same_bool false true e = ground (arith, e)

same_items :
    (fs gs : List SchemaField)
    → SameFields fs gs
    → eq_items (field_items fs) (field_items gs) ≡ true
unfolding eq_value field_items get_key size_fields SameFields
same_items [] [] h = refl
same_items [] (g ∷ gs) h = elim h [ ]
same_items (f ∷ fs) [] h = elim h [ ]
same_items (f ∷ fs) (g ∷ gs) (p, t, n, rest) =
    ground
      (arith, str_eq_of p, str_eq_of t, same_bool f.nullable g.nullable n, same_items fs gs rest)

-- The comparison of the gate.
pub field_data-SameFields :
    (fs gs : List SchemaField)
    → eq_value (field_data fs) (field_data gs) ≡ true
    → SameFields (sorted path_le fs) (sorted path_le gs)
unfolding field_data eq_value
field_data-SameFields fs gs h = items-SameFields (sorted path_le fs) (sorted path_le gs) h

pub field_data_differs :
    (fs gs : List SchemaField)
    → eq_value (field_data fs) (field_data gs) ≡ false
    → ¬ SameFields (sorted path_le fs) (sorted path_le gs)
unfolding field_data eq_value
field_data_differs fs gs h k =
    ground (arith, h, same_items (sorted path_le fs) (sorted path_le gs) k)

unfoldable pub has_path : String → List SchemaField → Bool
has_path p fields = any (λ f. str_eq p f.path) fields

-- The names are those of the fields that the first list has and the second has not.
unfoldable pub Missing : List SchemaField → List SchemaField → List String → Type 0
Missing left right names =
    (p : String) → member p names ≡ (has_path p left && not (has_path p right))

member-paths :
    (p : String) (fields : List SchemaField) → member p (paths fields) ≡ has_path p fields
unfolding member paths has_path
member-paths p [] = refl
member-paths p (f ∷ fields) = ground (arith, member-paths p fields)

member-keep :
    (p : String) (left right : List String)
    → member p (keep (λ q. not (member q right)) left) ≡ (member p left && not (member p right))
unfolding member
member-keep p [] right = refl
member-keep p (q ∷ left) right = elim (Bool-cases (str_eq p q)) [
  | inl e ↦
      subst
        (λ u.
          member p (keep (λ v. not (member v right)) (u ∷ left))
          ≡ (member p (u ∷ left) && not (member p right)))
        ((str_eq_iff p q).0 e) (ground (arith, str_eq_refl p, member-keep p left right))
  | inr e ↦ ground (arith, e, member-keep p left right)
]

difference-Missing :
    (left right : List SchemaField) → Missing left right (difference (paths left) (paths right))
unfolding difference Missing
difference-Missing left right p =
    let kept = keep (λ q. not (member q (paths right))) (paths left) in
    member-sorted p (distinct kept)
    ∙ member-distinct p kept
    ∙ member-keep p (paths left) (paths right)
    ∙ ground (arith, member-paths p left, member-paths p right)

-- The evidence names the asset and the fields that either side lacks.
pub record Reports (urn : String) (catalog live : List SchemaField) (e : Evidence) : Type 0 where
  pub kind_shown : e.kind ≡ "catalog_reality_mismatch"
  pub subject_shown : e.subject ≡ urn
  pub in_graph : List String
  pub in_source : List String
  pub graph_lacks : Missing live catalog in_graph
  pub source_lacks : Missing catalog live in_source
  pub graph_shown : get_key "missing_in_graph" e.detail ≡ some (arr (strings in_graph))
  pub source_shown : get_key "missing_in_source" e.detail ≡ some (arr (strings in_source))

pub mismatch-Reports :
    (urn : String) (catalog live : List SchemaField)
    → Reports urn catalog live (mismatch urn catalog live)
unfolding mismatch get_key
mismatch-Reports urn catalog live = record {
  kind_shown = refl;
  subject_shown = refl;
  in_graph = difference (paths live) (paths catalog);
  in_source = difference (paths catalog) (paths live);
  graph_lacks = difference-Missing live catalog;
  source_lacks = difference-Missing catalog live;
  graph_shown = refl;
  source_shown = refl;
}
