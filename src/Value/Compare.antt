-- ===== src/Value/Compare.antt =====
-- Python's `==`, `<`, `<=`, `in` and `len` on these values. `none` is a raised `TypeError`.
use Prim.Native.String.{count}
use sidq.Prelude.{
  ℕ, String, str_eq, str_lt, str_le, is_infix, Bool, true, false, ◌&&◌, ◌||◌, Option, none, some,
  ◌==◌, if◌then◌else◌, ◌≡◌, refl,
}
use sidq.Prelude.Int.{ℤ, pos, negsuc, ltb_ℤ, leb_ℤ}
use sidq.Value.Defs.{
  Value, null, bool, int, str, arr, tup, obj, Items, nil, cons, Fields, end, field, get_key,
  size_items, size_fields,
}

-- A `bool` is an `int` to Python.
unfoldable pub as_int : Value → Option ℤ
as_int (bool true) = some (pos 1)
as_int (bool false) = some (pos 0)
as_int (int n) = some n
as_int _ = none

abbrev eq_ℤ : ℤ → ℤ → Bool
eq_ℤ a b = leb_ℤ a b && leb_ℤ b a

eq_number : Option ℤ → Option ℤ → Bool
eq_number (some a) (some b) = eq_ℤ a b
eq_number _ _ = false

-- `a == b`. Two mappings are equal if they have as many keys and agree on each.
unfoldable mutual
  unfolding eq_number as_int size_fields get_key

  pub eq_value : Value → Value → Bool
  eq_value null null = true
  eq_value null _ = false
  eq_value (str s) (str t) = str_eq s t
  eq_value (str s) _ = false
  eq_value (arr xs) (arr ys) = eq_items xs ys
  eq_value (arr xs) _ = false
  eq_value (tup xs) (tup ys) = eq_items xs ys
  eq_value (tup xs) _ = false
  eq_value (obj fs) (obj gs) = size_fields fs == size_fields gs && eq_fields fs gs
  eq_value (obj fs) _ = false
  eq_value (bool b) w = eq_number (as_int (bool b)) (as_int w)
  eq_value (int n) w = eq_number (as_int (int n)) (as_int w)

  pub eq_items : Items → Items → Bool
  eq_items nil nil = true
  eq_items nil (cons y ys) = false
  eq_items (cons x xs) nil = false
  eq_items (cons x xs) (cons y ys) = eq_value x y && eq_items xs ys

  pub eq_fields : Fields → Fields → Bool
  eq_fields end gs = true
  eq_fields (field k v rest) gs =
      elim (get_key k gs) [ none ↦ false | some w ↦ eq_value v w ] && eq_fields rest gs

-- `<` is strict, `<=` is loose; `a > b` is `b < a`.
pub data Bound : Type 0 where
  strict loose : Bound

abbrev ordered_ints : Bound → ℤ → ℤ → Bool
ordered_ints strict a b = ltb_ℤ a b
ordered_ints loose a b = leb_ℤ a b

abbrev ordered_strings : Bound → String → String → Bool
ordered_strings strict s t = str_lt s t
ordered_strings loose s t = str_le s t

order_numbers : Bound → Option ℤ → Option ℤ → Option Bool
order_numbers o (some a) (some b) = some (ordered_ints o a b)
order_numbers o _ _ = none

-- Sequences of one type are ordered by their first pair of elements that differ, else by length.
unfoldable mutual
  unfolding eq_value as_int order_numbers

  pub order_value : Bound → Value → Value → Option Bool
  order_value o (str s) (str t) = some (ordered_strings o s t)
  order_value o (str s) _ = none
  order_value o (arr xs) (arr ys) = order_items o xs ys
  order_value o (arr xs) _ = none
  order_value o (tup xs) (tup ys) = order_items o xs ys
  order_value o (tup xs) _ = none
  order_value o null _ = none
  order_value o (obj fs) _ = none
  order_value o (bool b) w = order_numbers o (as_int (bool b)) (as_int w)
  order_value o (int n) w = order_numbers o (as_int (int n)) (as_int w)

  pub order_items : Bound → Items → Items → Option Bool
  order_items strict nil nil = some false
  order_items loose nil nil = some true
  order_items o nil (cons y ys) = some true
  order_items o (cons x xs) nil = some false
  order_items o (cons x xs) (cons y ys) =
      let later = order_items o xs ys in
      let here = order_value o x y in if eq_value x y then later else here

unfoldable mutual
  pub hashable : Value → Bool
  hashable (arr xs) = false
  hashable (obj fs) = false
  hashable (tup xs) = hashable_items xs
  hashable null = true
  hashable (bool b) = true
  hashable (int n) = true
  hashable (str s) = true

  pub hashable_items : Items → Bool
  hashable_items nil = true
  hashable_items (cons x xs) = hashable x && hashable_items xs

mem_items : Value → Items → Bool
unfolding eq_value
mem_items v nil = false
mem_items v (cons x xs) = eq_value x v || mem_items v xs

has_key : Value → Fields → Bool
unfolding get_key
has_key (str k) fs = elim (get_key k fs) [ none ↦ false | some v ↦ true ]
has_key _ fs = false

in_text : Value → String → Option Bool
unfolding is_infix
in_text (str needle) text = some (is_infix needle text)
in_text _ text = none

-- `item in container`. A text holds texts only, and a mapping is asked for hashable keys only.
unfoldable pub contains_value : Value → Value → Option Bool
unfolding mem_items has_key in_text hashable
contains_value container item = elim container [
  | str text ↦ in_text item text
  | arr xs ↦ some (mem_items item xs)
  | tup xs ↦ some (mem_items item xs)
  | obj fs ↦ if hashable item then some (has_key item fs) else none
  | _ ↦ none
]

-- `len(value)`
unfoldable pub len_value : Value → Option ℕ
unfolding size_items size_fields
len_value (str s) = some (count s)
len_value (arr xs) = some (size_items xs)
len_value (tup xs) = some (size_items xs)
len_value (obj fs) = some (size_fields fs)
len_value null = none
len_value (bool b) = none
len_value (int n) = none

abbrev sample : Value
sample = obj (field "n" (int (pos 3)) (field "tags" (arr (cons (str "pii") nil)) end))

value_tests :
    (eq_value (bool true) (int (pos 1)) ≡ true)
    × (eq_value sample sample ≡ true)
    × (eq_value (arr nil) (tup nil) ≡ false)
    × (order_value strict (int (negsuc 0)) (bool false) ≡ some true)
    × (order_value strict (str "a") (int (pos 1)) ≡ none)
    × (contains_value sample (str "tags") ≡ some true)
    × (contains_value sample (arr nil) ≡ none)
    × (len_value (str "abc") ≡ some 3)
unfolding eq_value order_value contains_value len_value
value_tests = (refl, refl, refl, refl, refl, refl, refl, refl)
