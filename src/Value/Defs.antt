-- ===== src/Value/Defs.antt =====
-- What `json` and `yaml` give, with texts for the keys of a mapping and no floats. `tup` is the
-- tuple, which `==` tells from a list.
use sidq.Prelude.{ℕ, suc, String, str_eq, Bool, Option, none, some, List, [], ◌∷◌, if◌then◌else◌}
use sidq.Prelude.Int.{ℤ}

mutual
  pub data Value : Type 0 where
    null : Value
    bool : Bool → Value
    int : ℤ → Value
    str : String → Value
    arr : Items → Value
    tup : Items → Value
    obj : Fields → Value

  pub data Items : Type 0 where
    nil : Items
    cons : Value → Items → Items

  pub data Fields : Type 0 where
    end : Fields
    field : String → Value → Fields → Fields

-- `mapping.get(key)`, a missing key told from a `None`.
unfoldable pub get_key : String → Fields → Option Value
get_key k end = none
get_key k (field j v rest) = if str_eq j k then some v else get_key k rest

unfoldable pub size_items : Items → ℕ
size_items nil = 0
size_items (cons v vs) = suc (size_items vs)

unfoldable pub size_fields : Fields → ℕ
size_fields end = 0
size_fields (field k v rest) = suc (size_fields rest)

-- A sequence of texts as a sequence of values.
unfoldable pub strings : List String → Items
strings [] = nil
strings (s ∷ ss) = cons (str s) (strings ss)

-- The elements of a list, for a `for` loop over it.
unfoldable pub items_of : Items → List Value
items_of nil = []
items_of (cons v vs) = v ∷ items_of vs
