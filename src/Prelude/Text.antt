-- ===== src/Prelude/Text.antt =====
-- What the program uses of Python's `str`: order, prefixes, `split`, `removeprefix`, `in`.
use Prim.Native.Nat.{ℕ}
use Prim.Native.Char.{code}
use Prim.Native.String.{String, compare, ◌++◌}
use Prim.Native.Nat.{Ordering}
use mathlib.Core.Path.{◌≡◌, refl}
use mathlib.Core.Logic.{inl, inr}
use native.Mathlib.Omega.{arith}
use mathlib.Core.Bool.{Bool, true, false}
use mathlib.Core.List.{List, [], ◌∷◌}
use mathlib.Core.Option.{Option, none, some}
use text.Mathlib.Text.{◌==◌ as str_eq}
use text.Mathlib.TextEquality.{eq_iff, Char-path}
use text.Mathlib.TextLemmas.{nil-append, cons-append}
use text.Mathlib.TextPositions.{eq_refl}
use sidq.Prelude.Tests.{Bool-cases, ◌==◌, if◌then◌else◌}

-- Python compares texts by code points, as UTF-8 does.
abbrev pub str_lt : String → String → Bool
str_lt s t = elim (compare s t) [ Ordering.lt ↦ true | _ ↦ false ]

abbrev pub str_le : String → String → Bool
str_le s t = elim (compare s t) [ Ordering.gt ↦ false | _ ↦ true ]

-- `text` past `prefix`, if it begins with it.
after_prefix : String → String → Option String
after_prefix String.[] text = some text
after_prefix (String.◌∷◌ c p) String.[] = none
after_prefix (String.◌∷◌ c p) (String.◌∷◌ d s) = if code c == code d then after_prefix p s else none

-- `text.startswith(prefix)`
unfoldable pub has_prefix : String → String → Bool
unfolding after_prefix
has_prefix prefix text = elim (after_prefix prefix text) [ none ↦ false | some _ ↦ true ]

-- `text.removeprefix(prefix)`
unfoldable pub remove_prefix : String → String → String
unfolding after_prefix
remove_prefix prefix text = elim (after_prefix prefix text) [ none ↦ text | some rest ↦ rest ]

-- `text.endswith(suffix)`
unfoldable pub ends_with : String → String → Bool
ends_with suffix String.[] = str_eq String.[] suffix
ends_with suffix (String.◌∷◌ c s) =
    if str_eq (String.◌∷◌ c s) suffix then true else ends_with suffix s

-- `needle in text`
unfoldable pub is_infix : String → String → Bool
unfolding has_prefix
is_infix needle String.[] = has_prefix needle String.[]
is_infix needle (String.◌∷◌ c s) =
    if has_prefix needle (String.◌∷◌ c s) then true else is_infix needle s

abbrev onto_first : String → List String → List String
onto_first c [] = c ∷ []
onto_first c (part ∷ parts) = (c ++ part) ∷ parts

-- `text.split(separator)` for a separator of one character, given by its code.
unfoldable pub split_on : ℕ → String → List String
split_on separator String.[] = "" ∷ []
split_on separator (String.◌∷◌ c s) =
    let parts = split_on separator s in
    if code c == separator then "" ∷ parts else onto_first (String.◌∷◌ c String.[]) parts

split_on_dots : split_on b'.' "detail.a.b" ≡ "detail" ∷ "a" ∷ "b" ∷ []
unfolding split_on
split_on_dots = refl

text_tests :
    (remove_prefix "detail." "detail.a" ≡ "a")
    × (has_prefix "detail." "subject" ≡ false)
    × (ends_with "_unverifiable" "claim_unverifiable" ≡ true)
    × (is_infix "ab" "cab" ≡ true)
    × (is_infix "" "" ≡ true)
unfolding remove_prefix has_prefix ends_with is_infix
text_tests = (refl, refl, refl, refl, refl)

pub str_eq_of : {s t : String} → s ≡ t → str_eq s t ≡ true
str_eq_of {s} {t} e = (eq_iff s t).1 e

pub str_eq_refl : (s : String) → str_eq s s ≡ true
str_eq_refl = eq_refl

after_prefix_lem :
    (prefix text rest : String) → after_prefix prefix text ≡ some rest → text ≡ prefix ++ rest
unfolding after_prefix
after_prefix_lem String.[] text rest h = ground (arith, h, nil-append rest)
after_prefix_lem (String.◌∷◌ c p) String.[] rest h = ground (arith, h)
after_prefix_lem (String.◌∷◌ c p) (String.◌∷◌ d s) rest h = elim (Bool-cases (code c == code d)) [
  | inl e ↦
      let same : c ≡ d = Char-path c d (ground (arith, e)) in
      let later : s ≡ p ++ rest = after_prefix_lem p s rest (ground (arith, e, h)) in
      rw (cons-append, same, later) refl
  | inr e ↦ ground (arith, e, h)
]

-- A text that begins with a prefix is the prefix and what is left without it.
pub has_prefix_lem :
    (prefix text : String)
    → has_prefix prefix text ≡ true
    → text ≡ prefix ++ remove_prefix prefix text
unfolding has_prefix remove_prefix
has_prefix_lem prefix text h =
    elim (after_prefix prefix text)
        as (λ o.
          after_prefix prefix text ≡ o
          → elim o [ none ↦ false | some _ ↦ true ] ≡ true
          → text ≡ prefix ++ elim o [ none ↦ text | some rest ↦ rest ]) [
            | none ↦ λ e k. ground (arith, k)
            | some rest ↦ λ e k. after_prefix_lem prefix text rest e
          ]
      refl h
