-- ===== src/Catalog/Tags.antt =====
-- What a tag says of a column (`is_pii_tag`, `_is_protection_tag`, `_is_negated_tag`).
-- `casefold` is Python's method, whose table of characters stays a parameter.
use sidq.Prelude.{
  leb, String, str_eq, has_prefix, remove_prefix, is_infix, Bool, true, false, ◌&&◌, ◌||◌, List, [],
  ◌∷◌, any, if◌then◌else◌, split_on,
}
use sidq.Prelude.Sets.{member}
use Prim.Native.Char.{Char, code}
use Prim.Native.String.{◌++◌}

-- `text.rsplit(":", 1)[-1]`
last_of : String → List String → String
last_of s [] = s
last_of s (part ∷ parts) = last_of part parts

unfoldable pub after_colon : String → String
unfolding last_of
after_colon text = last_of "" (split_on b':' text)

is_lower_or_digit : Char → Bool
is_lower_or_digit c =
    (leb b'a' (code c) && leb (code c) b'z') || (leb b'0' (code c) && leb (code c) b'9')

is_upper : Char → Bool
is_upper c = leb b'A' (code c) && leb (code c) b'Z'

-- `re.sub(r"(?<=[a-z0-9])(?=[A-Z])", "_", text)`; `low` says that such a character is before.
separate_from : Bool → String → String
unfolding is_lower_or_digit is_upper
separate_from low String.[] = String.[]
separate_from low (String.◌∷◌ c s) =
    let rest = String.◌∷◌ c (separate_from (is_lower_or_digit c) s) in
    if low && is_upper c then "_" ++ rest else rest

-- `re.findall(r"[a-z0-9]+", text)`, with the word that is being read.
words_from : String → String → List String
unfolding is_lower_or_digit
words_from word String.[] = if str_eq word "" then [] else word ∷ []
words_from word (String.◌∷◌ c s) =
    let rest = words_from (if is_lower_or_digit c then word ++ String.◌∷◌ c String.[] else "") s in
    if is_lower_or_digit c then rest else if str_eq word "" then rest else word ∷ rest

-- `"".join(words)`
join : List String → String
join [] = ""
join (w ∷ ws) = w ++ join ws

abbrev pub protection_markers : List String
protection_markers =
    "pii" ∷ "gdpr" ∷ "hipaa" ∷ "phi" ∷ "sensitive" ∷ "confidential" ∷ "restricted" ∷ "personal"
    ∷ "private" ∷ "ccpa" ∷ "pci" ∷ []

module _ (casefold : String → String) where
  unfoldable pub tag_words : String → List String
  unfolding separate_from words_from
  tag_words tag = words_from "" (casefold (separate_from false (after_colon tag)))

  unfoldable pub compact : String → String
  unfolding join
  compact tag = join (tag_words tag)

  -- The loop over the prefixes, for a tag's words run together.
  negated_by : String → List String → Bool
  negated_by word [] = false
  negated_by word (prefix ∷ prefixes) =
      (has_prefix prefix word
        && any (λ m. has_prefix m (remove_prefix prefix word)) protection_markers)
      || negated_by word prefixes

  unfoldable pub is_negated_tag : String → Bool
  unfolding negated_by
  is_negated_tag tag = negated_by (compact tag) ("not" ∷ "non" ∷ "no" ∷ [])

  unfoldable pub is_pii_tag : String → Bool
  is_pii_tag tag =
      if is_negated_tag tag
      then false
      else is_infix "pii" (compact tag) || is_infix "personallyidentifiable" (compact tag)

  unfoldable pub is_protection_tag : String → Bool
  is_protection_tag tag =
      if is_negated_tag tag
      then false
      else any (λ m. is_infix m (after_colon (casefold tag))) protection_markers

  unfoldable pub carries_equivalent_protection : List String → List String → Bool
  carries_equivalent_protection source_pii_tags target_tags =
      if any (λ t. member t target_tags) source_pii_tags
      then true
      else any is_protection_tag target_tags
