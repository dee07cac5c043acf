-- ===== src/Receipt/Confirm/Exact.antt =====
-- What the readback of src/sidq/receipt/write.py takes for the exact receipt.
use mathlib.Core.List.{Perm}
use mathlib.Core.List.Perm
use sidq.Prelude.{
  String, str_eq, str_eq_iff, str_le, remove_prefix, true, false, Option, none, some, List, [], ◌∷◌,
  map, Bool-cases, Option-cases, ◌≡◌, ◌≢◌, ◌⊎◌, refl, sym, subst, inl, inr, arith,
}
use sidq.Prelude.Dict.{Dict, lookup}
use sidq.Prelude.Sort.{sorted, sorted-perm}
use sidq.Value.{Fields}
use sidq.Receipt.State.{Show}
use sidq.Receipt.Build.{Receipt, structured_property_values}
use sidq.Receipt.Read.{sidq_values, property_prefix}
use sidq.Receipt.Badges.{managed_badge_state}
use sidq.Receipt.Confirm.{
  badge_of, texts_eq, sorted_at, same_at, agrees, same_values, expected_values, shows_receipt,
}

-- The same values in some order, or none on both sides.
unfoldable pub Alike : Option (List String) → Option (List String) → Type 0
Alike none none = Unit
Alike (some a) (some b) = Perm a b
Alike a b = ⊥

-- Every name has the same values on both sides.
unfoldable pub SameValues : Dict (List String) → Dict (List String) → Type 0
SameValues a b = (name : String) → Alike (lookup name a) (lookup name b)

-- The one badge of a verdict.
unfoldable pub IsBadge : String → String → Type 0
IsBadge verdict badge =
    ((verdict ≡ "BLOCK") × (badge ≡ "urn:li:tag:sidq:blocked"))
    ⊎ ((verdict ≢ "BLOCK") × (badge ≡ "urn:li:tag:sidq:verified"))

-- The entity holds the properties of the receipt under their names and no others of this tool, and
-- the badge of its verdict and no other.
pub record ShowsExactly (show : Show) (receipt : Receipt) (entity : Fields) : Type 0 where
  pub properties : SameValues (sidq_values show entity) (
      map
        (λ (kv : String × List String). (remove_prefix property_prefix kv.0, kv.1))
        (structured_property_values receipt))
  pub badge : String
  pub one_badge : managed_badge_state entity ≡ (badge ∷ [], false)
  pub of_verdict : IsBadge receipt.verdict badge

texts_equal : (xs ys : List String) → texts_eq xs ys ≡ true → xs ≡ ys
unfolding texts_eq
texts_equal [] [] h = refl
texts_equal [] (y ∷ ys) h = ground (arith, h)
texts_equal (x ∷ xs) [] h = ground (arith, h)
texts_equal (x ∷ xs) (y ∷ ys) h =
    rw ((str_eq_iff x y).0 (ground (arith, h)), texts_equal xs ys (ground (arith, h))) refl

same_sorted : (a b : List String) → texts_eq (sorted str_le a) (sorted str_le b) ≡ true → Perm a b
same_sorted a b h = Perm.trans (Perm.symm (sorted-perm str_le a)) (
    subst (λ xs. Perm xs b) (sym (texts_equal (sorted str_le a) (sorted str_le b) h))
      (sorted-perm str_le b))

same_at-Alike :
    (name : String) (a b : Dict (List String))
    → same_at (sorted_at name a) (sorted_at name b) ≡ true
    → Alike (lookup name a) (lookup name b)
unfolding same_at sorted_at Alike
same_at-Alike name a b h = elim (Option-cases (lookup name a)) [
  | inl e ↦ let q : false ≡ true = ground (arith, e, h) in cc
  | inr (vs, e) ↦ elim (Option-cases (lookup name b)) [
    | inl f ↦ let q : false ≡ true = ground (arith, e, f, h) in cc
    | inr (ws, f) ↦ rw (e, f) (same_sorted vs ws (ground (arith, e, f, h)))
  ]
]

-- A name that is a key of some pairs has what all of them have.
agrees_at :
    (keys a b : Dict (List String)) (name : String) (vs : List String)
    → agrees keys a b ≡ true
    → lookup name keys ≡ some vs
    → same_at (sorted_at name a) (sorted_at name b) ≡ true
unfolding agrees lookup
agrees_at [] a b name vs h k = ground (arith, k)
agrees_at ((key, us) ∷ keys) a b name vs h k = elim (Bool-cases (str_eq key name)) [
  | inl e ↦
      subst (λ n. same_at (sorted_at n a) (sorted_at n b) ≡ true) ((str_eq_iff key name).0 e)
        (ground (arith, h))
  | inr e ↦ agrees_at keys a b name vs (ground (arith, h)) (ground (arith, e, k))
]

same_values-SameValues : (a b : Dict (List String)) → same_values a b ≡ true → SameValues a b
unfolding same_values SameValues Alike
same_values-SameValues a b h name = elim (Option-cases (lookup name a)) [
  | inr (vs, e) ↦ same_at-Alike name a b (agrees_at a a b name vs (ground (arith, h)) e)
  | inl e ↦ elim (Option-cases (lookup name b)) [
    | inr (ws, f) ↦ same_at-Alike name a b (agrees_at b a b name ws (ground (arith, h)) f)
    | inl f ↦ rw (e, f) tt
  ]
]

badge_of-IsBadge : (verdict : String) → IsBadge verdict (badge_of verdict)
unfolding badge_of IsBadge
badge_of-IsBadge verdict = elim (Bool-cases (str_eq verdict "BLOCK")) [
  | inl e ↦ rw (badge_of, e) (inl ((str_eq_iff verdict "BLOCK").0 e, refl))
  | inr e ↦
      rw (badge_of, e)
        (inr (
          λ (same : verdict ≡ "BLOCK").
              let q : false ≡ true = ground (arith, e, (str_eq_iff verdict "BLOCK").1 same) in cc,
          refl,
        ))
]

-- The test of the readback.
pub shows_receipt-ShowsExactly :
    (show : Show) (receipt : Receipt) (entity : Fields)
    → shows_receipt show receipt entity ≡ true
    → ShowsExactly show receipt entity
unfolding shows_receipt expected_values
shows_receipt-ShowsExactly show receipt entity h = record {
  properties = same_values-SameValues (sidq_values show entity) _ (ground (arith, h));
  badge = badge_of receipt.verdict;
  one_badge =
      let badges = managed_badge_state entity in
      let one = texts_equal badges.0 (badge_of receipt.verdict ∷ []) (ground (arith, h)) in
      let plain : badges.1 ≡ false = ground (arith, h) in cc;
  of_verdict = badge_of-IsBadge receipt.verdict;
}
