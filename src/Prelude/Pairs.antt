-- ===== src/Prelude/Pairs.antt =====
-- Python's tuples of two texts, as elements of a `set`.
use sidq.Prelude.Tests.{if◌then◌else◌, Bool-cases}
use sidq.Prelude.Lists.{any, any-perm, keep, All}
use sidq.Prelude.Text.{str_le}
use Prim.Native.String.{String}
use mathlib.Core.Path.{◌≡◌, refl, sym, subst}
use mathlib.Core.Logic.{inl, inr}
use mathlib.Core.Bool.{Bool, true, false, not, ◌&&◌}
use mathlib.Core.List.{List, [], ◌∷◌, Perm}
use native.Mathlib.Omega.{arith}
use text.Mathlib.Text.{◌==◌ as str_eq}
use text.Mathlib.TextEquality.{eq_iff}
use text.Mathlib.TextPositions.{eq_refl}

abbrev pub Pair : Type 0
Pair = String × String

abbrev pub pair_eq : Pair → Pair → Bool
pair_eq a b = str_eq a.0 b.0 && str_eq a.1 b.1

-- `a <= b`
unfoldable pub pair_le : Pair → Pair → Bool
pair_le a b = if str_eq a.0 b.0 then str_le a.1 b.1 else str_le a.0 b.0

-- `a in pairs`
unfoldable pub has_pair : Pair → List Pair → Bool
has_pair a pairs = any (pair_eq a) pairs

-- The elements of a set made of the pairs, each once.
unfoldable pub distinct_pairs : List Pair → List Pair
unfolding has_pair
distinct_pairs [] = []
distinct_pairs (a ∷ pairs) =
    let rest = distinct_pairs pairs in if has_pair a rest then rest else a ∷ rest

-- `set(xs) - set(ys)`
unfoldable pub minus : List Pair → List Pair → List Pair
unfolding has_pair
minus xs ys = keep (λ a. not (has_pair a ys)) (distinct_pairs xs)

pub pair_eq_of : (a b : Pair) → pair_eq a b ≡ true → a ≡ b
pair_eq_of (a, c) (b, d) h =
    let p : a ≡ b = (eq_iff a b).0 (ground (arith, h)) in
    let q : c ≡ d = (eq_iff c d).0 (ground (arith, h)) in λ i. (p i, q i)

pub pair_eq_refl : (a : Pair) → pair_eq a a ≡ true
pair_eq_refl a = ground (arith, eq_refl a.0, eq_refl a.1)

pub has_pair-perm : (a : Pair) {xs ys : List Pair} → Perm xs ys → has_pair a xs ≡ has_pair a ys
unfolding has_pair
has_pair-perm a h = any-perm (pair_eq a) h

-- A test on pairs that are equal gives the same.
same_test : (p : Pair → Bool) (a b : Pair) → pair_eq a b ≡ true → p a ≡ p b
same_test p a b h = λ i. p (pair_eq_of a b h i)

pub has_pair-keep :
    (p : Pair → Bool) (a : Pair) (xs : List Pair) → has_pair a (keep p xs) ≡ (has_pair a xs && p a)
unfolding has_pair
has_pair-keep p a [] = refl
has_pair-keep p a (b ∷ xs) = elim (Bool-cases (pair_eq a b)) [
  | inl e ↦ ground (arith, e, same_test p a b e, has_pair-keep p a xs)
  | inr e ↦ ground (arith, e, has_pair-keep p a xs)
]

pub has_pair-distinct : (a : Pair) (xs : List Pair) → has_pair a (distinct_pairs xs) ≡ has_pair a xs
unfolding has_pair distinct_pairs
has_pair-distinct a [] = refl
has_pair-distinct a (b ∷ xs) = elim (Bool-cases (pair_eq a b)) [
  | inl e ↦
      ground
        (arith, e, same_test (λ c. has_pair c (distinct_pairs xs)) a b e, has_pair-distinct a xs)
  | inr e ↦ ground (arith, e, has_pair-distinct a xs)
]

pub has_pair-minus :
    (a : Pair) (xs ys : List Pair)
    → has_pair a (minus xs ys) ≡ (has_pair a xs && not (has_pair a ys))
unfolding minus
has_pair-minus a xs ys =
    ground (
      arith,
      has_pair-keep (λ b. not (has_pair b ys)) a (distinct_pairs xs),
      has_pair-distinct a xs,
    )

-- What holds of every element holds of one that is among them.
pub All-has_pair {κ} :
    (P : Pair → Type κ) (a : Pair) (xs : List Pair) → has_pair a xs ≡ true → All P xs → P a
unfolding has_pair
All-has_pair P a [] h k = absurd (no h)
  where
    no : false ≡ true → ⊥
    no e = cc
All-has_pair P a (b ∷ xs) h k = elim (Bool-cases (pair_eq a b)) [
  | inl e ↦ subst P (sym (pair_eq_of a b e)) k.0
  | inr e ↦ All-has_pair P a xs (ground (arith, e, h)) k.1
]

pub All_from_pairs {κ} :
    (P : Pair → Type κ) (xs : List Pair) → ((a : Pair) → has_pair a xs ≡ true → P a) → All P xs
unfolding has_pair
All_from_pairs P [] h = tt
All_from_pairs P (a ∷ xs) h =
    (h a (ground (arith, pair_eq_refl a)), All_from_pairs P xs (λ b k. h b (ground (arith, k))))
