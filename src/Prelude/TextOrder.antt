-- ===== src/Prelude/TextOrder.antt =====
-- Python's order of texts is total, transitive and antisymmetric.
use Prim.Native.Nat.{ℕ, Ordering, compare as compare_ℕ}
use Prim.Native.Char.{code}
use Prim.Native.String.{String, compare, then}
use Prim.Native.String.compare.{nil-nil, nil-cons, cons-nil, cons-cons}
use mathlib.Core.Path.{◌≡◌, refl}
use mathlib.Core.Bool.{true, false}
use native.Mathlib.Omega.{arith}
use text.Mathlib.TextEquality.{path_by_compare}
use sidq.Prelude.Text.{str_le}

abbrev flip : Ordering → Ordering
flip Ordering.lt = Ordering.gt
flip Ordering.eq = Ordering.eq
flip Ordering.gt = Ordering.lt

then-flip : (o p : Ordering) → then (flip o) (flip p) ≡ flip (then o p)
then-flip Ordering.lt p = refl
then-flip Ordering.eq p = refl
then-flip Ordering.gt p = refl

compare_codes_flip : (m n : ℕ) → compare_ℕ m n ≡ flip (compare_ℕ n m)
compare_codes_flip m n = ground arith

compare-flip : (s t : String) → compare s t ≡ flip (compare t s)
compare-flip String.[] String.[] = rw nil-nil
compare-flip String.[] (String.◌∷◌ d t) = rw (nil-cons, cons-nil)
compare-flip (String.◌∷◌ c s) String.[] = rw (cons-nil, nil-cons)
compare-flip (String.◌∷◌ c s) (String.◌∷◌ d t) = rw (cons-cons c d s t) (
    rw (compare_codes_flip (code c) (code d)) (
      rw (compare-flip s t)
        (rw (cons-cons d c t s) (then-flip (compare_ℕ (code d) (code c)) (compare t s)))))

pub str_le_total : (s t : String) → str_le s t ≡ false → str_le t s ≡ true
str_le_total s t h = ground (arith, compare-flip s t)

pub str_le_antisymm : (s t : String) → str_le s t ≡ true → str_le t s ≡ true → s ≡ t
str_le_antisymm s t h k = path_by_compare s t (ground (arith, compare-flip s t))

pub str_le_trans : (s t u : String) → str_le s t ≡ true → str_le t u ≡ true → str_le s u ≡ true
str_le_trans String.[] t String.[] h k = refl
str_le_trans String.[] t (String.◌∷◌ e u) h k = ground (arith, nil-cons e u)
str_le_trans (String.◌∷◌ c s) String.[] u h k = ground (arith, cons-nil c s)
str_le_trans (String.◌∷◌ c s) (String.◌∷◌ d t) String.[] h k = ground (arith, cons-nil d t)
str_le_trans (String.◌∷◌ c s) (String.◌∷◌ d t) (String.◌∷◌ e u) h k =
    ground (arith, cons-cons c d s t, cons-cons d e t u, cons-cons c e s u, str_le_trans s t u)
