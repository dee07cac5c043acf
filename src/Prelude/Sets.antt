-- ===== src/Prelude/Sets.antt =====
-- Python's `set` of texts and `dict` comprehensions, and counting.
use Prim.Native.Nat.{ℕ, suc, ◌+◌, ◌≤◌}
use Prim.Native.String.{String}
use sidq.Prelude.Tests.{Bool-cases, if◌then◌else◌}
use sidq.Prelude.Lists.{any, length, All, any-append, any-perm}
use sidq.Prelude.Sort.{sorted, sorted-perm}
use sidq.Prelude.Text.{str_le}
use mathlib.Core.Logic.{inl, inr}
use sidq.Prelude.Dict.{Dict, insert, lookup, lookup-insert}
use mathlib.Core.Bool.{Bool, true, false, ◌||◌}
use mathlib.Core.Option.{some}
use mathlib.Core.Path.{◌≡◌, subst, refl}
use native.Mathlib.Omega.{arith}
use text.Mathlib.TextEquality.{eq_iff}
use text.Mathlib.TextPositions.{eq_refl}
use mathlib.Core.List.{List, [], ◌∷◌, ◌++◌}
use text.Mathlib.Text.{◌==◌ as str_eq}

-- `u in urns`
unfoldable pub member : String → List String → Bool
member u urns = any (str_eq u) urns

-- The elements of a set made of the texts, each once.
unfoldable pub distinct : List String → List String
unfolding member
distinct [] = []
distinct (u ∷ us) = let rest = distinct us in if member u rest then rest else u ∷ rest

-- How often a text occurs.
unfoldable pub count : String → List String → ℕ
count u [] = 0
count u (v ∷ vs) = let rest = count u vs in if str_eq v u then suc rest else rest

-- `{key: value for ...}` on top of what is there.
unfoldable pub insert_all {ℓ} : {V : Type ℓ} → List (String × V) → Dict V → Dict V
insert_all [] d = d
insert_all ((k, v) ∷ rest) d = insert_all rest (insert k v d)

-- How many of the texts are not in a set yet: what a loop over a growing set has left.
unfoldable pub remaining : List String → List String → ℕ
unfolding member
remaining [] seen = 0
remaining (u ∷ us) seen = let rest = remaining us seen in if member u seen then rest else suc rest

pub remaining_at_most : (us seen : List String) → remaining us seen ≤ length us
unfolding remaining
remaining_at_most [] seen = ground arith
remaining_at_most (u ∷ us) seen = ground (arith, remaining_at_most us seen)

pub remaining_mono :
    (u : String) (us seen : List String) → remaining us (u ∷ seen) ≤ remaining us seen
unfolding remaining
remaining_mono u [] seen = ground arith
remaining_mono u (v ∷ us) seen = ground (arith, remaining_mono u us seen)

-- A new element of the set leaves less.
pub remaining_new :
    (u : String) (us seen : List String)
    → member u us ≡ true
    → member u seen ≡ false
    → suc (remaining us (u ∷ seen)) ≤ remaining us seen
unfolding remaining member
remaining_new u [] seen h k = ground arith
remaining_new u (v ∷ us) seen h k =
    ground (arith, eq_iff u v, eq_iff v u, remaining_mono u us seen, remaining_new u us seen)

pub distinct-All {κ} : (P : String → Type κ) (us : List String) → All P us → All P (distinct us)
unfolding distinct
distinct-All P [] h = tt
distinct-All P (u ∷ us) h = elim (Bool-cases (member u (distinct us))) [
  | inl e ↦ rw e (distinct-All P us h.1)
  | inr e ↦ rw e (h.0, distinct-All P us h.1)
]

pub count-append : (u : String) (us vs : List String) → count u (us ++ vs) ≡ count u us + count u vs
unfolding count
count-append u [] vs = omega arith
count-append u (w ∷ us) vs = ground (arith, count-append u us vs)

pub member-append :
    (u : String) (us vs : List String) → member u (us ++ vs) ≡ (member u us || member u vs)
unfolding member
member-append u us vs = any-append (str_eq u) us vs

pub inserted {ℓ κ} :
    {V : Type ℓ} (P : String → V → Type κ) (k : String) (v : V) (d : Dict V)
    → P k v
    → ((j : String) (w : V) → lookup j d ≡ some w → P j w)
    → (j : String) (w : V) → lookup j (insert k v d) ≡ some w
    → P j w
inserted P k v d hv hd j w h = elim (Bool-cases (str_eq k j)) [
  | inl e ↦
      let q : v ≡ w = ground (arith, e, h, lookup-insert k j v d) in
      subst (λ i. P i w) ((eq_iff k j).0 e) (subst (P k) q hv)
  | inr e ↦ hd j w (ground (arith, e, h, lookup-insert k j v d))
]

-- What holds of all values of a dictionary.
pub lookup-insert_all {ℓ κ} :
    {V : Type ℓ} (P : String → V → Type κ) (kvs : List (String × V)) (d : Dict V)
    → All (λ (kv : String × V). P kv.0 kv.1) kvs
    → ((k : String) (v : V) → lookup k d ≡ some v → P k v)
    → (k : String) (v : V) → lookup k (insert_all kvs d) ≡ some v
    → P k v
unfolding insert_all
lookup-insert_all P [] d h hd = hd
lookup-insert_all P ((j, w) ∷ kvs) d h hd =
    lookup-insert_all P kvs (insert j w d) h.1 (inserted P j w d h.0 hd)

-- A test on texts that are equal gives the same.
same_text : (p : String → Bool) (u v : String) → str_eq u v ≡ true → p u ≡ p v
same_text p u v h = λ i. p ((eq_iff u v).0 h i)

pub member-distinct : (u : String) (us : List String) → member u (distinct us) ≡ member u us
unfolding distinct member
member-distinct u [] = refl
member-distinct u (v ∷ us) = elim (Bool-cases (str_eq u v)) [
  | inl e ↦
      ground (arith, e, same_text (λ w. any (str_eq w) (distinct us)) u v e, member-distinct u us)
  | inr e ↦ ground (arith, e, member-distinct u us)
]

-- What holds of every member holds of every element.
pub All-from_set {κ} :
    (P : String → Type κ) (us : List String) → ((u : String) → member u us ≡ true → P u) → All P us
unfolding member
All-from_set P [] h = tt
All-from_set P (u ∷ us) h =
    (h u (ground (arith, eq_refl u)), All-from_set P us (λ v k. h v (ground (arith, k))))

member_later :
    (v : String) (us vs : List String)
    → All (λ u. member u us ≡ true) vs
    → All (λ u. member u (v ∷ us) ≡ true) vs
unfolding member
member_later v us [] h = tt
member_later v us (u ∷ vs) h = (ground (arith, h.0), member_later v us vs h.1)

pub member_self : (us : List String) → All (λ u. member u us ≡ true) us
unfolding member
member_self [] = tt
member_self (u ∷ us) = (ground (arith, eq_refl u), member_later u us us (member_self us))

pub member-sorted : (u : String) (us : List String) → member u (sorted str_le us) ≡ member u us
unfolding member
member-sorted u us = any-perm (str_eq u) (sorted-perm str_le us)
