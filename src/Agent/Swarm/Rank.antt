-- ===== src/Agent/Swarm/Rank.antt =====
-- The rank of a target in a worker's plan is a total order.
use sidq.Prelude.{
  String, true, false, List, [], ◌∷◌, ◌≡◌, refl, arith, str_le_total, str_le_trans, str_le_antisymm,
  str_eq_iff,
}
use sidq.Agent.Auditor.{Target}
use sidq.Agent.Swarm.{texts_le, tier_rank_le}

texts_le_total : (xs ys : List String) → texts_le xs ys ≡ false → texts_le ys xs ≡ true
unfolding texts_le
texts_le_total [] ys h = ground (arith, h)
texts_le_total (x ∷ xs) [] h = refl
texts_le_total (x ∷ xs) (y ∷ ys) h =
    ground (arith, h, str_eq_iff x y, str_eq_iff y x, str_le_total x y, texts_le_total xs ys)

texts_le_trans :
    (xs ys zs : List String) → texts_le xs ys ≡ true → texts_le ys zs ≡ true → texts_le xs zs ≡ true
unfolding texts_le
texts_le_trans [] ys zs h k = refl
texts_le_trans (x ∷ xs) [] zs h k = ground (arith, h)
texts_le_trans (x ∷ xs) (y ∷ ys) [] h k = ground (arith, k)
texts_le_trans (x ∷ xs) (y ∷ ys) (z ∷ zs) h k = ground (
  arith,
  h,
  k,
  str_eq_iff x y,
  str_eq_iff y z,
  str_eq_iff x z,
  str_le_trans x y z,
  str_le_antisymm x y,
  str_le_antisymm y z,
  texts_le_trans xs ys zs,
)

pub tier_rank_le_total : (s t : Target) → tier_rank_le s t ≡ false → tier_rank_le t s ≡ true
unfolding tier_rank_le
tier_rank_le_total s t h = ground (
  arith,
  h,
  str_eq_iff s.urn t.urn,
  str_eq_iff t.urn s.urn,
  str_le_total s.urn t.urn,
  texts_le_total s.reasons t.reasons,
)

pub tier_rank_le_trans :
    (s t u : Target) → tier_rank_le s t ≡ true → tier_rank_le t u ≡ true → tier_rank_le s u ≡ true
unfolding tier_rank_le
tier_rank_le_trans s t u h k = ground (
  arith,
  h,
  k,
  str_eq_iff s.urn t.urn,
  str_eq_iff t.urn u.urn,
  str_eq_iff s.urn u.urn,
  str_le_trans s.urn t.urn u.urn,
  str_le_antisymm s.urn t.urn,
  str_le_antisymm t.urn u.urn,
  texts_le_trans s.reasons t.reasons u.reasons,
)
