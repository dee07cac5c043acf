-- ===== src/Gates/Blast/Targets.antt =====
-- What lineage of columns says of its targets (src/sidq/gates/blast.py, `_maps_every_target`).
use sidq.Prelude.{
  String, str_eq, str_eq_iff, str_eq_refl, Bool, true, false, ◌||◌, some, List, [], ◌∷◌, map, all,
  any, All, Bool-cases, Option-cases, List-cases, ◌≡◌, ◌≢◌, ◌⊎◌, refl, inl, inr, subst, sym, arith,
}
use sidq.Prelude.Dict.{Dict}
use sidq.Prelude.Sets.{member}
use sidq.Catalog.Checks.Columns.{is_empty_list}
use sidq.Gates.Graph.{LineageResult}
use sidq.Gates.Blast.{keys, targets_of, names_columns, maps_every_target}

-- The lineage has an entry for each asset and for no other, which names columns.
pub record MapsTargets (result : LineageResult) : Type 0 where
  pub columns : Dict (List String)
  pub given : result.columns ≡ some columns
  pub same_assets :
      (u : String)
      → member u result.urns ≡ member u (map (λ (kv : String × List String). kv.0) columns)
  pub named : All (λ kv. (kv.1 ≢ []) × (member "" kv.1 ≡ false)) columns

all-member :
    (p : String → Bool) (us : List String)
    → all p us ≡ true
    → (u : String) → member u us ≡ true
    → p u ≡ true
unfolding member
all-member p [] h u k = ground (arith, k)
all-member p (v ∷ us) h u k = elim (Bool-cases (str_eq u v)) [
  | inl e ↦ subst (λ x. p x ≡ true) (sym ((str_eq_iff u v).0 e)) (ground (arith, h))
  | inr e ↦ all-member p us (ground (arith, h)) u (ground (arith, e, k))
]

pub any-member :
    (p : String → Bool) (us : List String) (u : String)
    → member u us ≡ true
    → p u ≡ true
    → any p us ≡ true
unfolding member
any-member p [] u h k = ground (arith, h)
any-member p (v ∷ us) u h k = elim (Bool-cases (str_eq u v)) [
  | inl e ↦ subst (λ x. any p (x ∷ us) ≡ true) ((str_eq_iff u v).0 e) (ground (arith, k))
  | inr e ↦ ground (arith, any-member p us u (ground (arith, e, h)) k)
]

all_named :
    (columns : Dict (List String))
    → all names_columns (targets_of (some columns)) ≡ true
    → All (λ kv. (kv.1 ≢ []) × (member "" kv.1 ≡ false)) columns
unfolding targets_of names_columns is_empty_list
all_named [] h = tt
all_named ((urn, []) ∷ columns) h = ground (arith, h)
all_named ((urn, c ∷ cs) ∷ columns) h =
    ((λ e. ground (arith, e), ground (arith, h)), all_named columns (ground (arith, h)))

maps_some :
    (result : LineageResult) (columns : Dict (List String))
    → result.columns ≡ some columns
    → maps_every_target result ≡ true
    → MapsTargets result
unfolding maps_every_target keys
maps_some result columns e h =
    let k = rw e at h in
    record {
      columns = columns;
      given = e;
      same_assets = λ u. ground (
        arith,
        all-member (λ urn. member urn (keys (some columns))) result.urns (ground (arith, k)) u,
        all-member (λ urn. member urn result.urns) (keys (some columns)) (ground (arith, k)) u,
      );
      named = all_named columns (ground (arith, k));
    }

pub maps_every_target-MapsTargets :
    (result : LineageResult)
    → (is_empty_list result.urns || maps_every_target result) ≡ true
    → (result.urns ≡ []) ⊎ MapsTargets result
unfolding maps_every_target keys is_empty_list member
maps_every_target-MapsTargets result h = elim (List-cases result.urns) [
  | inl e ↦ inl e
  | inr (u, us, e) ↦ elim (Option-cases result.columns) [
    | inl c ↦ let q : false ≡ true = rw (e, c) at h in cc
    | inr (columns, c) ↦ inr (maps_some result columns c (ground (arith, e, h)))
  ]
]

all_of_members :
    (p : String → Bool) (us : List String)
    → ((u : String) → member u us ≡ true → p u ≡ true)
    → all p us ≡ true
unfolding member
all_of_members p [] h = ground arith
all_of_members p (v ∷ us) h = ground (
  arith,
  h v (ground (arith, str_eq_refl v)),
  all_of_members p us (λ u k. h u (ground (arith, k))),
)

named_all :
    (columns : Dict (List String))
    → All (λ kv. (kv.1 ≢ []) × (member "" kv.1 ≡ false)) columns
    → all names_columns (targets_of (some columns)) ≡ true
unfolding targets_of names_columns is_empty_list
named_all [] h = ground arith
named_all ((urn, []) ∷ columns) h = elim (h.0.0 refl) [ ]
named_all ((urn, c ∷ cs) ∷ columns) h = ground (arith, h.0.1, named_all columns h.1)

pub MapsTargets-maps_every_target :
    (result : LineageResult)
    → (result.urns ≡ []) ⊎ MapsTargets result
    → (is_empty_list result.urns || maps_every_target result) ≡ true
unfolding maps_every_target keys is_empty_list
MapsTargets-maps_every_target result (inl e) = ground (arith, e)
MapsTargets-maps_every_target result (inr m) = ground (
  arith,
  m.given,
  all_of_members (λ urn. member urn (keys (some m.columns))) result.urns
      (λ u k. ground (arith, m.same_assets u, k)),
  all_of_members (λ urn. member urn result.urns) (keys (some m.columns))
      (λ u k. ground (arith, m.same_assets u, k)),
  named_all m.columns m.named,
)
