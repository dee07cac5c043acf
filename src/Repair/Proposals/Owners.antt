-- ===== src/Repair/Proposals/Owners.antt =====
-- `_propose_owner` proposes only the one owner that all owned upstream assets have.
use sidq.Prelude.{
  String, true, none, some, List, [], ◌∷◌, ◌++◌, keep, map, concat, All, All-first, All-second,
  All-keep, Option-cases, List-cases, arith, ◌≡◌, refl, inl, inr, str_eq_refl, str_eq_iff, subst,
  sym, ap, ◌∙◌, of_some,
}
use sidq.Prelude.Dict.{lookup}
use sidq.Prelude.Sets.{member, distinct, member-distinct, All-from_set}
use sidq.Catalog.Checks.Columns.{is_empty_list}
use sidq.Models.{Evidence}
use sidq.Catalog.Snapshot.{CatalogEntity, CatalogSnapshot}
use sidq.Repair.Proposals.{
  Proposal, listed, targets, first_with_urn, is_upstream, upstream_entities, owned_upstreams,
  has_owner, candidates, owner_proposal, propose_owner, zip_targets,
}

-- `owner` has `entity`, and nobody else does.
unfoldable pub OnlyOwner : String → CatalogEntity → Type 0
OnlyOwner owner entity = All (λ o. o ≡ owner) entity.owners

unfoldable pub IsUnanimous : String → String → CatalogSnapshot → Type 0
unfolding OnlyOwner
IsUnanimous urn owner snapshot =
    All (λ entity. is_upstream snapshot.edges urn entity ≡ true → OnlyOwner owner entity)
      snapshot.entities

-- All elements of a list whose set has one.
only_member :
    (owner : String) (names : List String)
    → distinct names ≡ owner ∷ []
    → All (λ o. o ≡ owner) names
unfolding member
only_member owner names h =
    All-from_set (λ o. o ≡ owner) names
      (λ o k.
        (str_eq_iff o owner).0
          (ground (arith, subst (λ us. member o us ≡ true) h (member-distinct o names ∙ k))))

owners_in : List CatalogEntity → List String
owners_in entities = concat (map (λ (e : CatalogEntity). e.owners) entities)

-- An asset that is left out has no owner.
owners_step :
    (entity : CatalogEntity) (entities : List CatalogEntity)
    → owners_in (keep has_owner (entity ∷ entities))
      ≡ entity.owners ++ owners_in (keep has_owner entities)
unfolding owners_in has_owner is_empty_list
owners_step entity entities = elim (List-cases entity.owners) [
  | inl e ↦ ground (arith, e)
  | inr (o, os, e) ↦ ground (arith, e)
]

owners_of :
    (owner : String) (entities : List CatalogEntity)
    → All (λ o. o ≡ owner) (owners_in (keep has_owner entities))
    → All (OnlyOwner owner) entities
unfolding OnlyOwner
owners_of owner [] h = tt
owners_of owner (entity ∷ entities) h =
    let k : All (λ o. o ≡ owner) (entity.owners ++ owners_in (keep has_owner entities)) =
      subst (All (λ o. o ≡ owner)) (owners_step entity entities) h in
    (
      All-first (λ o. o ≡ owner) entity.owners (owners_in (keep has_owner entities)) k,
      owners_of owner entities
          (All-second (λ o. o ≡ owner) entity.owners (owners_in (keep has_owner entities)) k),
    )

-- What a proposal for an owner says.
unfoldable pub NamesOwner : CatalogSnapshot → Evidence → Proposal → Type 0
unfolding IsUnanimous owned_upstreams owners_in
NamesOwner snapshot finding p =
    (owner : String) × (p.tool ≡ "add_owners")
    × (listed "owner_urns" p.arguments ≡ owner ∷ [])
    × (targets p ≡ (finding.subject, none) ∷ [])
    × IsUnanimous finding.subject owner snapshot
    × (member owner (owners_in (owned_upstreams finding.subject snapshot)) ≡ true)

first_member : (u : String) → member u (u ∷ []) ≡ true
unfolding member
first_member u = ground (arith, str_eq_refl u)

-- A proposal is made only from a set of one owner.
owner_proposal_one :
    (finding : Evidence) (snapshot : CatalogSnapshot) (owners : List String) (p : Proposal)
    → owner_proposal finding snapshot owners ≡ some p
    → (owner : String) × (owners ≡ owner ∷ [])
      × (owner_proposal finding snapshot (owner ∷ []) ≡ some p)
unfolding owner_proposal
owner_proposal_one finding snapshot [] p h = cc
owner_proposal_one finding snapshot (owner ∷ []) p h = (owner, refl, h)
owner_proposal_one finding snapshot (a ∷ b ∷ owners) p h = cc

owner_proposal-NamesOwner :
    (finding : Evidence) (snapshot : CatalogSnapshot) (p : Proposal)
    → owner_proposal finding snapshot (candidates finding.subject snapshot) ≡ some p
    → NamesOwner snapshot finding p
unfolding lookup upstream_entities NamesOwner candidates owned_upstreams IsUnanimous owners_in
    owner_proposal targets listed zip_targets
owner_proposal-NamesOwner finding snapshot p h =
    let one = owner_proposal_one finding snapshot (candidates finding.subject snapshot) p h in
    (
      one.0,
      sym (ap (of_some (λ r. r.tool) "") one.2),
      sym (ap (of_some (λ r. listed "owner_urns" r.arguments) []) one.2),
      sym (ap (of_some targets []) one.2),
      All-keep (OnlyOwner one.0) (is_upstream snapshot.edges finding.subject) snapshot.entities (
          owners_of one.0 (upstream_entities finding.subject snapshot)
            (only_member one.0 (owners_in (owned_upstreams finding.subject snapshot)) one.1)),
      sym (member-distinct one.0 (owners_in (owned_upstreams finding.subject snapshot)))
          ∙ subst (λ us. member one.0 us ≡ true) (sym one.1) (first_member one.0),
    )

first_unowned :
    (finding : Evidence) (snapshot : CatalogSnapshot) (p : Proposal)
    → propose_owner finding snapshot ≡ some p
    → ((entity : CatalogEntity) × (first_with_urn finding.subject snapshot.entities ≡ some entity)
        × (entity.owners ≡ []))
      × (owner_proposal finding snapshot (candidates finding.subject snapshot) ≡ some p)
unfolding propose_owner is_empty_list
first_unowned finding snapshot p h =
    elim (Option-cases (first_with_urn finding.subject snapshot.entities)) [
      | inl e ↦ let q : none ≡ some p = ground (arith, e, h) in cc
      | inr (entity, e) ↦ elim (List-cases entity.owners) [
        | inl k ↦ ((entity, e, k), ground (arith, e, k, h))
        | inr (o, os, k) ↦ let q : none ≡ some p = ground (arith, e, k, h) in cc
      ]
    ]

-- An owner is proposed only for an asset that exists without one. It is the one owner that every
-- asset upstream has that has any, some do, and the proposal writes it to that asset alone.
pub propose_owner-NamesOwner :
    (finding : Evidence) (snapshot : CatalogSnapshot) (p : Proposal)
    → propose_owner finding snapshot ≡ some p
    → ((entity : CatalogEntity) × (first_with_urn finding.subject snapshot.entities ≡ some entity)
        × (entity.owners ≡ []))
      × NamesOwner snapshot finding p
propose_owner-NamesOwner finding snapshot p h =
    let found = first_unowned finding snapshot p h in
    (found.0, owner_proposal-NamesOwner finding snapshot p found.1)
