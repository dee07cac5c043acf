-- ===== src/Repair/Proposals/Unique.antt =====
-- `propose_all` keeps one proposal for each mutation.
use sidq.Prelude.{
  String, Bool, true, false, ◌||◌, some, List, [], ◌∷◌, any, map, All, All-map, Bool-cases,
  Option-cases, arith, ◌≡◌, refl, inl, inr, str_eq_refl, subst, sym, ◌∙◌,
}
use sidq.Models.{Evidence}
use sidq.Catalog.Snapshot.{CatalogSnapshot}
use sidq.Receipt.State.{Show}
use sidq.Repair.Proposals.{Proposal, Key, key, key_eq, propose, propose_from, propose_all}

-- No two proposals have the same key.
unfoldable pub AreDistinct : List Proposal → Type 0
AreDistinct [] = Unit
AreDistinct (p ∷ ps) = All (λ q. key_eq (key q) (key p) ≡ false) ps × AreDistinct ps

key_eq_refl : (k : Key) → key_eq k k ≡ true
unfolding key_eq
key_eq_refl k = ground (arith, str_eq_refl k.tool, str_eq_refl k.subject, str_eq_refl k.kind)

-- The key of the proposal that a finding has passes what that of an equal one does.
same_key :
    (q p : Proposal) (test : Key → Bool)
    → some q ≡ some p
    → test (key q) ≡ true
    → test (key p) ≡ true
same_key q p test h k = let e : q ≡ p = cc in subst (λ r. test (key r) ≡ true) e k

module _ (casefold : String → String) (show : Show) (snapshot : CatalogSnapshot) where
  -- Every repair that a finding has is proposed, up to its key.
  unfoldable pub Covers : List Proposal → List Evidence → Type 0
  Covers ps findings =
      All
        (λ finding.
          (p : Proposal)
          → propose casefold show finding snapshot ≡ some p
          → any (key_eq (key p)) (map key ps) ≡ true)
        findings

  fresh_keys :
      (seen : List Key) (findings : List Evidence)
      → All
          (λ p. any (key_eq (key p)) seen ≡ false)
          (propose_from casefold show seen snapshot findings)
  unfolding propose_from
  fresh_keys seen [] = tt
  fresh_keys seen (f ∷ findings) = elim (Option-cases (propose casefold show f snapshot)) [
    | inl e ↦ rw (e, propose_from) (fresh_keys seen findings)
    | inr (p, e) ↦ elim (Bool-cases (any (key_eq (key p)) seen)) [
      | inl k ↦ rw (e, k, propose_from) (fresh_keys seen findings)
      | inr k ↦
          rw (e, k, propose_from)
            (k, All-map _ _ _ (λ q h. ground (arith, h)) (fresh_keys (key p ∷ seen) findings))
    ]
  ]

  propose_from-AreDistinct :
      (seen : List Key) (findings : List Evidence)
      → AreDistinct (propose_from casefold show seen snapshot findings)
  unfolding propose_from AreDistinct
  propose_from-AreDistinct seen [] = tt
  propose_from-AreDistinct seen (f ∷ findings) =
      elim (Option-cases (propose casefold show f snapshot)) [
        | inl e ↦ rw (e, propose_from) (propose_from-AreDistinct seen findings)
        | inr (p, e) ↦ elim (Bool-cases (any (key_eq (key p)) seen)) [
          | inl k ↦ rw (e, k, propose_from) (propose_from-AreDistinct seen findings)
          | inr k ↦
              rw (e, k, propose_from)
                (
                  All-map _ _ _ (λ q h. ground (arith, h)) (fresh_keys (key p ∷ seen) findings),
                  propose_from-AreDistinct (key p ∷ seen) findings,
                )
        ]
      ]

  -- The same, up to the keys that were seen before.
  abbrev SeenOr : List Key → List Proposal → List Evidence → Type 0
  SeenOr seen ps findings =
      All
        (λ finding.
          (p : Proposal)
          → propose casefold show finding snapshot ≡ some p
          → (any (key_eq (key p)) seen || any (key_eq (key p)) (map key ps)) ≡ true)
        findings

  more_seen :
      (q : Proposal) (seen : List Key) (ps : List Proposal) (findings : List Evidence)
      → SeenOr (key q ∷ seen) ps findings
      → SeenOr seen (q ∷ ps) findings
  more_seen q seen ps [] h = tt
  more_seen q seen ps (f ∷ findings) h =
      (λ p e. ground (arith, h.0 p e), more_seen q seen ps findings h.1)

  propose_from-SeenOr :
      (seen : List Key) (findings : List Evidence)
      → SeenOr seen (propose_from casefold show seen snapshot findings) findings
  unfolding propose_from
  propose_from-SeenOr seen [] = tt
  propose_from-SeenOr seen (f ∷ findings) = elim (Option-cases (propose casefold show f snapshot)) [
    | inl e ↦
        let rest = propose_from casefold show seen snapshot findings in
        let s : propose_from casefold show seen snapshot (f ∷ findings) ≡ rest =
          rw (e, propose_from) refl in
        subst (λ ps. SeenOr seen ps (f ∷ findings)) (sym s)
          (λ p h. cc, propose_from-SeenOr seen findings)
    | inr (q, e) ↦ elim (Bool-cases (any (key_eq (key q)) seen)) [
      | inl k ↦
          let rest = propose_from casefold show seen snapshot findings in
          let s : propose_from casefold show seen snapshot (f ∷ findings) ≡ rest =
            rw (e, k, propose_from) refl in
          subst (λ ps. SeenOr seen ps (f ∷ findings)) (sym s)
            (
              λ p h. ground (arith, same_key q p (λ r. any (key_eq r) seen) (sym e ∙ h) k),
              propose_from-SeenOr seen findings,
            )
      | inr k ↦
          let rest = propose_from casefold show (key q ∷ seen) snapshot findings in
          let s : propose_from casefold show seen snapshot (f ∷ findings) ≡ q ∷ rest =
            rw (e, k, propose_from) refl in
          subst (λ ps. SeenOr seen ps (f ∷ findings)) (sym s)
            (
              λ p h.
                  ground
                    (arith, same_key q p (λ r. key_eq r (key q)) (sym e ∙ h) (key_eq_refl (key q))),
              more_seen q seen rest findings (propose_from-SeenOr (key q ∷ seen) findings),
            )
    ]
  ]

-- `propose_all` keeps one proposal for each key, and every finding that `propose` has a repair for
-- has one with that key in the result.
pub propose_all-AreDistinct :
    (casefold : String → String) (show : Show) (snapshot : CatalogSnapshot)
    (findings : List Evidence)
    → AreDistinct (propose_all casefold show findings snapshot)
      × Covers casefold show snapshot (propose_all casefold show findings snapshot) findings
unfolding propose_all Covers
propose_all-AreDistinct casefold show snapshot findings = (
  propose_from-AreDistinct casefold show snapshot [] findings,
  propose_from-SeenOr casefold show snapshot [] findings,
)
