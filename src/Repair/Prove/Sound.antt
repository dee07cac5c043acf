-- ===== src/Repair/Prove/Sound.antt =====
-- What `prove` clears for writing.
use sidq.Prelude.{
  ℕ, String, str_le, ends_with, true, false, List, [], ◌∷◌, keep, map, All, All-map, All-when,
  All-pure, map-All, not_kept, keep-All, Bool-cases, arith, ◌≡◌, refl, inl, inr, sym, subst,
}
use sidq.Prelude.Pairs.{Pair, has_pair, minus, has_pair-minus, has_pair-keep}
use sidq.Prelude.Sort.{sorted, sorted_none}
use sidq.Catalog.Checks.Columns.{is_empty_list}
use sidq.Catalog.Snapshot.{CatalogSnapshot}
use sidq.Repair.Proposals.{Proposal}
use sidq.Repair.Simulate.{simulate, simulate_all}
use sidq.Repair.Prove.{
  RepairOutcome, Gate, writable, target_key, findings, unverifiable_keys, spell, introduced,
  prove_together, prove_one, prove_each, prove,
}

-- No finding is in `after` that was not in `before`.
unfoldable pub NothingNew : List Pair → List Pair → Type 0
NothingNew before after = (k : Pair) → has_pair k after ≡ true → has_pair k before ≡ true

-- The catalog `after` no longer has the finding of the proposal, and none that `before` lacked.
unfoldable pub Repairs : Gate → CatalogSnapshot → CatalogSnapshot → Proposal → Type 0
unfolding NothingNew
Repairs gate before after p =
    (has_pair (target_key p) (findings gate after) ≡ false)
    × NothingNew (findings gate before) (findings gate after)

-- Everything that the gate looked at could be checked.
unfoldable pub IsComplete : Gate → CatalogSnapshot → Type 0
IsComplete gate snapshot =
    (k : Pair) → has_pair k (findings gate snapshot) ≡ true → ends_with "_unverifiable" k.0 ≡ false

-- What is cleared for writing: each by itself, all together, on a complete catalog.
unfoldable pub Cleared : Gate → CatalogSnapshot → List Proposal → Type 0
unfolding Repairs IsComplete
Cleared gate snapshot ps =
    All (λ p. Repairs gate snapshot (simulate snapshot p) p) ps
    × All (λ p. Repairs gate snapshot (simulate_all snapshot ps) p) ps
    × All (λ p. IsComplete gate snapshot) ps

empty_list {ℓ} : {A : Type ℓ} (xs : List A) → is_empty_list xs ≡ true → xs ≡ []
unfolding is_empty_list
empty_list [] h = refl
empty_list (x ∷ xs) h = cc

map_none {ℓ κ} : {A : Type ℓ} {B : Type κ} (f : A → B) (xs : List A) → map f xs ≡ [] → xs ≡ []
map_none f [] h = refl
map_none f (x ∷ xs) h = cc

not_in_none : (k : Pair) (xs : List Pair) → xs ≡ [] → has_pair k xs ≡ false
unfolding has_pair
not_in_none k [] h = refl
not_in_none k (x ∷ xs) h = cc

nothing_introduced :
    (after baseline : List Pair)
    → is_empty_list (introduced after baseline) ≡ true
    → NothingNew baseline after
unfolding introduced NothingNew
nothing_introduced after baseline h k m =
    let e : minus after baseline ≡ [] = map_none spell (minus after baseline) (
      sorted_none str_le (map spell (minus after baseline))
        (empty_list (sorted str_le (map spell (minus after baseline))) h)) in
    ground (arith, m, not_in_none k (minus after baseline) e, has_pair-minus k after baseline)

complete :
    (gate : Gate) (snapshot : CatalogSnapshot)
    → is_empty_list (unverifiable_keys (findings gate snapshot)) ≡ true
    → IsComplete gate snapshot
unfolding IsComplete unverifiable_keys
complete gate snapshot h k m =
    let test = λ (j : Pair). ends_with "_unverifiable" j.0 in
    let e : keep test (findings gate snapshot) ≡ [] =
      empty_list (keep test (findings gate snapshot)) h in
    ground (
      arith,
      m,
      not_in_none k (keep test (findings gate snapshot)) e,
      has_pair-keep test k (findings gate snapshot),
    )

module _ (decimal : ℕ → String) (gate : Gate) (snapshot : CatalogSnapshot) where
  abbrev baseline : List Pair
  baseline = findings gate snapshot

  -- An outcome that is proven is a repair by itself.
  ProvenRepairs : RepairOutcome → Type 0
  ProvenRepairs o =
      o.is_proven ≡ true → Repairs gate snapshot (simulate snapshot o.proposal) o.proposal

  prove_one-ProvenRepairs :
      (p : Proposal) → ProvenRepairs (prove_one decimal gate snapshot baseline p)
  unfolding ProvenRepairs prove_one Repairs
  prove_one-ProvenRepairs p =
      let after = findings gate (simulate snapshot p) in
      elim (Bool-cases (has_pair (target_key p) after)) [
        | inl e ↦ rw (e, prove_one) (λ h. cc)
        | inr e ↦ elim (Bool-cases (is_empty_list (introduced after baseline))) [
          | inl k ↦ rw (e, k, prove_one) (λ h. (e, nothing_introduced after baseline k))
          | inr k ↦ rw (e, k, prove_one) (λ h. cc)
        ]
      ]

  proven : List Proposal → List RepairOutcome
  proven ps =
      keep (λ (o : RepairOutcome). o.is_proven) (map (prove_one decimal gate snapshot baseline) ps)

  -- Each proposal that is proven is a repair by itself.
  proven_repair :
      (ps : List Proposal)
      → All
          (λ (o : RepairOutcome). Repairs gate snapshot (simulate snapshot o.proposal) o.proposal)
          (proven ps)
  unfolding proven ProvenRepairs
  proven_repair ps =
      All-when
        (λ (o : RepairOutcome). Repairs gate snapshot (simulate snapshot o.proposal) o.proposal)
        (λ (o : RepairOutcome). o.is_proven) (map (prove_one decimal gate snapshot baseline) ps)
        (map-All ProvenRepairs (prove_one decimal gate snapshot baseline) ps (
          All-pure (λ p. ProvenRepairs (prove_one decimal gate snapshot baseline p)) ps
            prove_one-ProvenRepairs))

  prove_one_proposal : (p : Proposal) → (prove_one decimal gate snapshot baseline p).proposal ≡ p
  unfolding prove_one
  prove_one_proposal p =
      let after = findings gate (simulate snapshot p) in
      elim (Bool-cases (has_pair (target_key p) after)) [
        | inl e ↦ rw (e, prove_one) refl
        | inr e ↦ elim (Bool-cases (is_empty_list (introduced after baseline))) [
          | inl k ↦ rw (e, k, prove_one) refl
          | inr k ↦ rw (e, k, prove_one) refl
        ]
      ]

  -- The proven ones are among the proposals.
  proven_among :
      (P : Proposal → Type 0) (ps : List Proposal)
      → All P ps
      → All (λ (o : RepairOutcome). P o.proposal) (proven ps)
  unfolding proven
  proven_among P ps h =
      keep-All (λ (o : RepairOutcome). P o.proposal) (λ (o : RepairOutcome). o.is_proven)
        (map (prove_one decimal gate snapshot baseline) ps)
        (map-All (λ (o : RepairOutcome). P o.proposal) (prove_one decimal gate snapshot baseline) ps
          (All-map P (λ p. P (prove_one decimal gate snapshot baseline p).proposal) ps
            (λ p. subst P (sym (prove_one_proposal p))) h))

  together :
      (ps : List Proposal)
      → (prove_together decimal gate snapshot baseline ps).0 ≡ true
      → All (Repairs gate snapshot (simulate_all snapshot ps)) ps
  unfolding prove_together Repairs
  together [] h = tt
  together (p ∷ ps) h =
      let after = findings gate (simulate_all snapshot (p ∷ ps)) in
      let unresolved = keep (λ q. has_pair (target_key q) after) (p ∷ ps) in
      elim (Bool-cases (is_empty_list (introduced after baseline))) [
        | inr e ↦ let q : false ≡ true = ground (arith, e, h) in cc
        | inl e ↦ elim (Bool-cases (is_empty_list unresolved)) [
          | inr k ↦ let q : false ≡ true = ground (arith, e, k, h) in cc
          | inl k ↦
              All-map (λ q. has_pair (target_key q) after ≡ false)
                (Repairs gate snapshot (simulate_all snapshot (p ∷ ps))) (p ∷ ps)
                (λ q n. (n, nothing_introduced after baseline e))
                (not_kept (λ q. has_pair (target_key q) after) (p ∷ ps) (empty_list unresolved k))
        ]
      ]

  nothing-Cleared : Cleared gate snapshot []
  unfolding Cleared
  nothing-Cleared = (tt, tt, tt)

  prove_each-Cleared :
      (ps : List Proposal)
      → IsComplete gate snapshot
      → Cleared gate snapshot (writable (prove_each decimal gate snapshot baseline ps))
  unfolding prove_each Cleared writable proven
  prove_each-Cleared ps c =
      let cleared = map (λ (o : RepairOutcome). o.proposal) (proven ps) in
      elim (Bool-cases (prove_together decimal gate snapshot baseline cleared).0) [
        | inl e ↦
            rw (e, writable)
              (
                map-All (λ p. Repairs gate snapshot (simulate snapshot p) p)
                    (λ (o : RepairOutcome). o.proposal) (proven ps) (proven_repair ps),
                together cleared e,
                All-pure (λ p. IsComplete gate snapshot) cleared (λ p. c),
              )
        | inr e ↦ rw (e, writable) (tt, tt, tt)
      ]

-- Whatever the gate, a proposal that `prove` clears for writing is a repair by itself: on the
-- catalog as it would leave it, its finding is gone and no finding is new. The same holds of the
-- catalog that all cleared proposals leave together. Nothing is cleared on a catalog where the gate
-- could not check something.
pub prove-Cleared :
    (decimal : ℕ → String) (gate : Gate) (snapshot : CatalogSnapshot) (proposals : List Proposal)
    → Cleared gate snapshot (writable (prove decimal gate snapshot proposals))
unfolding prove
prove-Cleared decimal gate snapshot proposals =
    elim (Bool-cases (is_empty_list (unverifiable_keys (findings gate snapshot)))) [
      | inl e ↦
          rw (e, prove)
            (prove_each-Cleared decimal gate snapshot proposals (complete gate snapshot e))
      | inr e ↦ rw (e, prove) (unfold writable in nothing-Cleared decimal gate snapshot)
    ]

-- `prove` clears nothing but proposals that it was given.
pub writable_among :
    (decimal : ℕ → String) (gate : Gate) (snapshot : CatalogSnapshot) (P : Proposal → Type 0)
    (proposals : List Proposal)
    → All P proposals
    → All P (writable (prove decimal gate snapshot proposals))
unfolding prove prove_each writable proven
writable_among decimal gate snapshot P ps h =
    elim (Bool-cases (is_empty_list (unverifiable_keys (findings gate snapshot)))) [
      | inr e ↦ rw (e, prove) tt
      | inl e ↦
          let cleared = map (λ (o : RepairOutcome). o.proposal) (proven decimal gate snapshot ps) in
          elim (Bool-cases
            (prove_together decimal gate snapshot (findings gate snapshot) cleared).0) [
              | inl k ↦
                  rw (e, k, prove, writable)
                    (map-All P (λ (o : RepairOutcome). o.proposal) (proven decimal gate snapshot ps)
                      (proven_among decimal gate snapshot P ps h))
              | inr k ↦ rw (e, k, prove, writable) tt
            ]
    ]
