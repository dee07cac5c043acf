-- ===== src/Repair/Prove/Applied.antt =====
-- The proof after the writes (src/sidq/repair/prove.py, `verify_applied`).
use Prim.Native.String as Text
use sidq.Prelude.{
  String, ends_with, Bool, true, false, not, ◌&&◌, ◌||◌, List, [], ◌∷◌, ◌++◌, any, keep, map,
  if◌then◌else◌, arith, ◌≡◌, refl, ◌↔◌, ◌∙◌, any-append,
}
use sidq.Prelude.Pairs.{
  Pair, has_pair, minus, distinct_pairs, pair_le, has_pair-minus, has_pair-perm, has_pair-keep,
  has_pair-distinct, pair_eq, pair_eq_refl,
}
use sidq.Prelude.Sort.{sorted, sorted-perm}
use sidq.Catalog.Checks.Columns.{is_empty_list}
use sidq.Catalog.Snapshot.{CatalogSnapshot}
use sidq.Repair.Proposals.{Proposal}
use sidq.Repair.Prove.{Gate, findings, unverifiable_keys, target_key, spell, first_three}

pub record AppliedRepairProof : Type 0 where
  pub verified : Bool
  pub resolved : List Pair
  pub unresolved : List Pair
  pub collateral : List Pair

-- `set(xs) & set(ys)`, in order.
unfoldable pub common : List Pair → List Pair → List Pair
common xs ys = sorted pair_le (keep (λ k. has_pair k ys) (distinct_pairs xs))

unfoldable pub verify_applied :
    Gate → CatalogSnapshot → CatalogSnapshot → List Proposal → AppliedRepairProof
unfolding common
verify_applied gate before current proposals =
    let baseline = findings gate before in
    let after = findings gate current in
    let required = map target_key proposals in
    let unresolved = common required after in
    let collateral =
      sorted pair_le (distinct_pairs (minus after baseline ++ unverifiable_keys after)) in
    record {
      verified = is_empty_list unresolved && is_empty_list collateral;
      resolved = sorted pair_le (minus required after);
      unresolved = unresolved;
      collateral = collateral;
    }

-- `AppliedRepairProof.detail`
unfoldable pub detail : AppliedRepairProof → String
unfolding spell first_three
detail proof =
    if not (is_empty_list proof.collateral)
    then if any (λ (k : Pair). ends_with "_unverifiable" k.0) proof.collateral
      then Text.◌++◌ "live read is incomplete: " (first_three (map spell proof.collateral))
      else Text.◌++◌ "live read found collateral: " (first_three (map spell proof.collateral))
    else if not (is_empty_list proof.unresolved)
    then Text.◌++◌ "required finding still present: " (first_three (map spell proof.unresolved))
    else "live read confirms the required findings are gone with no collateral"

-- What `collateral` being empty says.
unfoldable pub NoCollateral : Gate → CatalogSnapshot → CatalogSnapshot → Type 0
NoCollateral gate before current =
    (k : Pair)
    → has_pair k (findings gate current) ≡ true
    → (has_pair k (findings gate before) ≡ true) × (ends_with "_unverifiable" k.0 ≡ false)

empty_iff : (xs : List Pair) → (is_empty_list xs ≡ true) ↔ ((k : Pair) → has_pair k xs ≡ false)
unfolding is_empty_list has_pair
empty_iff [] = (λ h k. refl, λ h. refl)
empty_iff (x ∷ xs) =
    (λ h. cc, λ h. let q : true ≡ false = ground (arith, h x, pair_eq_refl x) in cc)

has_pair-common :
    (k : Pair) (xs ys : List Pair) → has_pair k (common xs ys) ≡ (has_pair k xs && has_pair k ys)
unfolding common
has_pair-common k xs ys =
    has_pair-perm k (sorted-perm pair_le (keep (λ j. has_pair j ys) (distinct_pairs xs)))
    ∙ ground
        (arith, has_pair-keep (λ j. has_pair j ys) k (distinct_pairs xs), has_pair-distinct k xs)

has_pair-append :
    (k : Pair) (xs ys : List Pair) → has_pair k (xs ++ ys) ≡ (has_pair k xs || has_pair k ys)
unfolding has_pair
has_pair-append k xs ys = any-append (pair_eq k) xs ys

module _ (gate : Gate) (before current : CatalogSnapshot) (ps : List Proposal) where
  proof : AppliedRepairProof
  proof = verify_applied gate before current ps

  has_pair-collateral :
      (k : Pair)
      → has_pair k proof.collateral ≡ (
          has_pair k (findings gate current)
          && (not (has_pair k (findings gate before)) || ends_with "_unverifiable" k.0))
  unfolding proof verify_applied unverifiable_keys
  has_pair-collateral k =
      let after = findings gate current in
      let new = minus after (findings gate before) in
      let open_keys = keep (λ (j : Pair). ends_with "_unverifiable" j.0) after in
      has_pair-perm k (sorted-perm pair_le (distinct_pairs (new ++ open_keys)))
      ∙ ground (
        arith,
        has_pair-distinct k (new ++ open_keys),
        has_pair-append k new open_keys,
        has_pair-minus k after (findings gate before),
        has_pair-keep (λ (j : Pair). ends_with "_unverifiable" j.0) k after,
      )

  pub has_pair-resolved :
      (k : Pair)
      → has_pair k (verify_applied gate before current ps).resolved
        ≡ (has_pair k (map target_key ps) && not (has_pair k (findings gate current)))
  unfolding verify_applied
  has_pair-resolved k =
      has_pair-perm k (sorted-perm pair_le (minus (map target_key ps) (findings gate current)))
      ∙ has_pair-minus k (map target_key ps) (findings gate current)

  -- The collateral is empty exactly if nothing is new and everything could be checked.
  pub collateral_none :
      (is_empty_list (verify_applied gate before current ps).collateral ≡ true)
      ↔ NoCollateral gate before current
  unfolding NoCollateral proof
  collateral_none =
      let e = empty_iff (verify_applied gate before current ps).collateral in
      (
        λ h k m.
            let c = e.0 h k in
            let q = has_pair-collateral k in (ground (arith, c, q, m), ground (arith, c, q, m)),
        λ h. e.1 (λ k. ground (arith, has_pair-collateral k, h k)),
      )

  unresolved_none : (is_empty_list (verify_applied gate before current ps).unresolved ≡ true) ↔ (
      (k : Pair)
      → has_pair k (map target_key ps) ≡ true
      → has_pair k (findings gate current) ≡ false)
  unfolding verify_applied
  unresolved_none =
      let after = findings gate current in
      let e = empty_iff (common (map target_key ps) after) in
      (
        λ h k m. ground (arith, e.0 h k, has_pair-common k (map target_key ps) after, m),
        λ h. e.1 (λ k. ground (arith, has_pair-common k (map target_key ps) after, h k)),
      )

-- `verify_applied` verifies the writes exactly if, in what the catalog shows now, no finding of a
-- proposal is left, no finding is new, and everything could be checked.
pub verify_applied_verified :
    (gate : Gate) (before current : CatalogSnapshot) (ps : List Proposal)
    → ((verify_applied gate before current ps).verified ≡ true) ↔ (
        ((k : Pair)
          → has_pair k (map target_key ps) ≡ true
          → has_pair k (findings gate current) ≡ false)
        × NoCollateral gate before current)
unfolding verify_applied
verify_applied_verified gate before current ps =
    let u = unresolved_none gate before current ps in
    let c = collateral_none gate before current ps in
    (λ h. (u.0 (ground (arith, h)), c.0 (ground (arith, h))), λ h. ground (arith, u.1 h.0, c.1 h.1))
