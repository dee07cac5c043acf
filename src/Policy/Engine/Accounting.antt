-- ===== src/Policy/Engine/Accounting.antt =====
-- No evidence is dropped, refusals cannot be outvoted, and the order of evidence does not matter.

use sidq.Prelude.{
  String, false, some, List, [], ◌∷◌, ◌++◌, any, map, All, All-append, ◌≡◌, ◌≢◌, refl, arith, sym,
}
use sidq.Models.{Evidence, TouchedAsset, Finding, Verdict}
use sidq.Policy.Condition.{Rule}
use sidq.Policy.Engine.{Policy, Format, decision_of, decide}
use sidq.Policy.Engine.Spec.{fired, finding_of, join, item_tally, raises, total_tally}
use sidq.Policy.Engine.Rounds.{join_assoc}
use sidq.Policy.Engine.Refines.{verdict_of, decide-eq-verdict_of, blocking, warning, total-agrees}

module _ (format : Format) (p : Policy) (evs : List Evidence) (touched : List TouchedAsset)
    (sha : String) where
  -- Inversion: a returned verdict is the one that the specification gives.
  pub decide_inv :
      {v : Verdict}
      → decide format p evs touched sha ≡ some v
      → (any (raises format p) evs ≡ false)
        × (v ≡ verdict_of p (total_tally format p evs) touched sha)
  decide_inv h = ground (arith, decide-eq-verdict_of format p evs touched sha)

  -- The decision of a returned verdict is exactly what its findings say: BLOCK if one of them
  -- blocks, else WARN if one of them warns, else PASS.
  decide_decision :
      {v : Verdict}
      → decide format p evs touched sha ≡ some v
      → v.decision ≡ decision_of (any blocking v.findings) (any warning v.findings)
  decide_decision h =
      let (_, e) = decide_inv h in let (b, w) = total-agrees format p evs in rw e (rw (b, w))

-- Each piece of evidence has its own findings, at least one, in the order of the evidence.
pub data Accounts : List Evidence → List Finding → Type 0 where
  done : Accounts [] []
  next :
      {evs : List Evidence} {rest all_findings : List Finding} (ev : Evidence) (own : List Finding)
      → own ≢ []
      → All (λ (f : Finding). f.evidence ≡ ev ∷ []) own
      → Accounts evs rest
      → all_findings ≡ own ++ rest
      → Accounts (ev ∷ evs) all_findings

own-findings :
    (format : Format) (ev : Evidence) (rs : List Rule)
    → All (λ (f : Finding). f.evidence ≡ ev ∷ []) (map (finding_of format ev) rs)
unfolding finding_of
own-findings format ev [] = tt
own-findings format ev (r ∷ rs) = (refl, own-findings format ev rs)

item-carries :
    (format : Format) (p : Policy) (ev : Evidence)
    → All (λ (f : Finding). f.evidence ≡ ev ∷ []) (item_tally format p ev).findings
unfolding item_tally
item-carries format p ev =
    All-append (λ (f : Finding). f.evidence ≡ ev ∷ []) _ _
      (own-findings format ev (fired p.rules ev)) (ground arith)

item-ne-nil :
    (format : Format) (p : Policy) (ev : Evidence) → (item_tally format p ev).findings ≢ []
unfolding item_tally
item-ne-nil format p ev h = ground arith

total-Accounts :
    (format : Format) (p : Policy) (evs : List Evidence)
    → Accounts evs (total_tally format p evs).findings
unfolding total_tally
total-Accounts format p [] = done
total-Accounts format p (ev ∷ evs) =
    next ev (item_tally format p ev).findings (item-ne-nil format p ev) (item-carries format p ev)
      (total-Accounts format p evs) refl

-- Every piece of evidence, in order, has findings of its own in a returned verdict, at least one,
-- and the decision is exactly what the findings say: BLOCK if one of them blocks, else WARN if one
-- of them warns, else PASS.
pub decide-Accounts :
    (format : Format) (p : Policy) (evs : List Evidence) (touched : List TouchedAsset)
    (sha : String) {v : Verdict}
    → decide format p evs touched sha ≡ some v
    → Accounts evs v.findings
      × (v.decision ≡ decision_of (any blocking v.findings) (any warning v.findings))
decide-Accounts format p evs touched sha h =
    let (_, e) = decide_inv format p evs touched sha h in
    (rw e (total-Accounts format p evs), decide_decision format p evs touched sha h)

pub total_tally-append :
    (format : Format) (p : Policy) (xs ys : List Evidence)
    → total_tally format p (xs ++ ys) ≡ join (total_tally format p xs) (total_tally format p ys)
unfolding total_tally
total_tally-append format p [] ys = refl
total_tally-append format p (x ∷ xs) ys =
    rw (total_tally-append format p xs ys)
      (sym (join_assoc (item_tally format p x) (total_tally format p xs) (total_tally format p ys)))
