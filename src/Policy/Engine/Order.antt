-- ===== src/Policy/Engine/Order.antt =====
-- Refusals cannot be outvoted, and the order of the evidence does not change the decision.
use mathlib.Core.List.{Perm}
use sidq.Prelude.{
  ℕ, ◌≤◌, String, true, false, ◌||◌, Option, none, some, List, [], ◌∷◌, ◌++◌, any, ◌≡◌, ◌≢◌, refl,
  arith, any-perm,
}
use sidq.Models.{Evidence, TouchedAsset, Decision, Verdict}
use sidq.Policy.Condition.{Rule}
use sidq.Policy.Engine.{Policy, Format, is_block, decide}
use sidq.Policy.Engine.Spec.{first_reason, fired, fails, unhandled, item_tally, raises, total_tally}
use sidq.Policy.Engine.Refines.{decide-eq-verdict_of}
use sidq.Policy.Engine.Accounting.{decide_inv, total_tally-append}

-- PASS, WARN and BLOCK, from the mildest.
abbrev pub rank : Decision → ℕ
rank Decision.pass = 0
rank Decision.warn = 1
rank Decision.block = 2

module _ (format : Format) (p : Policy) (touched : List TouchedAsset) (sha : String) where
  -- More evidence only adds to a verdict: the earlier findings stay in front of the new ones,
  -- the decision is at least as severe, and a reason code that was given stands.
  pub decide_monotone :
      (evs more : List Evidence) {v w : Verdict}
      → decide format p evs touched sha ≡ some v
      → decide format p (evs ++ more) touched sha ≡ some w
      → (w.findings ≡ v.findings ++ (total_tally format p more).findings)
        × (rank v.decision ≤ rank w.decision)
        × ((code : String) → v.reason_code ≡ some code → w.reason_code ≡ some code)
  decide_monotone evs more {v} {w} h k =
      let (_, e) = decide_inv format p evs touched sha h in
      let (_, f) = decide_inv format p (evs ++ more) touched sha k in
      let g = total_tally-append format p evs more in
      (ground (arith, e, f, g), ground (arith, e, f, g), λ code c. ground (arith, e, f, g, c))

  -- Evidence that a rule cannot evaluate, and evidence of a kind that no rule names under a
  -- policy that blocks such evidence, always end in BLOCK with a reason, whatever other evidence
  -- stands before or after it.
  pub decide_fail_closed :
      (before after : List Evidence) (ev : Evidence) {v : Verdict}
      → decide format p (before ++ ev ∷ after) touched sha ≡ some v
      → (fails p.rules ev || unhandled p ev) ≡ true
      → (v.decision ≡ Decision.block) × (v.reason_code ≢ none)
  unfolding total_tally item_tally
  decide_fail_closed before after ev {v} h bad =
      let (_, e) = decide_inv format p (before ++ ev ∷ after) touched sha h in
      let g = total_tally-append format p before (ev ∷ after) in
      (ground (arith, e, g), ground (arith, e, g))

total-has_block :
    (format : Format) (p : Policy) (evs : List Evidence)
    → (total_tally format p evs).has_block ≡ any (λ ev. (item_tally format p ev).has_block) evs
unfolding total_tally
total-has_block format p [] = refl
total-has_block format p (ev ∷ evs) = rw (total-has_block format p evs)

total-has_warn :
    (format : Format) (p : Policy) (evs : List Evidence)
    → (total_tally format p evs).has_warn ≡ any (λ ev. (item_tally format p ev).has_warn) evs
unfolding total_tally
total-has_warn format p [] = refl
total-has_warn format p (ev ∷ evs) = rw (total-has_warn format p evs)

abbrev pub decision_at : Option Verdict → Option Decision
decision_at none = none
decision_at (some v) = some v.decision

-- The decision does not depend on the order in which the evidence was collected.
pub decide-perm :
    (format : Format) (p : Policy) (xs ys : List Evidence) (touched : List TouchedAsset)
    (sha : String)
    → Perm xs ys
    → decision_at (decide format p xs touched sha) ≡ decision_at (decide format p ys touched sha)
decide-perm format p xs ys touched sha perm = ground (
  arith,
  decide-eq-verdict_of format p xs touched sha,
  decide-eq-verdict_of format p ys touched sha,
  any-perm (raises format p) perm,
  total-has_block format p xs,
  total-has_block format p ys,
  any-perm (λ (ev : Evidence). (item_tally format p ev).has_block) perm,
  total-has_warn format p xs,
  total-has_warn format p ys,
  any-perm (λ (ev : Evidence). (item_tally format p ev).has_warn) perm,
)

first_reason-none :
    (rs : List Rule) → any (λ (r : Rule). is_block r.severity) rs ≡ false → first_reason rs ≡ none
unfolding first_reason
first_reason-none [] h = refl
first_reason-none (r ∷ rs) h = ground (arith, first_reason-none rs)

item-reason :
    (format : Format) (p : Policy) (ev : Evidence)
    → (item_tally format p ev).has_block ≡ false
    → (item_tally format p ev).reason_code ≡ none
unfolding item_tally
item-reason format p ev h = ground (arith, first_reason-none (fired p.rules ev))

total-reason :
    (format : Format) (p : Policy) (evs : List Evidence)
    → (total_tally format p evs).has_block ≡ false
    → (total_tally format p evs).reason_code ≡ none
unfolding total_tally
total-reason format p [] h = refl
total-reason format p (ev ∷ evs) h =
    ground (arith, item-reason format p ev, total-reason format p evs)

-- Only a BLOCK carries a reason code.
decide_reason :
    (format : Format) (p : Policy) (evs : List Evidence) (touched : List TouchedAsset)
    (sha : String) {v : Verdict}
    → decide format p evs touched sha ≡ some v
    → v.reason_code ≢ none
    → v.decision ≡ Decision.block
decide_reason format p evs touched sha h r =
    let (_, e) = decide_inv format p evs touched sha h in
    ground (arith, e, total-reason format p evs)
