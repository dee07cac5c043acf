-- ===== src/Repair/Apply/Writes.antt =====
-- `apply_repairs` writes what `prove` cleared, once each, and nothing else.
use sidq.Prelude.{
  ℕ, String, Bool, true, false, Option, none, some, List, [], ◌∷◌, map, All, Option-cases, ◌≡◌,
  refl, inl, inr, ap,
}
use sidq.Prelude.Dict.{Dict}
use sidq.Catalog.Snapshot.{CatalogSnapshot}
use sidq.Repair.Proposals.{Proposal, Argument}
use sidq.Repair.Prove.{Gate, writable, prove}
use sidq.Repair.Prove.Sound.{prove-Cleared, writable_among}
use sidq.Repair.Prove.Sound
use sidq.Repair.Apply.{ApplyOutcome, outcome, answered, call_each, apply_repairs}

abbrev pub proposals_of : List ApplyOutcome → List Proposal
proposals_of os = map (λ (o : ApplyOutcome). o.proposal) os

module _ {W : Type 0} (tool_caller : String → Dict Argument → W → Option String × W) where
  -- One call for each proposal, in order; each outcome says what its call answered.
  pub data Called : List Proposal → W → List ApplyOutcome → W → Type 0 where
    nothing : (w : W) → Called [] w [] w
    written :
        (p : Proposal) (w : W) (o : ApplyOutcome) (ps : List Proposal) (os : List ApplyOutcome)
        (v : W)
        → (tool_caller p.tool p.arguments w).0 ≡ none
        → (o.proposal ≡ p) × (o.applied ≡ true)
        → Called ps (tool_caller p.tool p.arguments w).1 os v
        → Called (p ∷ ps) w (o ∷ os) v
    failed :
        (p : Proposal) (w : W) (o : ApplyOutcome) (ps : List Proposal) (os : List ApplyOutcome)
        (v : W) (error : String)
        → (tool_caller p.tool p.arguments w).0 ≡ some error
        → (o.proposal ≡ p) × (o.applied ≡ false) × (o.detail ≡ error)
        → Called ps (tool_caller p.tool p.arguments w).1 os v
        → Called (p ∷ ps) w (o ∷ os) v

  call_each-Called :
      (ps : List Proposal) (w : W)
      → Called ps w (call_each tool_caller ps w).0 (call_each tool_caller ps w).1
  unfolding call_each answered
  call_each-Called [] w = Called.nothing w
  call_each-Called (p ∷ ps) w =
      let called = tool_caller p.tool p.arguments w in
      let rest = call_each-Called ps called.1 in
      elim (Option-cases called.0) [
        | inl e ↦ rw (e, call_each) (Called.written p w _ ps _ _ e (refl, refl) rest)
        | inr (error, e) ↦
            rw (e, call_each) (Called.failed p w _ ps _ _ error e (refl, refl, refl) rest)
      ]

-- A dry run reports the proposals and applies none.
dry_outcomes :
    (ps : List Proposal)
    → (proposals_of (map (λ p. outcome p false "dry run — nothing written") ps) ≡ ps)
      × All
          (λ (o : ApplyOutcome). o.applied ≡ false)
          (map (λ p. outcome p false "dry run — nothing written") ps)
dry_outcomes [] = (refl, tt)
dry_outcomes (p ∷ ps) = let rest = dry_outcomes ps in (ap (λ qs. p ∷ qs) rest.0, (refl, rest.1))

-- What a run of `apply_repairs` did from the world `w`: nothing in a dry run, and otherwise one
-- call for each proposal.
unfoldable pub Wrote :
    {W : Type 0}
    → (String → Dict Argument → W → Option String × W)
    → List Proposal
    → Bool
    → W
    → List ApplyOutcome × W
    → Type 0
Wrote tool_caller ps true w (os, v) =
    (v ≡ w) × (proposals_of os ≡ ps) × All (λ (o : ApplyOutcome). o.applied ≡ false) os
Wrote tool_caller ps false w (os, v) = Called tool_caller ps w os v

-- Run on the plan of `prove`, `apply_repairs` calls the catalog once for each cleared proposal, in
-- order, whatever the earlier calls answered; each outcome says what its call did; a dry run leaves
-- the world as it is. Every proposal called is one of those given to `prove`, and is a repair by
-- itself and with all the others.
pub apply_repairs-Wrote :
    {W : Type 0} (tool_caller : String → Dict Argument → W → Option String × W)
    (decimal : ℕ → String) (gate : Gate) (snapshot : CatalogSnapshot) (proposals : List Proposal)
    (P : Proposal → Type 0) (dry_run : Bool) (w : W)
    → All P proposals
    → Wrote tool_caller
        (writable (prove decimal gate snapshot proposals))
        dry_run
        w
        (apply_repairs tool_caller (prove decimal gate snapshot proposals) dry_run w)
      × All P (writable (prove decimal gate snapshot proposals))
      × Sound.Cleared gate snapshot (writable (prove decimal gate snapshot proposals))
unfolding apply_repairs Wrote
apply_repairs-Wrote tool_caller decimal gate snapshot proposals P true w h =
    let called = writable (prove decimal gate snapshot proposals) in
    let dry = dry_outcomes called in
    (
      (refl, dry.0, dry.1),
      writable_among decimal gate snapshot P proposals h,
      prove-Cleared decimal gate snapshot proposals,
    )
apply_repairs-Wrote tool_caller decimal gate snapshot proposals P false w h =
    let called = writable (prove decimal gate snapshot proposals) in
    (
      call_each-Called tool_caller called w,
      writable_among decimal gate snapshot P proposals h,
      prove-Cleared decimal gate snapshot proposals,
    )
