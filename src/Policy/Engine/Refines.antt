-- ===== src/Policy/Engine/Refines.antt =====
-- What a verdict says of the evidence that it was made from.
use sidq.Prelude.{
  String, Bool, none, some, List, [], ◌∷◌, any, map, if◌then◌else◌, ◌≡◌, refl, arith, any-append,
}
use sidq.Models.{Evidence, TouchedAsset, Severity, Finding, Verdict}
use sidq.Policy.Condition.{Rule}
use sidq.Policy.Engine.{Policy, Format, Tally, start, is_block, is_warn, decision_of, decide}
use sidq.Policy.Engine.Spec.{finding_of, unhandled, item_tally, raises, total_tally}
use sidq.Policy.Engine.Rounds.{consider_all-eq}

-- The verdict that the specification gives.
abbrev pub verdict_of : Policy → Tally → List TouchedAsset → String → Verdict
verdict_of p t touched commit_sha = record {
  decision = decision_of t.has_block t.has_warn;
  reason_code = t.reason_code;
  findings = t.findings;
  touched = touched;
  commit_sha = commit_sha;
  policy_hash = p.policy_hash;
}

-- `decide` raises exactly if the message of some rule that fires cannot be rendered, and
-- otherwise returns the verdict that sums up, in order, what each piece of evidence adds on its
-- own: the findings of the rules that fire up to the first whose conditions cannot be evaluated,
-- a BLOCK finding where that happens, and the default finding where no rule fires.
pub decide-eq-verdict_of :
    (format : Format) (p : Policy) (evs : List Evidence) (touched : List TouchedAsset)
    (sha : String)
    → decide format p evs touched sha ≡ (
        if any (raises format p) evs
        then none
        else some (verdict_of p (total_tally format p evs) touched sha))
unfolding decide
decide-eq-verdict_of format p evs touched sha = ground (arith, consider_all-eq format p evs start)

abbrev pub blocking : Finding → Bool
blocking f = is_block f.severity

abbrev pub warning : Finding → Bool
warning f = is_warn f.severity

any-map-finding_of :
    (format : Format) (ev : Evidence) (q : Severity → Bool) (rs : List Rule)
    → any (λ (f : Finding). q f.severity) (map (finding_of format ev) rs)
      ≡ any (λ (r : Rule). q r.severity) rs
unfolding finding_of
any-map-finding_of format ev q [] = refl
any-map-finding_of format ev q (r ∷ rs) = rw (any-map-finding_of format ev q rs)

item-blocks :
    (format : Format) (p : Policy) (ev : Evidence)
    → any blocking (item_tally format p ev).findings ≡ (item_tally format p ev).has_block
unfolding item_tally unhandled
item-blocks format p ev = rw any-append (rw (any-map-finding_of format ev is_block) (ground arith))

item-warns :
    (format : Format) (p : Policy) (ev : Evidence)
    → any warning (item_tally format p ev).findings ≡ (item_tally format p ev).has_warn
unfolding item_tally
item-warns format p ev = rw any-append (rw (any-map-finding_of format ev is_warn) (ground arith))

pub total-agrees :
    (format : Format) (p : Policy) (evs : List Evidence)
    → (any blocking (total_tally format p evs).findings ≡ (total_tally format p evs).has_block)
      × (any warning (total_tally format p evs).findings ≡ (total_tally format p evs).has_warn)
unfolding total_tally
total-agrees format p [] = (refl, refl)
total-agrees format p (ev ∷ evs) =
    let (b, w) = total-agrees format p evs in
    (rw any-append (rw (item-blocks, b)), rw any-append (rw (item-warns, w)))
