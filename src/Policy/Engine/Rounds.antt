-- ===== src/Policy/Engine/Rounds.antt =====
-- Each round of `decide`, and the whole loop, adds what the specification says.
use mathlib.Core.List.{append_assoc, append-nil}
use sidq.Prelude.{
  String, Bool, true, false, not, ◌&&◌, ◌||◌, Option, none, some, List, [], ◌∷◌, ◌++◌, any, map,
  if◌then◌else◌, ◌≡◌, refl, arith, Option-cases, inl, inr,
}
use sidq.Models.{Evidence}
use sidq.Policy.Condition.{Rule, matches_rule}
use sidq.Policy.Engine.{
  Policy, Format, Tally, render, is_block, is_warn, or_else, scan, matched, unverifiable,
  informational, unmatched, consider, consider_all,
}
use sidq.Policy.Engine.Spec.{
  fired, fails, is_nil, escapes, message_of, finding_of, first_reason, failed_finding,
  default_finding, unverifiable_if, join, item_tally, raises, total_tally,
}

-- What the rules alone add for one piece of evidence.
rules_tally : Format → List Rule → Evidence → Tally
unfolding fired fails finding_of first_reason
rules_tally format rs ev = record {
  findings =
      map (finding_of format ev) (fired rs ev)
      ++ (if fails rs ev then failed_finding ev ∷ [] else []);
  reason_code = or_else (first_reason (fired rs ev)) (unverifiable_if (fails rs ev));
  has_block = any (λ (r : Rule). is_block r.severity) (fired rs ev) || fails rs ev;
  has_warn = any (λ (r : Rule). is_warn r.severity) (fired rs ev);
}

Tally-eq :
    (t u : Tally)
    → t.findings ≡ u.findings
    → t.reason_code ≡ u.reason_code
    → t.has_block ≡ u.has_block
    → t.has_warn ≡ u.has_warn
    → t ≡ u
Tally-eq t u a b c d =
    λ i. record { findings = a i; reason_code = b i; has_block = c i; has_warn = d i }

or_else_assoc : (a b c : Option String) → or_else (or_else a b) c ≡ or_else a (or_else b c)
or_else_assoc none b c = refl
or_else_assoc (some x) b c = refl

or_none : (a : Option String) → or_else a none ≡ a
or_none none = refl
or_none (some x) = refl

or_assoc : (a b c : Bool) → ((a || b) || c) ≡ (a || (b || c))
or_assoc true b c = refl
or_assoc false b c = refl

pub join_assoc : (t u v : Tally) → join (join t u) v ≡ join t (join u v)
join_assoc t u v =
    Tally-eq (join (join t u) v) (join t (join u v)) (append_assoc t.findings u.findings v.findings)
      (or_else_assoc t.reason_code u.reason_code v.reason_code)
      (or_assoc t.has_block u.has_block v.has_block) (or_assoc t.has_warn u.has_warn v.has_warn)

pub render-eq :
    (format : Format) (r : Rule) (ev : Evidence)
    → render format r ev ≡ (if escapes format ev r then none else some (message_of format ev r))
unfolding render escapes message_of
render-eq format r ev = ground arith

-- A rule that matched adds its finding, its reason and its severity.
join-matched :
    (format : Format) (r : Rule) (ev : Evidence) (t u : Tally)
    → join (matched r (message_of format ev r) ev t) u
      ≡ join t (record {
        findings = finding_of format ev r ∷ u.findings;
        reason_code = or_else (if is_block r.severity then r.reason_code else none) u.reason_code;
        has_block = is_block r.severity || u.has_block;
        has_warn = is_warn r.severity || u.has_warn;
      })
unfolding matched finding_of
join-matched format r ev t u =
    Tally-eq _ _ (append_assoc t.findings (finding_of format ev r ∷ []) u.findings) (ground arith)
      (or_assoc t.has_block (is_block r.severity) u.has_block)
      (or_assoc t.has_warn (is_warn r.severity) u.has_warn)

module _ (format : Format) (ev : Evidence) where
  abbrev Scanned : List Rule → Bool → Tally → Type 0
  Scanned rs found t = scan format rs ev found t ≡ (
      if any (escapes format ev) (fired rs ev)
      then none
      else some
          (join t (rules_tally format rs ev), found || (not (is_nil (fired rs ev)) || fails rs ev)))

  scan_hit :
      (r : Rule) (rs : List Rule) (found : Bool) (t : Tally)
      → matches_rule ev r ≡ some true
      → ((t' : Tally) → Scanned rs true t')
      → Scanned (r ∷ rs) found t
  unfolding scan fired fails rules_tally
  scan_hit r rs found t e ih = ground (
    arith,
    render-eq format r ev,
    ih (matched r (message_of format ev r) ev t),
    join-matched format r ev t (rules_tally format rs ev),
  )

  scan-eq : (rs : List Rule) (found : Bool) (t : Tally) → Scanned rs found t
  unfolding scan fired fails rules_tally
  scan-eq [] found t = ground (arith, append-nil t.findings, or_none t.reason_code)
  scan-eq (r ∷ rs) found t = elim (Option-cases (matches_rule ev r)) [
    | inl e ↦ ground arith
    | inr (true, e) ↦ scan_hit r rs found t e (scan-eq rs true)
    | inr (false, e) ↦ ground (arith, scan-eq rs found t)
  ]

module _ (format : Format) (p : Policy) (ev : Evidence) (t : Tally) where
  undecided-eq :
      fired p.rules ev ≡ []
      → fails p.rules ev ≡ false
      → unmatched p ev (join t (rules_tally format p.rules ev)) ≡ join t (item_tally format p ev)
  unfolding unmatched informational unverifiable item_tally rules_tally first_reason
  undecided-eq e f = ground (
    arith,
    append-nil t.findings,
    or_none t.reason_code,
    or_assoc t.has_block false true,
    append_assoc t.findings [] (default_finding p ev ∷ []),
  )

  decided-eq :
      is_nil (fired p.rules ev) && not (fails p.rules ev) ≡ false
      → rules_tally format p.rules ev ≡ item_tally format p ev
  unfolding item_tally rules_tally
  decided-eq e = ground arith

  is_nil-eq : is_nil (fired p.rules ev) ≡ true → fired p.rules ev ≡ []
  is_nil-eq e = ground arith

  -- One round of `decide` is as specified.
  pub consider-eq :
      consider format p ev t
      ≡ (if raises format p ev then none else some (join t (item_tally format p ev)))
  unfolding consider raises
  consider-eq =
      ground (arith, scan-eq format ev p.rules false t, undecided-eq, decided-eq, is_nil-eq)

pub consider_all-eq :
    (format : Format) (p : Policy) (evs : List Evidence) (t : Tally)
    → consider_all format p evs t
      ≡ (if any (raises format p) evs then none else some (join t (total_tally format p evs)))
unfolding consider_all total_tally
consider_all-eq format p [] t = ground (arith, append-nil t.findings, or_none t.reason_code)
consider_all-eq format p (ev ∷ evs) t = ground (
  arith,
  consider-eq format p ev t,
  consider_all-eq format p evs (join t (item_tally format p ev)),
  join_assoc t (item_tally format p ev) (total_tally format p evs),
)
