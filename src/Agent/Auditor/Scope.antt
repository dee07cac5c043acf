-- ===== src/Agent/Auditor/Scope.antt =====
-- What `_examine` hands on of what the gate found.
use sidq.Prelude.{
  String, str_eq, str_eq_refl, Bool, true, false, some, List, [], ◌∷◌, any, All, Bool-cases,
  Option-cases, ◌≡◌, refl, sym, subst, arith, inl, inr, has_prefix, not, ◌&&◌, if◌then◌else◌,
}
use sidq.Models.{Evidence}
use sidq.Catalog.Snapshot.{CatalogSnapshot}
use sidq.Catalog.Gate.{collect}
use sidq.Catalog.Gate.Kinds.{Other, Returned, collect_total}
use sidq.Catalog.Gate.Orphans.{is_orphan, collect-orphans}
use sidq.Agent.Auditor.{
  CatalogAuditor, is_unverifiable, slice_of, concerns_target, keep_concerning, examine,
}

keep_concerning-All :
    (P : Evidence → Type 0) (snapshot : CatalogSnapshot) (urn : String) (evs : List Evidence)
    → All P evs
    → Returned P (keep_concerning snapshot urn evs)
unfolding keep_concerning
keep_concerning-All P snapshot urn [] h = tt
keep_concerning-All P snapshot urn (ev ∷ evs) h =
    elim (Option-cases (concerns_target snapshot urn ev)) [
      | inl e ↦ rw (keep_concerning, e) tt
      | inr (wanted, e) ↦ elim (Option-cases (keep_concerning snapshot urn evs)) [
        | inl f ↦ rw (keep_concerning, e, f) tt
        | inr (rest, f) ↦
            let later : All P rest =
              subst (Returned P) f (keep_concerning-All P snapshot urn evs h.1) in
            elim (Bool-cases wanted) [
              | inl w ↦ rw (keep_concerning, e, f, w) (h.0, later)
              | inr w ↦ rw (keep_concerning, e, f, w) later
            ]
      ]
    ]

no_orphans-Other :
    (found : List Evidence) → ((u : String) → any (is_orphan u) found ≡ false) → All Other found
no_orphans-Other [] h = tt
no_orphans-Other (ev ∷ evs) h = (
  ground (arith, h ev.subject, str_eq_refl ev.subject),
  no_orphans-Other evs (λ u. ground (arith, h u)),
)

-- With the gate of the source, no examination returns a missing endpoint.
pub examine-Other :
    (casefold : String → String) (column_references : String → List String) (a : CatalogAuditor)
    (urn : String)
    → a.gate ≡ collect casefold column_references
    → Returned Other (examine a urn)
unfolding examine slice_of
examine-Other casefold column_references a urn h =
    elim (Option-cases (a.gate (slice_of a.snapshot urn))) [
      | inl e ↦ rw (examine, e) tt
      | inr (collected, e) ↦
          rw (examine, e)
            (keep_concerning-All Other a.snapshot urn collected (
              no_orphans-Other collected (λ u.
                collect-orphans casefold column_references u (slice_of a.snapshot urn) collected
                  (subst (λ g. g (slice_of a.snapshot urn) ≡ some collected) h e))))
    ]

concerns_some :
    (snapshot : CatalogSnapshot) (urn : String) (ev : Evidence)
    → Other ev
    → (wanted : Bool) × (concerns_target snapshot urn ev ≡ some wanted)
unfolding concerns_target
concerns_some snapshot urn ev h = elim (Bool-cases (has_prefix urn ev.subject)) [
  | inl e ↦ rw (concerns_target, e) (true, refl)
  | inr e ↦
      elim (Bool-cases
        (str_eq ev.subject "catalog" && is_unverifiable ev && not snapshot.entities_complete)) [
          | inl f ↦ rw (concerns_target, e, f) (true, refl)
          | inr f ↦ rw (concerns_target, e, f, h) (false, refl)
        ]
]

keep_concerning_total :
    (snapshot : CatalogSnapshot) (urn : String) (evs : List Evidence)
    → All Other evs
    → (kept : List Evidence) × (keep_concerning snapshot urn evs ≡ some kept)
unfolding keep_concerning
keep_concerning_total snapshot urn [] h = ([], refl)
keep_concerning_total snapshot urn (ev ∷ evs) h =
    let (wanted, e) = concerns_some snapshot urn ev h.0 in
    let (rest, f) = keep_concerning_total snapshot urn evs h.1 in
    rw (keep_concerning, e, f) (if wanted then ev ∷ rest else rest, refl)

-- With the gate of the source, no examination raises.
pub examine_total :
    (casefold : String → String) (column_references : String → List String) (a : CatalogAuditor)
    (urn : String)
    → a.gate ≡ collect casefold column_references
    → (kept : List Evidence) × (examine a urn ≡ some kept)
unfolding examine slice_of
examine_total casefold column_references a urn h =
    let (collected, e) = collect_total casefold column_references (slice_of a.snapshot urn) in
    let e' : a.gate (slice_of a.snapshot urn) ≡ some collected =
      subst (λ g. g (slice_of a.snapshot urn) ≡ some collected) (sym h) e in
    let (kept, f) = keep_concerning_total a.snapshot urn collected (
      no_orphans-Other collected (λ u.
        collect-orphans casefold column_references u (slice_of a.snapshot urn) collected e)) in
    rw (examine, e') (kept, f)
