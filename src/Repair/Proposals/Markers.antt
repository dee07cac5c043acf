-- ===== src/Repair/Proposals/Markers.antt =====
-- `_propose_pii_tag` writes the markers of the source to all the columns that they reach.
use sidq.Prelude.{
  String, true, Option, none, some, List, [], ◌∷◌, map, All, has_prefix, keep, keep_sound, keep-All,
  Bool-cases, Option-cases, arith, ◌≡◌, refl, inl, inr, ◌↔◌, ◌⊎◌, str_eq, str_le, subst, sym, ap,
  ◌∙◌, of_some, if◌then◌else◌,
}
use sidq.Prelude.Dict.{lookup}
use sidq.Prelude.Pairs.{Pair, has_pair}
use sidq.Prelude.Sets.{member, member_self}
use sidq.Prelude.Sort.{sorted-All}
use sidq.Models.{Evidence}
use sidq.Catalog.Snapshot.{CatalogSnapshot}
use sidq.Catalog.Tags.{is_pii_tag}
use sidq.Receipt.State.{Show, text_of, get}
use sidq.Repair.Closure.{closure}
use sidq.Repair.Closure.Flows.{Flows}
use sidq.Repair.Closure.Exact.{Lacks, closure_exact}
use sidq.Repair.Proposals.{
  Proposal, listed, zip_targets, targets, partition_hash, elements, pii_markers, writable_markers,
  write_tool, are_only, marker_kinds, marker_proposal, propose_pii_tag,
}

-- A column as a target of a proposal.
abbrev pub as_target : Pair → String × Option String
as_target node = (node.0, if str_eq node.1 "" then none else some node.1)

-- The markers that the finding names.
unfoldable pub named_markers : Show → Evidence → List String
named_markers show finding = map (text_of show) (elements (get "source_pii_tags" finding.detail))

zip_columns :
    (nodes : List Pair)
    → zip_targets (map (λ (item : Pair). item.0) nodes) (map (λ (item : Pair). item.1) nodes)
      ≡ map as_target nodes
unfolding zip_targets
zip_columns [] = refl
zip_columns (node ∷ nodes) = ap (λ ts. as_target node ∷ ts) (zip_columns nodes)

module _ (casefold : String → String) (show : Show) where
  unfoldable pub IsMarker : Evidence → String → Type 0
  unfolding named_markers
  IsMarker finding m =
      (has_prefix "urn:" m ≡ true)
      × (is_pii_tag casefold m ≡ true)
      × (member m (named_markers show finding) ≡ true)

  -- The tool `tool` with its argument `name` writes markers of the finding to those columns.
  unfoldable pub Propagates : CatalogSnapshot → Evidence → Proposal → String → Type 0
  unfolding IsMarker
  Propagates snapshot finding p name =
      All (IsMarker finding) (listed name p.arguments)
      × ((columns : List Pair) × (targets p ≡ map as_target columns)
          × ((item : Pair)
              → (has_pair item columns ≡ true) ↔ (
                  Flows snapshot.edges (partition_hash finding.subject) item
                  × Lacks snapshot (listed name p.arguments) item)))

  both_then :
      (finding : Evidence) (ms : List String)
      → All (λ m. has_prefix "urn:" m ≡ true) ms
      → All (λ m. is_pii_tag casefold m ≡ true) ms
      → All (λ m. member m (named_markers show finding) ≡ true) ms
      → All (IsMarker finding) ms
  unfolding IsMarker
  both_then finding [] h k l = tt
  both_then finding (m ∷ ms) h k l = ((h.0, k.0, l.0), both_then finding ms h.1 k.1 l.1)

  writable-IsMarker :
      (finding : Evidence)
      → All (IsMarker finding) (writable_markers casefold show (pii_markers casefold show finding))
  unfolding writable_markers named_markers pii_markers
  writable-IsMarker finding =
      let names = named_markers show finding in
      let marked = keep (is_pii_tag casefold) names in
      sorted-All str_le (IsMarker finding) (keep (has_prefix "urn:") marked) (
        both_then finding (keep (has_prefix "urn:") marked) (keep_sound (has_prefix "urn:") marked)
          (keep-All (λ m. is_pii_tag casefold m ≡ true) (has_prefix "urn:") marked
            (keep_sound (is_pii_tag casefold) names))
          (keep-All (λ m. member m names ≡ true) (has_prefix "urn:") marked
            (keep-All (λ m. member m names ≡ true) (is_pii_tag casefold) names
              (member_self names))))

-- What the proposal for some columns holds, at either name of the argument.
module _ (finding : Evidence) (tool : String) (writable : List String) (snapshot : CatalogSnapshot)
    (nodes : List Pair) (p : Proposal) where
  abbrev Writes : String → Type 0
  Writes name =
      marker_proposal finding (tool, name) writable snapshot nodes ≡ some p
      → (p.tool ≡ tool) × (listed name p.arguments ≡ writable) × (targets p ≡ map as_target nodes)

marker-Writes :
    (finding : Evidence) (tool : String) (writable : List String) (snapshot : CatalogSnapshot)
    (nodes : List Pair) (p : Proposal)
    → Writes finding tool writable snapshot nodes p "term_urns"
      × Writes finding tool writable snapshot nodes p "tag_urns"
unfolding marker_proposal targets listed lookup
marker-Writes finding tool writable snapshot [] p = (λ h. cc, λ h. cc)
marker-Writes finding tool writable snapshot (node ∷ nodes) p = (
  λ h. (
    sym (ap (of_some (λ r. r.tool) "") h),
    sym (ap (of_some (λ r. listed "term_urns" r.arguments) []) h),
    sym (ap (of_some targets []) h) ∙ zip_columns (node ∷ nodes),
  ),
  λ h. (
    sym (ap (of_some (λ r. r.tool) "") h),
    sym (ap (of_some (λ r. listed "tag_urns" r.arguments) []) h),
    sym (ap (of_some targets []) h) ∙ zip_columns (node ∷ nodes),
  ),
)

-- The guards of `_propose_pii_tag`.
module _ (casefold : String → String) (show : Show) (finding : Evidence)
    (snapshot : CatalogSnapshot) (p : Proposal) where
  abbrev marked : List String
  marked = pii_markers casefold show finding

  abbrev written : List String
  written = writable_markers casefold show marked

  abbrev reached : List Pair
  reached =
      closure (partition_hash finding.subject).0 (partition_hash finding.subject).1 snapshot written

  guarded :
      propose_pii_tag casefold show finding snapshot ≡ some p
      → (tool : Pair) × (write_tool marked ≡ some tool)
        × (marker_proposal finding tool written snapshot reached ≡ some p)
  unfolding propose_pii_tag
  guarded h = elim (Option-cases (write_tool marked)) [
    | inl e ↦ let q : none ≡ some p = ground (arith, e, h) in cc
    | inr (tool, e) ↦ (tool, e, ground (arith, e, h))
  ]

tool_names :
    (markers : List String) (tool : Pair)
    → write_tool markers ≡ some tool
    → (tool ≡ ("add_terms", "term_urns")) ⊎ (tool ≡ ("add_tags", "tag_urns"))
unfolding write_tool
tool_names markers tool h = elim (Bool-cases (are_only "glossaryTerm" (marker_kinds markers))) [
  | inl e ↦ inl (ground (arith, e, h))
  | inr e ↦ inr (ground (arith, e, h))
]

-- From what the proposal holds to what it writes.
propagated :
    (casefold : String → String) (show : Show) (finding : Evidence) (snapshot : CatalogSnapshot)
    (p : Proposal) (name : String)
    → listed name p.arguments ≡ written casefold show finding snapshot p
    → targets p ≡ map as_target (reached casefold show finding snapshot p)
    → Propagates casefold show snapshot finding p name
unfolding Propagates
propagated casefold show finding snapshot p name w t = (
  subst (All (IsMarker casefold show finding)) (sym w) (writable-IsMarker casefold show finding),
  (
    reached casefold show finding snapshot p,
    t,
    λ item.
        subst
          (λ ms.
            (has_pair item (reached casefold show finding snapshot p) ≡ true)
            ↔ (Flows snapshot.edges (partition_hash finding.subject) item × Lacks snapshot ms item))
          (sym w)
          (closure_exact (partition_hash finding.subject).0 (partition_hash finding.subject).1
            snapshot (written casefold show finding snapshot p) item),
  ),
)

-- A repair of an untagged leak writes, by the tool for terms or the one for tags, only URNs of PII
-- markers that the finding names, and to exactly the columns that lineage leads to from the column
-- of the finding and that exist with none of these markers.
pub propose_pii_tag-Propagates :
    (casefold : String → String) (show : Show) (finding : Evidence) (snapshot : CatalogSnapshot)
    (p : Proposal)
    → propose_pii_tag casefold show finding snapshot ≡ some p
    → ((p.tool ≡ "add_terms") × Propagates casefold show snapshot finding p "term_urns")
      ⊎ ((p.tool ≡ "add_tags") × Propagates casefold show snapshot finding p "tag_urns")
propose_pii_tag-Propagates casefold show finding snapshot p h =
    let g = guarded casefold show finding snapshot p h in
    let w = written casefold show finding snapshot p in
    let r = reached casefold show finding snapshot p in
    let made = λ (tool : Pair). marker_proposal finding tool w snapshot r ≡ some p in
    elim (tool_names (marked casefold show finding snapshot p) g.0 g.1) [
      | inl e ↦
          let m = (marker-Writes finding "add_terms" w snapshot r p).0 (subst made e g.2) in
          inl (m.0, propagated casefold show finding snapshot p "term_urns" m.1 m.2)
      | inr e ↦
          let m = (marker-Writes finding "add_tags" w snapshot r p).1 (subst made e g.2) in
          inr (m.0, propagated casefold show finding snapshot p "tag_urns" m.1 m.2)
    ]
