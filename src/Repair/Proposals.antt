-- ===== src/Repair/Proposals.antt =====
-- What repair a finding has (src/sidq/repair/proposals.py). The rationale, a text for people, is
-- left out of `Proposal`. `casefold` is Python's method, `show` its `str` on a value.
pub mod Unique
pub mod Owners
pub mod Markers
use Prim.Native.String as Text
use Prim.Native.Char.{code}
use sidq.Prelude.{
  String, str_eq, str_le, has_prefix, split_on, Bool, true, false, not, ◌&&◌, ◌||◌, Option, none,
  some, List, [], ◌∷◌, all, any, keep, map, concat, ◌==◌, if◌then◌else◌,
}
use sidq.Prelude.Dict.{Dict, lookup}
use sidq.Prelude.Pairs.{Pair}
use sidq.Prelude.Sets.{member, distinct}
use sidq.Prelude.Sort.{sorted}
use sidq.Value.{Value, null, arr, tup, Fields, items_of}
use sidq.Models.{Evidence}
use sidq.Catalog.Snapshot.{CatalogEntity, LineageEdge, CatalogSnapshot}
use sidq.Catalog.Tags.{is_pii_tag}
use sidq.Catalog.Checks.Columns.{is_empty_list}
use sidq.Receipt.State.{Show, text_of, get}
use sidq.Repair.Closure.{closure}

-- An argument of a tool.
pub data Argument : Type 0 where
  texts : List String → Argument
  text : String → Argument

pub record Proposal : Type 0 where
  pub finding_kind : String
  pub subject : String
  pub tool : String
  pub arguments : Dict Argument
  pub derived_from : List String

letters : String → List String
letters String.[] = []
letters (String.◌∷◌ c s) = String.◌∷◌ c String.[] ∷ letters s

-- `[str(item) for item in arguments.get(name) or ()]`
unfoldable pub listed : String → Dict Argument → List String
unfolding letters
listed name arguments = elim (lookup name arguments) [
  | none ↦ []
  | some (texts ss) ↦ ss
  | some (text s) ↦ letters s
]

-- The URNs beside their paths, padded with `None`; an empty path is none.
unfoldable pub zip_targets : List String → List String → List (String × Option String)
zip_targets [] paths = []
zip_targets (urn ∷ urns) [] = (urn, none) ∷ zip_targets urns []
zip_targets (urn ∷ urns) (path ∷ paths) =
    (urn, if str_eq path "" then none else some path) ∷ zip_targets urns paths

unfoldable pub targets : Proposal → List (String × Option String)
unfolding listed zip_targets
targets p = zip_targets (listed "entity_urns" p.arguments) (listed "column_paths" p.arguments)

pub record Key : Type 0 where
  pub tool : String
  pub subject : String
  pub kind : String

unfoldable pub key : Proposal → Key
key p = record { tool = p.tool; subject = p.subject; kind = p.finding_kind }

unfoldable pub key_eq : Key → Key → Bool
key_eq a b = str_eq a.tool b.tool && (str_eq a.subject b.subject && str_eq a.kind b.kind)

-- `subject.partition("#")`, without the separator.
unfoldable pub partition_hash : String → Pair
partition_hash String.[] = ("", "")
partition_hash (String.◌∷◌ c s) =
    let rest = partition_hash s in if code c == b'#' then ("", s) else (String.◌∷◌ c rest.0, rest.1)

third : List String → String
third (a ∷ b ∷ c ∷ parts) = c
third parts = ""

-- `{marker.split(":")[2] for marker in markers if marker.startswith("urn:li:")}`
unfoldable pub marker_kinds : List String → List String
unfolding third
marker_kinds markers = map (λ m. third (split_on b':' m)) (keep (has_prefix "urn:li:") markers)

-- `kinds == {kind}`
unfoldable pub are_only : String → List String → Bool
are_only kind kinds = not (is_empty_list kinds) && all (str_eq kind) kinds

-- The tool and the name of its argument.
unfoldable pub write_tool : List String → Option Pair
unfolding marker_kinds are_only
write_tool markers =
    if are_only "glossaryTerm" (marker_kinds markers)
    then some ("add_terms", "term_urns")
    else if are_only "tag" (marker_kinds markers)
    then some ("add_tags", "tag_urns")
    else none

-- `detail.get("source_pii_tags") or ()`; the gate writes a list there.
unfoldable pub elements : Value → List Value
elements (arr items) = items_of items
elements (tup items) = items_of items
elements v = []

unfoldable pub joined : Pair → String
joined node = Text.◌++◌ node.0 (Text.◌++◌ "#" node.1)

-- The proposal for the columns that the markers reach.
unfoldable pub marker_proposal :
    Evidence → Pair → List String → CatalogSnapshot → List Pair → Option Proposal
unfolding joined
marker_proposal finding tool writable snapshot [] = none
marker_proposal finding tool writable snapshot (node ∷ nodes) = some record {
  finding_kind = finding.kind;
  subject = finding.subject;
  tool = tool.0;
  arguments =
      (tool.1, texts writable)
      ∷ ("entity_urns", texts (map (λ (item : Pair). item.0) (node ∷ nodes)))
      ∷ ("column_paths", texts (map (λ (item : Pair). item.1) (node ∷ nodes)))
      ∷ [];
  derived_from = map joined (node ∷ nodes);
}

module _ (casefold : String → String) (show : Show) where
  -- `markers`
  unfoldable pub pii_markers : Evidence → List String
  unfolding elements
  pii_markers finding =
      keep (is_pii_tag casefold)
        (map (text_of show) (elements (get "source_pii_tags" finding.detail)))

  -- `writable`
  unfoldable pub writable_markers : List String → List String
  writable_markers markers = sorted str_le (keep (has_prefix "urn:") markers)

  unfoldable pub propose_pii_tag : Evidence → CatalogSnapshot → Option Proposal
  unfolding pii_markers writable_markers write_tool marker_proposal
  propose_pii_tag finding snapshot =
      let markers = pii_markers finding in
      let place = partition_hash finding.subject in
      let writable = writable_markers markers in
      if is_empty_list markers || (str_eq place.0 "" || str_eq place.1 "")
      then none
      else elim (write_tool markers) [
        | none ↦ none
        | some tool ↦
            if is_empty_list writable
            then none
            else marker_proposal finding tool writable snapshot
                (closure place.0 place.1 snapshot writable)
      ]

-- `next((item for item in snapshot.entities if item.urn == urn), None)`
unfoldable pub first_with_urn : String → List CatalogEntity → Option CatalogEntity
first_with_urn urn [] = none
first_with_urn urn (entity ∷ entities) =
    if str_eq entity.urn urn then some entity else first_with_urn urn entities

-- Whether an edge leads from the first to the second of two different assets.
unfoldable pub is_upstream : List LineageEdge → String → CatalogEntity → Bool
is_upstream edges urn entity =
    any (λ edge. str_eq edge.source_urn entity.urn && str_eq edge.target_urn urn) edges
    && not (str_eq entity.urn urn)

unfoldable pub upstream_entities : String → CatalogSnapshot → List CatalogEntity
unfolding is_upstream
upstream_entities urn snapshot = keep (is_upstream snapshot.edges urn) snapshot.entities

has_owner : CatalogEntity → Bool
has_owner entity = not (is_empty_list entity.owners)

owned_upstreams : String → CatalogSnapshot → List CatalogEntity
unfolding has_owner
owned_upstreams urn snapshot = keep has_owner (upstream_entities urn snapshot)

-- `set().union(*owner_sets)`
unfoldable pub candidates : String → CatalogSnapshot → List String
unfolding owned_upstreams
candidates urn snapshot =
    distinct (concat (map (λ (e : CatalogEntity). e.owners) (owned_upstreams urn snapshot)))

owner_proposal : Evidence → CatalogSnapshot → List String → Option Proposal
unfolding owned_upstreams
owner_proposal finding snapshot (owner ∷ []) = some record {
  finding_kind = finding.kind;
  subject = finding.subject;
  tool = "add_owners";
  arguments =
      ("owner_urns", texts (owner ∷ []))
      ∷ ("entity_urns", texts (finding.subject ∷ []))
      ∷ ("ownership_type", text "__system__technical_owner")
      ∷ [];
  derived_from =
      sorted str_le (map (λ (e : CatalogEntity). e.urn) (owned_upstreams finding.subject snapshot));
}
owner_proposal finding snapshot owners = none

unfoldable pub propose_owner : Evidence → CatalogSnapshot → Option Proposal
unfolding owner_proposal
propose_owner finding snapshot = elim (first_with_urn finding.subject snapshot.entities) [
  | none ↦ none
  | some entity ↦
      if is_empty_list entity.owners
      then owner_proposal finding snapshot (candidates finding.subject snapshot)
      else none
]

module _ (casefold : String → String) (show : Show) where
  unfoldable pub propose : Evidence → CatalogSnapshot → Option Proposal
  propose finding snapshot =
      if str_eq finding.kind "pii_leak_untagged"
      then propose_pii_tag casefold show finding snapshot
      else if str_eq finding.kind "unowned_consumed"
      then propose_owner finding snapshot
      else none

  -- The loop of `propose_all`, with the keys seen so far.
  propose_from : List Key → CatalogSnapshot → List Evidence → List Proposal
  propose_from seen snapshot [] = []
  propose_from seen snapshot (finding ∷ findings) = elim (propose finding snapshot) [
    | none ↦ propose_from seen snapshot findings
    | some p ↦ elim (any (key_eq (key p)) seen) [
      | true ↦ propose_from seen snapshot findings
      | false ↦ p ∷ propose_from (key p ∷ seen) snapshot findings
    ]
  ]

  unfoldable pub propose_all : List Evidence → CatalogSnapshot → List Proposal
  unfolding propose_from
  propose_all findings snapshot = propose_from [] snapshot findings
