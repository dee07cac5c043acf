-- ===== src/Repair/Tests.antt =====
-- Repairs of a small catalog, proposed and proven.
mod Writes
use sidq.Prelude.{
  ℕ, ◌+◌, String, true, false, Option, none, some, List, [], ◌∷◌, All, ◌≡◌, refl, ◌↔◌, ◌⊎◌, ◌==◌,
  str_eq, arith, if◌then◌else◌, map, has_prefix, remove_prefix, is_infix, split_on, ends_with,
}
use sidq.Prelude.Dict.{Dict, lookup, insert}
use sidq.Prelude.Pairs.{Pair, has_pair, minus, distinct_pairs, pair_le}
use sidq.Prelude.Sets.{distinct, insert_all, member}
use sidq.Prelude.Sort.{sorted}
use sidq.Value.{field, end, arr, strings, get_key, items_of}
use sidq.Models.{Evidence}
use sidq.Catalog.Snapshot.{CatalogEntity, CatalogSnapshot}
use sidq.Catalog.Checks.Columns.{is_empty_list}
use sidq.Catalog.Gate.{entities_by_urn}
use sidq.Catalog.Tags.{is_pii_tag, is_negated_tag, compact, tag_words, after_colon}
use sidq.Receipt.State.{Show, text_of, get}
use sidq.Repair.Closure.{
  closure, reach_from, column_at, shares, undeclared, push_targets, push_target, goes_from, is_text,
}
use sidq.Repair.Closure.Flows.{Flows}
use sidq.Repair.Closure.Exact.{Lacks, closure_exact}
use sidq.Repair.Proposals.{
  Argument, texts, text, Proposal, propose_pii_tag, propose_owner, propose_all, first_with_urn,
  targets, are_only, elements, joined, marker_kinds, marker_proposal, pii_markers, writable_markers,
  write_tool, partition_hash, candidates, upstream_entities,
}
use sidq.Repair.Proposals.Unique.{AreDistinct, Covers, propose_all-AreDistinct}
use sidq.Repair.Proposals.Owners.{NamesOwner, propose_owner-NamesOwner}
use sidq.Repair.Proposals.Markers.{Propagates, propose_pii_tag-Propagates}
use sidq.Repair.Simulate.{simulate, simulate_all, added}
use sidq.Repair.Simulate.Frame.{Pairwise, Simulated, simulate-Simulated}
use sidq.Repair.Prove.{Gate, writable, prove, target_key, findings, unverifiable_keys}
use sidq.Repair.Prove.Sound.{Cleared, prove-Cleared}
use sidq.Repair.Prove.Applied.{verify_applied, detail, NoCollateral, verify_applied_verified}
use sidq.Repair.Apply.{ApplyOutcome, apply_repairs}
use sidq.Repair.Apply.Writes.{Wrote, apply_repairs-Wrote}
use sidq.Repair.Apply.Poll.{World, current, verify_repairs}
use sidq.Repair.Apply.Poll.Returns.{Runs, Returned, verify_repairs-Returned}
use sidq.Repair.Apply.Poll.Honest.{IsConfirmed, SameWrites, verify_repairs-IsConfirmed}

abbrev table : String → String → List String → List String → CatalogEntity
table urn column tags owners = record {
  urn = urn;
  kind = "dataset";
  description = none;
  fields = record { path = column; description = none; tags = tags } ∷ [];
  tags = [];
  owners = owners;
  deprecated = false;
  live = true;
  schema_available = true;
}

-- The marked column `x` of `a` feeds the column `y` of `b`, which nobody owns.
abbrev catalog : CatalogSnapshot
catalog = record {
  entities = table "a" "x" ("urn:li:tag:pii" ∷ []) ("ann" ∷ []) ∷ table "b" "y" [] [] ∷ [];
  edges =
      record {
        source_urn = "a";
        source_field = some "x";
        target_urn = "b";
        target_field = some "y";
      }
      ∷ [];
  entities_complete = true;
  field_lineage_resolved = none;
}

abbrev leak : Evidence
leak = record {
  kind = "pii_leak_untagged";
  subject = "b#y";
  detail = field "source_pii_tags" (arr (strings ("urn:li:tag:pii" ∷ []))) end;
  graph_links = [];
}

abbrev unowned : Evidence
unowned = record { kind = "unowned_consumed"; subject = "b"; detail = end; graph_links = [] }

abbrev id : String → String
id s = s

abbrev show : Show
show v = "?"

closure_exact_example :
    (has_pair ("b", "y") (closure "a" "x" catalog ("urn:li:tag:pii" ∷ [])) ≡ true)
    ↔ (Flows catalog.edges ("a", "x") ("b", "y") × Lacks catalog ("urn:li:tag:pii" ∷ []) ("b", "y"))
closure_exact_example = closure_exact "a" "x" catalog ("urn:li:tag:pii" ∷ []) ("b", "y")

abbrev owner_repair : Proposal
owner_repair = record {
  finding_kind = "unowned_consumed";
  subject = "b";
  tool = "add_owners";
  arguments =
      ("owner_urns", texts ("ann" ∷ []))
      ∷ ("entity_urns", texts ("b" ∷ []))
      ∷ ("ownership_type", text "__system__technical_owner")
      ∷ [];
  derived_from = "a" ∷ [];
}

abbrev tag_repair : Proposal
tag_repair = record {
  finding_kind = "pii_leak_untagged";
  subject = "b#y";
  tool = "add_tags";
  arguments =
      ("tag_urns", texts ("urn:li:tag:pii" ∷ []))
      ∷ ("entity_urns", texts ("b" ∷ []))
      ∷ ("column_paths", texts ("y" ∷ []))
      ∷ [];
  derived_from = "b#y" ∷ [];
}

propose_all-AreDistinct_example :
    AreDistinct (propose_all id show (leak ∷ unowned ∷ leak ∷ []) catalog)
    × Covers id show catalog
        (propose_all id show (leak ∷ unowned ∷ leak ∷ []) catalog)
        (leak ∷ unowned ∷ leak ∷ [])
propose_all-AreDistinct_example =
    propose_all-AreDistinct id show catalog (leak ∷ unowned ∷ leak ∷ [])

owner_repair_proposed : propose_owner unowned catalog ≡ some owner_repair
unfolding propose_owner first_with_urn is_empty_list candidates distinct upstream_entities sorted
owner_repair_proposed = refl

propose_owner-NamesOwner_example :
    ((entity : CatalogEntity) × (first_with_urn "b" catalog.entities ≡ some entity)
      × (entity.owners ≡ []))
    × NamesOwner catalog unowned owner_repair
propose_owner-NamesOwner_example =
    propose_owner-NamesOwner unowned catalog owner_repair owner_repair_proposed

tag_repair_proposed : propose_pii_tag id show leak catalog ≡ some tag_repair
unfolding propose_pii_tag is_empty_list get items_of strings is_pii_tag is_negated_tag has_prefix
    compact tag_words after_colon split_on text_of is_infix partition_hash sorted closure lookup
    entities_by_urn insert has_pair pair_le insert_all member remove_prefix column_at goes_from
    is_text push_target push_targets reach_from shares undeclared are_only elements joined
    marker_kinds marker_proposal pii_markers writable_markers write_tool get_key
tag_repair_proposed = refl

propose_pii_tag-Propagates_example :
    ((tag_repair.tool ≡ "add_terms") × Propagates id show catalog leak tag_repair "term_urns")
    ⊎ ((tag_repair.tool ≡ "add_tags") × Propagates id show catalog leak tag_repair "tag_urns")
propose_pii_tag-Propagates_example =
    propose_pii_tag-Propagates id show leak catalog tag_repair tag_repair_proposed

simulate-Simulated_example :
    Pairwise (Simulated tag_repair) catalog.entities (simulate catalog tag_repair).entities
    × ((simulate catalog tag_repair).edges ≡ catalog.edges)
    × ((simulate catalog tag_repair).entities_complete ≡ true)
    × ((simulate catalog tag_repair).field_lineage_resolved ≡ none)
simulate-Simulated_example = simulate-Simulated catalog tag_repair

-- A gate that finds the assets without an owner.
abbrev found_unowned : CatalogEntity → List Evidence → List Evidence
found_unowned e rest =
    if is_empty_list e.owners
    then record { kind = "unowned_consumed"; subject = e.urn; detail = end; graph_links = [] }
      ∷ rest
    else rest

toy_gate_of : List CatalogEntity → List Evidence
toy_gate_of [] = []
toy_gate_of (e ∷ es) = found_unowned e (toy_gate_of es)

abbrev toy_gate : Gate
toy_gate snapshot = toy_gate_of snapshot.entities

abbrev decimal : ℕ → String
decimal n = "1"

cleared :
    writable (prove decimal toy_gate catalog (owner_repair ∷ tag_repair ∷ []))
    ≡ owner_repair ∷ tag_repair ∷ []
unfolding writable prove toy_gate_of is_empty_list findings ends_with has_pair simulate targets
    lookup added sorted distinct minus distinct_pairs simulate_all
cleared = refl

prove-Cleared_example :
    Cleared toy_gate catalog (writable (prove decimal toy_gate catalog (owner_repair ∷ [])))
prove-Cleared_example = prove-Cleared decimal toy_gate catalog (owner_repair ∷ [])

verify_applied_verified_example :
    ((verify_applied toy_gate catalog (simulate catalog owner_repair) (owner_repair ∷ [])).verified
      ≡ true)
    ↔ (((k : Pair)
          → has_pair k (map target_key (owner_repair ∷ [])) ≡ true
          → has_pair k (findings toy_gate (simulate catalog owner_repair)) ≡ false)
        × NoCollateral toy_gate catalog (simulate catalog owner_repair))
verify_applied_verified_example =
    verify_applied_verified toy_gate catalog (simulate catalog owner_repair) (owner_repair ∷ [])
