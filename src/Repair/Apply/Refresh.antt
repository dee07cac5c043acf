-- ===== src/Repair/Apply/Refresh.antt =====
-- The direct read after the writes (src/sidq/repair/apply.py, `refresh_snapshot`). `get_dataset` is
-- a parameter. A read that raises is its error's name, all that `verify_repairs` uses of it.
use sidq.Models.{SchemaField, DatasetInfo}
use sidq.Prelude.{String, str_le, true, Option, none, some, List, [], ◌∷◌, ◌++◌, map, concat}
use sidq.Prelude.Dict.{Dict, lookup, insert}
use sidq.Prelude.Sets.{distinct, insert_all}
use sidq.Prelude.Sort.{sorted}
use sidq.Catalog.Snapshot.{CatalogField, CatalogEntity, CatalogSnapshot}
use sidq.Catalog.Gate.{entities_by_urn}
use sidq.Repair.Proposals.{Proposal, targets}
use sidq.Repair.Apply.Poll.{Answer, current, failed}

-- What `get_dataset` answers.
pub data Fetched : Type 0 where
  found : DatasetInfo → Fetched
  absent : Fetched
  raised : String → Fetched

-- `glossary.get(term, term)`
unfoldable pub resolve_term : Dict String → String → String
resolve_term glossary term = elim (lookup term glossary) [ none ↦ term | some urn ↦ urn ]

unfoldable pub markers : List String → List String → Dict String → List String
unfolding resolve_term
markers tags terms glossary = sorted str_le (distinct (tags ++ map (resolve_term glossary) terms))

unfoldable pub catalog_field : Dict String → SchemaField → CatalogField
unfolding markers
catalog_field glossary f = record {
  path = f.path;
  description = f.description;
  tags = markers f.tags f.terms glossary;
}

-- `replace(prior, ...)`
unfoldable pub refresh_entity : CatalogEntity → DatasetInfo → CatalogEntity
unfolding catalog_field
refresh_entity prior dataset =
    let glossary = insert_all dataset.glossary [] in
    record prior {
      fields = map (catalog_field glossary) dataset.fields;
      tags = markers dataset.tags dataset.terms glossary;
      owners = sorted str_le dataset.owners;
      deprecated = dataset.deprecated;
      schema_available = true;
    }

-- `sorted({urn for proposal in proposals for urn, _ in proposal.targets})`
unfoldable pub target_urns : List Proposal → List String
target_urns proposals =
    sorted str_le (
      distinct
        (concat (map (λ p. map (λ (t : String × Option String). t.0) (targets p)) proposals)))

pub data Reads : Type 0 where
  refreshed : Dict CatalogEntity → Reads
  stopped : String → Reads

module _ (get_dataset : String → Fetched) where
  -- The loop over the URNs.
  unfoldable pub refresh_all : Dict CatalogEntity → List String → Dict CatalogEntity → Reads
  unfolding refresh_entity
  refresh_all existing [] so_far = refreshed so_far
  refresh_all existing (urn ∷ urns) so_far = elim (lookup urn existing) [
    | none ↦ stopped "RuntimeError"
    | some prior ↦ elim (get_dataset urn) [
      | absent ↦ stopped "RuntimeError"
      | raised error ↦ stopped error
      | found dataset ↦ refresh_all existing urns (insert urn (refresh_entity prior dataset) so_far)
    ]
  ]

  -- `refreshed.get(entity.urn, entity)`
  unfoldable pub take_refreshed : Dict CatalogEntity → CatalogEntity → CatalogEntity
  take_refreshed fresh entity = elim (lookup entity.urn fresh) [ none ↦ entity | some e ↦ e ]

  unfoldable pub refresh_snapshot : CatalogSnapshot → List Proposal → Answer
  unfolding refresh_all target_urns take_refreshed
  refresh_snapshot before proposals =
      elim (refresh_all (entities_by_urn before) (target_urns proposals) []) [
        | stopped error ↦ failed error
        | refreshed fresh ↦
            current (record before { entities = map (take_refreshed fresh) before.entities })
      ]
