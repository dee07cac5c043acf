-- ===== src/Gates/Tests.antt =====
-- The gates on a small change.
use sidq.Prelude.{
  ℕ, String, str_eq, true, false, Option, none, some, [], ◌∷◌, map, All, ◌≡◌, refl, if◌then◌else◌,
}
use sidq.Prelude.{has_prefix, remove_prefix, is_infix}
use sidq.Prelude.Sort.{sorted}
use sidq.Prelude.Dict.{lookup, insert}
use sidq.Prelude.Pairs.{distinct_pairs, pair_le, has_pair}
use sidq.Prelude.Sets.{member, distinct, insert_all}
use sidq.Catalog.Snapshot.{le_then}
use sidq.Catalog.Checks.Columns.{is_empty_list}
use sidq.Value.{Fields, strings}
use sidq.Models.{TouchedAsset, Evidence, SchemaField, DatasetInfo}
use sidq.Gates.Graph.{Reply, answered, failed, GraphClient, Says, by_urn, cached, graph_unavailable}
use sidq.Gates.Schema as Schema
use sidq.Gates.Schema.Stated.{Stated}
use sidq.Gates.Schema.Silent.{Addressed, collect-Stated}
use sidq.Gates.Governance as Governance
use sidq.Gates.Governance.Settled.{Rests, AssetSettled}
use sidq.Gates.Governance.Reported.{collect-AssetSettled}
use sidq.Gates.Reality as Reality
use sidq.Gates.Reality.Drift.{AllCompared, collect-AllCompared}
use sidq.Gates.Blast as Blast
use sidq.Gates.Blast.Details.{Texts, details, impact_detail, path_detail}
use sidq.Gates.Blast.Paths.{
  is_explore, paths, handoff, first_dashboard, combine_column_and_bi_paths,
}
use sidq.Gates.Blast.Proven.{AllWeighed, collect-AllWeighed}

abbrev id_field : String → SchemaField
id_field type = record {
  path = "id";
  native_type = type;
  nullable = false;
  description = none;
  tags = [];
  terms = [];
}

abbrev dataset : String → DatasetInfo
dataset type = record {
  urn = "raw";
  fields = id_field type ∷ [];
  tags = [];
  terms = [];
  owners = [];
  deprecated = true;
  glossary = [];
}

-- The catalog has the dataset `raw`; a call for another times out. The world counts the calls.
abbrev graph : GraphClient ℕ
graph = record {
  get_dataset = λ urn n. (
    (if str_eq urn "raw" then answered (some (dataset "INTEGER")) else failed "TimeoutError"),
    n,
  );
  find_dataset = λ name n. (answered none, n);
  get_downstream = λ urn depth column n. (
    answered (record {
      urns = "urn:li:dashboard:1" ∷ [];
      entity_types = none;
      paths = [];
      columns = some (("urn:li:dashboard:1", "total" ∷ []) ∷ []);
      tags = none;
      granularity = "column";
      total = none;
      returned = none;
      complete = true;
    }),
    n,
  );
  paths_between = λ a b source target n. (answered [], n);
}

abbrev orders : TouchedAsset
orders = record {
  urn = "raw";
  source_path = "models/orders.sql";
  added_fields = "total" ∷ [];
  removed_fields = [];
  referenced_fields =
      record { dataset_urn = "raw"; field_path = "id::int" }
      ∷ record { dataset_urn = "raw"; field_path = "name" }
      ∷ record { dataset_urn = "lost"; field_path = "id" }
      ∷ [];
  resolution_strategy = "";
}

abbrev same : String → String
same s = s

-- What the calls showed, and how they failed.
abbrev ShownBy : String → Option DatasetInfo → Type 0
ShownBy urn info = (n : ℕ) × ((graph.get_dataset urn n).0 ≡ answered info)

abbrev BrokenBy : String → String → Type 0
BrokenBy urn error = (n : ℕ) × ((graph.get_dataset urn n).0 ≡ failed error)

graph-Says : Says graph ShownBy BrokenBy
graph-Says = record { shown = λ urn info n e. (n, e); broken = λ urn error n e. (n, e) }

collect-Stated_example :
    All
      (Stated same same ShownBy BrokenBy (orders ∷ []))
      (Schema.collect same same graph (orders ∷ []) 0).0
    × All
        (Addressed same same ShownBy BrokenBy
          (orders ∷ [])
          (Schema.collect same same graph (orders ∷ []) 0).0)
        (Schema.all_references (orders ∷ []))
collect-Stated_example = collect-Stated same same ShownBy BrokenBy (orders ∷ []) graph graph-Says 0

abbrev no_repr : Fields → String
no_repr detail = ""

collect-AssetSettled_example :
    All (Rests ShownBy BrokenBy) (Governance.collect graph no_repr (orders ∷ []) 0).0
    × All
        (AssetSettled ShownBy BrokenBy (Governance.collect graph no_repr (orders ∷ []) 0).0)
        (sorted by_urn (orders ∷ []))
collect-AssetSettled_example =
    collect-AssetSettled graph ShownBy BrokenBy graph-Says no_repr (orders ∷ []) 0

abbrev source : String → ℕ → Reply (Option DatasetInfo) × ℕ
source urn n = (answered (some (dataset "BIGINT")), n)

collect-AllCompared_example :
    AllCompared graph source
      (sorted by_urn (orders ∷ []))
      (Reality.collect graph source (orders ∷ []) 0).0
collect-AllCompared_example = collect-AllCompared graph source (orders ∷ []) 0

abbrev texts : Texts
texts = record { lower = same; casefold = same; three_digits = λ n. "000" }

collect-AllWeighed_example :
    AllWeighed texts graph 3
      (sorted by_urn (orders ∷ []))
      (Blast.collect texts graph 3 (orders ∷ []) 0).0
collect-AllWeighed_example = collect-AllWeighed texts graph 3 (orders ∷ []) 0

kind_of : Evidence → String
kind_of e = e.kind

schema_kinds :
    map kind_of (Schema.collect same same graph (orders ∷ []) 0).0
    ≡ "graph_unavailable" ∷ "type_mismatch" ∷ "unknown_field" ∷ []
unfolding kind_of Schema.collect sorted distinct_pairs pair_le cached lookup member
    graph_unavailable Schema.check_field Schema.typed_path Schema.compatible Schema.type_mismatch
    Schema.unknown_field Schema.field_at Schema.check_reply Schema.references has_pair has_prefix
    remove_prefix Schema.normalize insert
schema_kinds = refl

blast_kinds : map kind_of (Blast.collect texts graph 3 (orders ∷ []) 0).0 ≡ "blast_radius" ∷ []
unfolding kind_of Blast.collect sorted Blast.report Blast.measure Blast.is_proven
    Blast.changed_column distinct is_empty_list Blast.maps_every_target Blast.impact
    Blast.with_bi_consumers is_explore is_infix paths handoff first_dashboard details impact_detail
    path_detail combine_column_and_bi_paths Blast.blast_radius graph_unavailable member has_prefix
    strings insert_all lookup insert
blast_kinds = refl

governance_kinds :
    map kind_of (Governance.collect graph no_repr (orders ∷ []) 0).0
    ≡ "deprecated_upstream" ∷ "graph_unavailable" ∷ "unowned_asset" ∷ []
unfolding kind_of Governance.collect sorted Governance.evidence_le cached lookup member distinct
    is_empty_list Governance.check_owners Governance.check_upstream Governance.unread
    Governance.upstreams Governance.unowned_asset Governance.deprecated_upstream graph_unavailable
    strings le_then insert
governance_kinds = refl
