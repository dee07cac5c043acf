-- ===== src/Models.antt =====
-- The immutable vocabulary of the engine (src/sidq/models.py), and the records of a dataset
-- (src/sidq/graph/client.py). The `json.dumps` check of
-- `Evidence.__post_init__` holds by construction: a detail is a mapping of JSON values.
use sidq.Prelude.{String, Bool, Option, List}
use sidq.Value.{Fields}

pub record FieldRef : Type 0 where
  pub dataset_urn : String
  pub field_path : String

pub record TouchedAsset : Type 0 where
  pub urn : String
  pub source_path : String
  pub added_fields : List String
  pub removed_fields : List String
  pub referenced_fields : List FieldRef
  pub resolution_strategy : String

pub record Evidence : Type 0 where
  pub kind : String
  pub subject : String
  pub detail : Fields
  pub graph_links : List String

-- `block`, `warn` and `info`, the texts that `load_policy` and the engine use.
pub data Severity : Type 0 where
  block warn info : Severity

pub record Finding : Type 0 where
  pub rule_id : String
  pub severity : Severity
  pub message : String
  pub evidence : List Evidence

pub data Decision : Type 0 where
  pass warn block : Decision

pub record Verdict : Type 0 where
  pub decision : Decision
  pub reason_code : Option String
  pub findings : List Finding
  pub touched : List TouchedAsset
  pub commit_sha : String
  pub policy_hash : String

pub record SchemaField : Type 0 where
  pub path : String
  pub native_type : String
  pub nullable : Bool
  pub description : Option String
  pub tags : List String
  pub terms : List String

pub record DatasetInfo : Type 0 where
  pub urn : String
  pub fields : List SchemaField
  pub tags : List String
  pub terms : List String
  pub owners : List String
  pub deprecated : Bool
  pub glossary : List (String × String)
