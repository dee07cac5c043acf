-- ===== src/Gates/Blast/Details.antt =====
-- The detail of a blast radius (src/sidq/gates/blast.py, `_details` and `_path_detail`).
use sidq.Prelude.{
  ℕ, ◌+◌, String, str_eq, str_le, has_prefix, is_infix, Bool, not, ◌||◌, Option, none, some, List,
  [], ◌∷◌, ◌++◌, map, any, keep, length, if◌then◌else◌,
}
use sidq.Prelude.Int.{pos}
use sidq.Prelude.Dict.{Dict, lookup, insert}
use sidq.Prelude.Sets.{member, distinct}
use sidq.Prelude.Sort.{sorted}
use sidq.Value.{Value, str, int, arr, obj, Items, nil, cons, Fields, field, end, strings}
use sidq.Models.{DatasetInfo}
use sidq.Catalog.Checks.Columns.{is_empty_list}
use sidq.Catalog.Tags.{is_pii_tag}
use sidq.Gates.Graph.{Asks, ◌>>=◌, Reply, answered, failed, GraphClient, LineagePath, LineageResult}

-- `str.lower`, `str.casefold` and an index as three digits.
pub record Texts : Type 0 where
  pub lower : String → String
  pub casefold : String → String
  pub three_digits : ℕ → String

-- The locals of `_details`.
pub record Impact : Type 0 where
  pub dashboards : List String
  pub critical : List String
  pub cross_team : List String
  pub unreadable : List String
  pub pii_assets : Dict (List String)

-- `sorted(set(...))`
unfoldable pub sorted_set : List String → List String
sorted_set texts = sorted str_le (distinct texts)

first_urn : List String → String
first_urn [] = ""
first_urn (urn ∷ urns) = urn

last_urn : List String → String
last_urn [] = ""
last_urn (urn ∷ []) = urn
last_urn (urn ∷ next ∷ urns) = last_urn (next ∷ urns)

hops_from : (ℕ → String) → ℕ → List String → Fields
hops_from three_digits index (left ∷ right ∷ urns) =
    field (three_digits index) (obj (field "from" (str left) (field "to" (str right) end)))
      (hops_from three_digits (index + 1) (right ∷ urns))
hops_from three_digits index urns = end

note_field : Option String → Fields
note_field none = end
note_field (some note) = if str_eq note "" then end else field "note" (str note) end

-- `_path_detail`
unfoldable pub path_detail : (ℕ → String) → LineagePath → Value
unfolding first_urn last_urn hops_from note_field
path_detail three_digits path = obj (
    field "granularity" (str path.granularity) (
      field "source" (str (first_urn path.urns)) (
        field "target" (str (last_urn path.urns))
          (field "hops" (obj (hops_from three_digits 0 path.urns)) (note_field path.note)))))

path_details : (ℕ → String) → List LineagePath → Items
unfolding path_detail
path_details three_digits [] = nil
path_details three_digits (path ∷ paths) =
    cons (path_detail three_digits path) (path_details three_digits paths)

type_of : String → Option (Dict String) → String
type_of urn none = ""
type_of urn (some types) = elim (lookup urn types) [ none ↦ "" | some type ↦ type ]

inline_tags : String → Option (Dict (List String)) → List String
inline_tags urn none = []
inline_tags urn (some tags) = elim (lookup urn tags) [ none ↦ [] | some ts ↦ ts ]

unfoldable pub owners_of : Option DatasetInfo → List String
owners_of none = []
owners_of (some info) = info.owners

-- A failed read of a downstream asset counts as none.
unfoldable pub read_of : Reply (Option DatasetInfo) → Option DatasetInfo
read_of (failed error) = none
read_of (answered info) = info

pii_fields : Dict (List String) → List String → Fields
pii_fields assets [] = end
pii_fields assets (urn ∷ urns) =
    field urn (arr (strings (elim (lookup urn assets) [ none ↦ [] | some tags ↦ tags ])))
      (pii_fields assets urns)

pii_urns : Dict (List String) → List String
pii_urns assets = map (λ (kv : String × List String). kv.0) assets

pii_tags : Dict (List String) → List String
pii_tags [] = []
pii_tags ((urn, tags) ∷ assets) = tags ++ pii_tags assets

granularity_of : String → String
granularity_of text = if str_eq text "column" || str_eq text "table" then text else "table"

-- The dictionary that `_details` returns.
unfoldable pub impact_detail : (ℕ → String) → LineageResult → List LineagePath → ℕ → Impact → Fields
unfolding path_details sorted_set pii_fields pii_urns pii_tags granularity_of
impact_detail three_digits result paths depth impact =
    field "downstream_count" (int (pos (length result.urns))) (
      field "downstream_urns" (arr (strings (sorted str_le result.urns))) (
        field "paths" (arr (path_details three_digits paths)) (
          field "dashboards" (arr (strings (sorted_set impact.dashboards))) (
            field "critical_assets" (arr (strings (sorted_set impact.critical))) (
              field "cross_team_owners" (arr (strings (sorted_set impact.cross_team))) (
                field "unreadable_assets" (arr (strings (sorted_set impact.unreadable))) (
                  field "pii_tags" (arr (strings (sorted_set (pii_tags impact.pii_assets)))) (
                    field "pii_assets"
                      (obj
                        (pii_fields impact.pii_assets (sorted str_le (pii_urns impact.pii_assets))))
                      (field "depth" (int (pos depth))
                        (field "granularity" (str (granularity_of result.granularity)) end))))))))))

module _ (texts : Texts) where
  unfoldable pub add_pii : String → List String → Impact → Impact
  add_pii urn tags impact =
      let pii = sorted str_le (keep (is_pii_tag texts.casefold) tags) in
      if is_empty_list pii
      then impact
      else record impact { pii_assets = insert urn pii impact.pii_assets }

  is_dashboard : LineageResult → String → Bool
  is_dashboard result urn =
      str_eq (texts.lower (type_of urn result.entity_types)) "dashboard"
      || has_prefix "urn:li:dashboard:" urn

  unfoldable pub note_dashboard : LineageResult → String → Impact → Impact
  unfolding is_dashboard type_of
  note_dashboard result urn impact =
      if is_dashboard result urn
      then record impact { dashboards = impact.dashboards ++ urn ∷ [] }
      else impact

  unfoldable pub is_critical : List String → Bool
  is_critical tags = any (λ tag. is_infix "critical" (texts.lower tag)) tags

  -- The owners of a downstream asset who do not own the source, if the source has owners.
  foreign_owners : List String → List String → List String
  foreign_owners source_owners owners =
      if is_empty_list source_owners
      then []
      else keep (λ owner. not (member owner source_owners)) owners

  -- The rest of a round, once the asset was read or was not.
  unfoldable pub weigh : LineageResult → List String → String → Option DatasetInfo → Impact → Impact
  unfolding add_pii is_critical foreign_owners inline_tags
  weigh result source_owners urn none impact =
      add_pii urn (inline_tags urn result.tags)
        (record impact { unreadable = impact.unreadable ++ urn ∷ [] })
  weigh result source_owners urn (some info) impact = add_pii urn info.tags (record impact {
    critical = if is_critical info.tags then impact.critical ++ urn ∷ [] else impact.critical;
    cross_team = impact.cross_team ++ foreign_owners source_owners info.owners;
  })

  module _ {W : Type 0} (graph : GraphClient W) where
    -- The loop of `_details`, which no failure ends.
    unfoldable pub weigh_all : LineageResult → List String → List String → Impact → W → Impact × W
    unfolding weigh
    weigh_all result source_owners [] impact w = (impact, w)
    weigh_all result source_owners (urn ∷ urns) impact w =
        let (reply, w') = graph.get_dataset urn w in
        weigh_all result source_owners urns
          (note_dashboard result urn (weigh result source_owners urn (read_of reply) impact)) w'

    abbrev pub no_impact : Impact
    no_impact = record {
      dashboards = [];
      critical = [];
      cross_team = [];
      unreadable = [];
      pii_assets = [];
    }

    -- `_details`, once the owners of the source are known.
    unfoldable pub weigh_result : LineageResult → List LineagePath → ℕ → List String → Asks W Fields
    unfolding weigh_all
    weigh_result result paths depth source_owners w =
        let (impact, w') = weigh_all result source_owners result.urns no_impact w in
        (answered (impact_detail texts.three_digits result paths depth impact), w')

    -- `_details`
    unfoldable pub details : String → LineageResult → List LineagePath → ℕ → Asks W Fields
    unfolding weigh_result owners_of
    details source result paths depth = do
      info ← graph.get_dataset source
      weigh_result result paths depth (owners_of info)
