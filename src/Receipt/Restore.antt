-- ===== src/Receipt/Restore.antt =====
-- The rollback of a receipt that was not confirmed (src/sidq/receipt/write.py,
-- `_restore_prior_receipt_state`).
use Prim.Native.String as Text
use sidq.Prelude.{
  ◌+◌, ◌-◌, String, str_eq, str_le, remove_prefix, Bool, not, ◌&&◌, ◌||◌, none, some, List, [], ◌∷◌,
  ◌++◌, all, map, if◌then◌else◌,
}
use sidq.Prelude.Dict.{Dict, lookup}
use sidq.Prelude.Sets.{member, distinct}
use sidq.Prelude.Sort.{sorted}
use sidq.Value.{Value, Fields}
use sidq.Catalog.Checks.Columns.{is_empty_list}
use sidq.Receipt.State.{Show}
use sidq.Receipt.Read.{single_entity, sidq_values, property_prefix}
use sidq.Receipt.Badges.{managed_badge_state, managed_badges}
use sidq.Receipt.Effects.{
  Call, get_entities, add_tags, remove_tags, add_structured_properties,
  remove_structured_properties, Result, ok, raised, Service,
}
use sidq.Receipt.Confirm.{texts_eq, expected_values, late_read}

-- What the writer knows of the entity before it wrote, and what it has touched since.
pub record Attempt : Type 0 where
  pub existing_values : Dict (List String)
  pub existing_badges : List String
  pub attempted_values : Dict (List String)
  pub desired_badge : String

pub record Touched : Type 0 where
  pub badges : Bool
  pub properties : List String

-- `tuple(sorted(values.get(name, ())))`
unfoldable pub values_at : String → Dict (List String) → List String
values_at name values = elim (lookup name values) [ none ↦ [] | some vs ↦ sorted str_le vs ]

abbrev names_of : Dict (List String) → List String
names_of values = map (λ (kv : String × List String). kv.0) values

-- `_managed_state_belongs_to_attempt`
unfoldable pub belongs_to_attempt : Show → Attempt → Fields → Bool
unfolding values_at
belongs_to_attempt show a entity =
    let values = sidq_values show entity in
    let attempted = expected_values a.attempted_values in
    let badges = managed_badge_state entity in
    all
      (λ name.
        texts_eq (values_at name values) (values_at name a.existing_values)
        || texts_eq (values_at name values) (values_at name attempted))
      (names_of values ++ names_of a.existing_values ++ names_of attempted)
    && (not badges.1
        && all (λ badge. member badge a.existing_badges || str_eq badge a.desired_badge) badges.0)

-- `{property_urn: values}` of the touched properties that were there before.
unfoldable pub prior_values : Dict (List String) → List String → Dict (List String)
prior_values existing [] = []
prior_values existing (urn ∷ urns) =
    let rest = prior_values existing urns in
    elim (lookup (remove_prefix property_prefix urn) existing) [
      | none ↦ rest
      | some values ↦ (urn, values) ∷ rest
    ]

module _ {W : Type 0} (service : Service W) where
  note : String → Result Value → List String
  note name (ok value) = []
  note name (raised error) = Text.◌++◌ name (Text.◌++◌ ": " error) ∷ []

  -- `attempt`: an error is noted, never raised.
  unfoldable pub attempt : String → Call → W → List String × W
  unfolding note
  attempt name c w = let called = service.call c w in (note name called.0, called.1)

  -- The first, then the second where the test holds.
  unfoldable pub also_if : Bool → (W → List String × W) → List String × W → List String × W
  also_if test next (errors, w) =
      let more = next w in if test then (errors ++ more.0, more.1) else (errors, w)

  unfoldable pub restore_badges : String → List String → W → List String × W
  unfolding attempt also_if
  restore_badges urn existing w =
      also_if (not (is_empty_list existing))
        (attempt "add_tags" (add_tags (sorted str_le existing) (urn ∷ [])))
        (attempt "remove_tags" (remove_tags (sorted str_le managed_badges) (urn ∷ [])) w)

  unfoldable pub restore_properties :
      String → Dict (List String) → List String → W → List String × W
  unfolding attempt also_if prior_values
  restore_properties urn existing touched w =
      let sorted_urns = sorted str_le (distinct touched) in
      let prior = prior_values existing sorted_urns in
      also_if (not (is_empty_list prior))
        (attempt "add_structured_properties" (add_structured_properties prior (urn ∷ [])))
        (attempt "remove_structured_properties"
          (remove_structured_properties sorted_urns (urn ∷ [])) w)

  -- The writes of the rollback.
  unfoldable pub restore_touched : String → Attempt → Touched → W → List String × W
  unfolding restore_badges restore_properties also_if
  restore_touched urn a touched w =
      also_if (not (is_empty_list touched.properties))
        (restore_properties urn a.existing_values touched.properties)
        (also_if touched.badges (restore_badges urn a.existing_badges) ([], w))

  -- What the read before the rollback says; 2000 milliseconds are its bound.
  unfoldable pub restore_read :
      Show → String → Attempt → Touched → Result Value → W → List String × W
  unfolding belongs_to_attempt restore_touched
  restore_read show urn a touched (raised error) w = (Text.◌++◌ "get_entities: " error ∷ [], w)
  restore_read show urn a touched (ok raw) w =
      let restored = restore_touched urn a touched w in
      if belongs_to_attempt show a (single_entity raw urn)
      then restored
      else ("state_conflict: concurrent managed receipt detected" ∷ [], w)

  unfoldable pub restore_prior_receipt_state :
      Show → String → Attempt → Touched → W → List String × W
  unfolding restore_read
  restore_prior_receipt_state show urn a touched w =
      let clock = service.monotonic w in
      let again = service.monotonic clock.1 in
      let answer =
        service.call_within (get_entities (urn ∷ [])) (clock.0 + 2000 - again.0) again.1 in
      let restored = restore_read show urn a touched (late_read answer.0) answer.1 in
      if not touched.badges && is_empty_list touched.properties then ([], w) else restored
