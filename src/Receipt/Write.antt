-- ===== src/Receipt/Write.antt =====
-- The write of a receipt (src/sidq/receipt/write.py, `_write_receipt_under_lock`), for a caller that
-- holds the lock of the URN.
pub mod Confirmed
pub mod Permitted
pub mod Scope
pub mod Safe
mod Tests
use Prim.Native.String as Text
use sidq.Prelude.{
  ℕ, String, str_eq, str_le, has_prefix, remove_prefix, Bool, true, false, not, ◌&&◌, ◌||◌, Option,
  none, some, List, [], ◌∷◌, ◌++◌, keep, map, if◌then◌else◌,
}
use sidq.Prelude.Dict.{Dict, lookup}
use sidq.Prelude.Sets.{member}
use sidq.Prelude.Sort.{sorted}
use sidq.Value.{Value, null, bool, str, obj, Fields, field, end}
use sidq.Catalog.Checks.Columns.{is_empty_list}
use sidq.Receipt.State.{Show, get}
use sidq.Receipt.Build.{Receipt, structured_property_values}
use sidq.Receipt.Read.{single_entity, sidq_values, property_prefix}
use sidq.Receipt.Badges.{managed_badge_state}
use sidq.Receipt.Effects.{
  Call, get_entities, save_document, add_tags, remove_tags, add_structured_properties,
  remove_structured_properties, Result, ok, raised, Act, pure, raise, Service, ◌>>=◌, Gives, Keeps,
  if-Gives, pure-Gives, raise-Gives, if-Keeps, pure-Keeps, raise-Keeps,
}
use sidq.Receipt.Confirm.{badge_of, has_badge, confirm_receipt_readback}
use sidq.Receipt.Restore.{Attempt, Touched, restore_prior_receipt_state}

-- What `load_private_key` and `load_public_key` give: no key, a key that is not the pinned one, or
-- `Receipt.signed` with the key, as the signature of a receipt.
pub data Signing : Type 0 where
  unsigned mismatched : Signing
  signing_with : (Receipt → String) → Signing

-- `Receipt.evidence_markdown`, and `str.isspace` of some character.
pub record Host : Type 0 where
  pub signing : Signing
  pub markdown : Receipt → String
  pub has_space : String → Bool

abbrev pub document_prefix : String
document_prefix = "urn:li:document:"

-- `_document_reference`
unfoldable pub document_reference : (String → Bool) → Value → String
document_reference has_space (obj fs) = elim (get "urn" fs) [
  | str urn ↦
      if has_prefix document_prefix urn
        && (not (str_eq (remove_prefix document_prefix urn) "") && not (has_space urn))
      then urn
      else ""
  | _ ↦ ""
]
document_reference has_space v = ""

pub record Prepared : Type 0 where
  pub persisted : Receipt
  pub saved : Value
  pub before : Attempt

pub record Published : Type 0 where
  pub tag : Value
  pub structured : Value
  pub attempts : Option ℕ

-- The end of a write: the dictionary that it returns, an error with the errors of the rollback, or
-- a readback that is still running.
pub data Outcome : Type 0 where
  written : Prepared → Published → Outcome
  failed : String → List String → Outcome
  running : Outcome

-- The guards on the keys.
unfoldable pub key_error : Signing → Receipt → Bool
key_error unsigned r = not (str_eq r.signature "")
key_error mismatched r = true
key_error (signing_with sign) r = false

unfoldable pub sign_with : Signing → Receipt → Receipt
sign_with (signing_with sign) r = record r { signature = sign r }
sign_with _ r = r

unfoldable pub returned : Prepared → Published → Option ℕ → Outcome
returned p published none = running
returned p published (some attempts) = written p published

abbrev or_text : String → String → String
or_text a b = if str_eq a "" then b else a

unfoldable pub has_name : String → Dict (List String) → Bool
has_name name values = elim (lookup name values) [ none ↦ false | some vs ↦ true ]

abbrev pub signature_urn : String
signature_urn = Text.◌++◌ property_prefix "signature"

-- `stale_swarm_properties`
unfoldable pub stale_swarm : Dict (List String) → List String
unfolding has_name
stale_swarm values =
    map (Text.◌++◌ property_prefix)
      (keep (λ name. has_name name values) ("swarm_run" ∷ "worker_id" ∷ []))

-- The lookup of the badge, which fails for a verdict that has none.
unfoldable pub badged : {W : Type 0} → Prepared → Act W Prepared
unfolding has_badge
badged p = if has_badge p.persisted.verdict then pure p else raise "KeyError"

pub badged-Gives :
    (W : Type 0) (Q : Prepared → Type 0) (p : Prepared) → Q p → Gives {W = W} Q (badged p)
unfolding badged
badged-Gives W Q p h = if-Gives Q _ _ _ (pure-Gives W Q p h) (raise-Gives W Q _)

pub badged-Keeps : {W : Type 0} (P : W → Type 0) (p : Prepared) → Keeps P (badged p)
unfolding badged
badged-Keeps P p = if-Keeps P _ _ _ (pure-Keeps P p) (raise-Keeps _ P _)

module _ {W : Type 0} (service : Service W) (show : Show) (host : Host) where
  -- The attempt to write `persisted` over what the entity holds.
  unfoldable pub attempt_of : Receipt → Fields → Attempt
  attempt_of persisted entity = record {
    existing_values = sidq_values show entity;
    existing_badges = (managed_badge_state entity).0;
    attempted_values = structured_property_values persisted;
    desired_badge = badge_of persisted.verdict;
  }

  -- The final receipt, from the URN of its document.
  unfoldable pub finish : Receipt → String → Receipt
  unfolding sign_with
  finish prepared reference =
      sign_with host.signing
        (record prepared { evidence_url = or_text prepared.evidence_url reference })

  -- Saves the evidence.
  unfoldable pub save_evidence : Receipt → Fields → Act W Prepared
  unfolding attempt_of finish document_reference
  save_evidence prepared entity =
      service.call (
        save_document "Decision"
          (Text.◌++◌ "Sidq " (Text.◌++◌ prepared.verdict (Text.◌++◌ " receipt for " prepared.urn)))
          (host.markdown prepared) (prepared.urn ∷ []))
      >>= λ saved.
          let reference = document_reference host.has_space saved in
          let persisted = finish prepared reference in
          if str_eq reference ""
          then raise "RuntimeError"
          else badged (record {
            persisted = persisted;
            saved = saved;
            before = attempt_of persisted entity;
          })

  -- All that comes before the first change of the entity.
  unfoldable pub prepare : Receipt → Act W Prepared
  unfolding save_evidence key_error
  prepare receipt =
      if key_error host.signing receipt
      then raise "SigningKeyError"
      else service.call (get_entities (receipt.urn ∷ [])) >>= λ raw.
          let entity = single_entity raw receipt.urn in
          if (managed_badge_state entity).1
          then raise "ReceiptWriteUnconfirmed"
          else service.context_hash receipt.urn entity >>= λ context_hash.
              save_evidence (record receipt { context_hash = context_hash; signature = "" }) entity

  -- A call of a tool, and a note of what it may change.
  unfoldable pub change_properties : List String → Call → Act (Touched × W) Value
  change_properties urns c (touched, w) =
      let called = service.call c w in
      (called.0, (record touched { properties = touched.properties ++ urns }, called.1))

  unfoldable pub change_badges : Call → Act (Touched × W) Value
  change_badges c (touched, w) =
      let called = service.call c w in (called.0, (record touched { badges = true }, called.1))

  -- `{"unchanged": True}` where the test fails.
  unfoldable pub only_if : {S : Type 0} → Bool → Act S Value → Act S Value
  only_if test m = if test then m else pure (obj (field "unchanged" (bool true) end))

  unfoldable pub read_attempts : Receipt → ℕ → ℕ → ℕ → ℕ → Act (Touched × W) (Option ℕ)
  read_attempts persisted fuel timeout initial_delay max_delay (touched, w) =
      let read =
        confirm_receipt_readback service show persisted fuel timeout initial_delay max_delay w in
      (read.0, (touched, read.1))

  -- The `try` block.
  unfoldable pub publish : Prepared → ℕ → ℕ → ℕ → ℕ → Act (Touched × W) Published
  unfolding change_properties change_badges only_if read_attempts stale_swarm has_name
  publish p fuel timeout initial_delay max_delay =
      let r = p.persisted in
      let urns = r.urn ∷ [] in
      let obsolete =
        sorted str_le
          (keep (λ b. not (str_eq b p.before.desired_badge)) p.before.existing_badges) in
      let stale = stale_swarm p.before.existing_values in
      only_if (str_eq r.signature "" && has_name "signature" p.before.existing_values) (
        change_properties (signature_urn ∷ [])
          (remove_structured_properties (signature_urn ∷ []) urns))
      >>= λ unsigned.
          only_if (not (is_empty_list obsolete)) (change_badges (remove_tags obsolete urns))
          >>= λ removed.
              only_if (not (member p.before.desired_badge p.before.existing_badges))
                (change_badges (add_tags (p.before.desired_badge ∷ []) urns))
              >>= λ tag.
                  only_if (str_eq r.swarm_run "" && not (is_empty_list stale))
                    (change_properties stale (remove_structured_properties stale urns))
                  >>= λ solo.
                      change_properties
                        (map (λ (kv : String × List String). kv.0) p.before.attempted_values)
                        (add_structured_properties p.before.attempted_values urns)
                      >>= λ structured.
                          read_attempts r fuel timeout initial_delay max_delay >>= λ attempts.
                          pure (record { tag = tag; structured = structured; attempts = attempts })

  -- The end of the `try` statement.
  unfoldable pub settle : Prepared → Result Published × (Touched × W) → Outcome × W
  unfolding returned
  settle p (ok published, (touched, w)) = (returned p published published.attempts, w)
  settle p (raised error, (touched, w)) =
      let restored = restore_prior_receipt_state service show p.persisted.urn p.before touched w in
      (failed error restored.0, restored.1)

  unfoldable pub publish_prepared : ℕ → ℕ → ℕ → ℕ → Result Prepared × W → Outcome × W
  unfolding publish settle
  publish_prepared fuel timeout initial_delay max_delay (ok p, w) = settle p (
      publish p fuel timeout initial_delay max_delay
        (record { badges = false; properties = [] }, w))
  publish_prepared fuel timeout initial_delay max_delay (raised error, w) = (failed error [], w)

  unfoldable pub write_receipt : Receipt → ℕ → ℕ → ℕ → ℕ → W → Outcome × W
  unfolding prepare publish_prepared
  write_receipt receipt fuel timeout initial_delay max_delay w =
      publish_prepared fuel timeout initial_delay max_delay (prepare receipt w)
