-- ===== src/Receipt/Write/Permitted.antt =====
-- What a write of a receipt may change: the asset of the receipt, its managed badges, and the
-- properties of sidq.
use Prim.Native.String as Text
use sidq.Prelude.{
  ℕ, String, str_eq, has_prefix, true, List, [], ◌∷◌, All, All-append, map-All, keep-All,
  keep_sound, if◌then◌else◌, ◌≡◌, refl, Bool-cases, inl, inr,
}
use sidq.Prelude.Dict.{Dict}
use sidq.Prelude.Sets.{member, distinct-All}
use sidq.Value.{Fields}
use sidq.Receipt.Build.{Receipt, receipt_body, structured_property_values}
use sidq.Receipt.Read.{property_prefix}
use sidq.Receipt.Badges.{managed_badges, managed_badge_state}
use sidq.Receipt.Effects.{
  Call, get_entities, save_document, add_tags, remove_tags, add_structured_properties,
  remove_structured_properties, Service, Keeps,
}
use sidq.Receipt.Confirm.{badge_of}
use sidq.Receipt.Write.{signature_urn, has_name, stale_swarm}

abbrev pub IsManaged : String → Type 0
IsManaged badge = member badge managed_badges ≡ true

abbrev pub IsOurs : String → Type 0
IsOurs urn = has_prefix property_prefix urn ≡ true

abbrev pub HasOurs : String × List String → Type 0
HasOurs kv = IsOurs kv.0

-- A call that reads the asset, files a document about it, or changes its managed badges or sidq's
-- properties of it.
unfoldable pub Permitted : String → Call → Type 0
Permitted urn (get_entities urns) = urns ≡ urn ∷ []
Permitted urn (save_document kind title content assets) = assets ≡ urn ∷ []
Permitted urn (add_tags tags urns) = All IsManaged tags × (urns ≡ urn ∷ [])
Permitted urn (remove_tags tags urns) = All IsManaged tags × (urns ≡ urn ∷ [])
Permitted urn (add_structured_properties values urns) = All HasOurs values × (urns ≡ urn ∷ [])
Permitted urn (remove_structured_properties urns entities) = All IsOurs urns × (entities ≡ urn ∷ [])

-- The world keeps `P` through the permitted calls, reads of the asset, its lineage, and waiting.
pub record Preserves {W : Type 0} (service : Service W) (P : W → Type 0) (urn : String)
    : Type 0 where
  pub calls : (c : Call) → Permitted urn c → Keeps P (service.call c)
  pub reads : (d : ℕ) → Keeps P (service.call_within (get_entities (urn ∷ [])) d)
  pub contexts : (entity : Fields) → Keeps P (service.context_hash urn entity)
  pub clocks : (w : W) → P w → P (service.monotonic w).1
  pub sleeps : (d : ℕ) (w : W) → P w → P (service.sleep d w)

pub badge_of-IsManaged : (verdict : String) → IsManaged (badge_of verdict)
unfolding badge_of member
badge_of-IsManaged verdict = elim (Bool-cases (str_eq verdict "BLOCK")) [
  | inl e ↦ rw (e, badge_of) refl
  | inr e ↦ rw (e, badge_of) refl
]

pub state-IsManaged : (entity : Fields) → All IsManaged (managed_badge_state entity).0
unfolding managed_badge_state
state-IsManaged entity = distinct-All IsManaged _ (keep_sound (λ urn. member urn managed_badges) _)

when_text-HasOurs :
    (s : String) (values : Dict (List String))
    → All HasOurs values
    → All HasOurs (if str_eq s "" then [] else values)
when_text-HasOurs s values h = elim (Bool-cases (str_eq s "")) [ inl e ↦ rw e tt | inr e ↦ rw e h ]

pub values-HasOurs : (r : Receipt) → All HasOurs (structured_property_values r)
unfolding structured_property_values receipt_body has_prefix
values-HasOurs r =
    All-append HasOurs (receipt_body r) _
      (
        refl,
        (
          refl,
          (
            refl,
            (
              refl,
              (
                refl,
                (refl, (refl, (refl, (refl, when_text-HasOurs r.swarm_run _ (refl, (refl, tt)))))),
              ),
            ),
          ),
        ),
      )
      (when_text-HasOurs r.signature _ (refl, tt))

pub signature-IsOurs : IsOurs signature_urn
unfolding has_prefix
signature-IsOurs = refl

pub stale_swarm-IsOurs : (values : Dict (List String)) → All IsOurs (stale_swarm values)
unfolding stale_swarm has_prefix
stale_swarm-IsOurs values = map-All IsOurs (Text.◌++◌ property_prefix) _ (
    keep-All (λ name. IsOurs (Text.◌++◌ property_prefix name)) (λ name. has_name name values)
      ("swarm_run" ∷ "worker_id" ∷ []) (refl, (refl, tt)))
