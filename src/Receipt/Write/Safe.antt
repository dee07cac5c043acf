-- ===== src/Receipt/Write/Safe.antt =====
-- A write of a receipt, whatever becomes of it, makes none but the permitted calls.
use sidq.Prelude.{
  ℕ, String, str_le, Bool, false, List, [], ◌∷◌, All, All-append, map-All, keep-All, ◌≡◌, refl,
  subst, sym,
}
use sidq.Prelude.Sort.{sorted-All}
use sidq.Value.{Value, Fields}
use sidq.Receipt.State.{Show}
use sidq.Receipt.Build.{Receipt}
use sidq.Receipt.Effects.{
  Call, add_tags, remove_tags, add_structured_properties, remove_structured_properties, Result, ok,
  raised, Act, Service, Gives, Keeps, Holds, bind-Keeps, if-Keeps, pure-Keeps, raise-Keeps,
  bind-Gives, if-Gives, raise-Gives,
}
use sidq.Receipt.Restore.{Touched}
use sidq.Receipt.Write.{
  Host, Prepared, Published, Signing, signature_urn, stale_swarm, sign_with, finish, attempt_of,
  save_evidence, badged-Gives, badged-Keeps, prepare, change_properties, change_badges, only_if,
  read_attempts, publish, settle, publish_prepared, write_receipt,
}
use sidq.Receipt.Write.Permitted.{
  IsManaged, IsOurs, HasOurs, Permitted, Preserves, badge_of-IsManaged, state-IsManaged,
  values-HasOurs, signature-IsOurs, stale_swarm-IsOurs,
}
use sidq.Receipt.Write.Scope.{confirm-Keeps, rollback_Keeps}

module _ {W : Type 0} (service : Service W) (show : Show) (host : Host) where
  -- What a prepared write may write: to the same asset, managed badges and sidq's properties.
  Planned : String → Prepared → Type 0
  Planned urn p =
      (p.persisted.urn ≡ urn)
      × All IsManaged p.before.existing_badges
      × IsManaged p.before.desired_badge
      × All HasOurs p.before.attempted_values

  signed_urn : (signing : Signing) (r : Receipt) → (sign_with signing r).urn ≡ r.urn
  unfolding sign_with
  signed_urn Signing.unsigned r = refl
  signed_urn Signing.mismatched r = refl
  signed_urn (Signing.signing_with sign) r = refl

  save_evidence-Planned :
      (r : Receipt) (entity : Fields)
      → Gives (Planned r.urn) (save_evidence service show host r entity)
  unfolding save_evidence Planned finish attempt_of
  save_evidence-Planned r entity = bind-Gives (Planned r.urn) _ _ (λ saved.
      if-Gives (Planned r.urn) _ _ _ (raise-Gives _ (Planned r.urn) _) (
        badged-Gives _ (Planned r.urn) _ (
          signed_urn host.signing _,
          state-IsManaged entity,
          badge_of-IsManaged _,
          values-HasOurs _,
        )))

  prepare-Planned : (r : Receipt) → Gives (Planned r.urn) (prepare service show host r)
  unfolding prepare
  prepare-Planned r = if-Gives (Planned r.urn) _ _ _ (raise-Gives _ (Planned r.urn) _) (
      bind-Gives (Planned r.urn) _ _ (λ raw.
        if-Gives (Planned r.urn) _ _ _ (raise-Gives _ (Planned r.urn) _)
          (bind-Gives (Planned r.urn) _ _ (λ context_hash. save_evidence-Planned _ _))))

  module _ (P : W → Type 0) where
    prepare-Keeps :
        (r : Receipt) → Preserves service P r.urn → Keeps P (prepare service show host r)
    unfolding prepare save_evidence Permitted
    prepare-Keeps r k = if-Keeps P _ _ _ (raise-Keeps _ P _) (
        bind-Keeps P _ _ (k.calls _ refl) (λ raw. if-Keeps P _ _ _ (raise-Keeps _ P _) (
          bind-Keeps P _ _ (k.contexts _) (λ context_hash.
            bind-Keeps P _ _ (k.calls _ refl)
              (λ saved. if-Keeps P _ _ _ (raise-Keeps _ P _) (badged-Keeps P _))))))

    -- The same for a write that notes what it touches.
    Both : Touched × W → Type 0
    Both (touched, w) = P w × All IsOurs touched.properties

    change_properties-Keeps :
        (urn : String) (urns : List String) (c : Call)
        → Preserves service P urn
        → Permitted urn c
        → All IsOurs urns
        → Keeps Both (change_properties service show host urns c)
    unfolding change_properties Keeps Both
    change_properties-Keeps urn urns c k q h (touched, w) b =
        (k.calls c q w b.0, All-append IsOurs touched.properties urns b.1 h)

    change_badges-Keeps :
        (urn : String) (c : Call)
        → Preserves service P urn
        → Permitted urn c
        → Keeps Both (change_badges service show host c)
    unfolding change_badges Keeps Both
    change_badges-Keeps urn c k q (touched, w) b = (k.calls c q w b.0, b.1)

    read_attempts-Keeps :
        (r : Receipt) (fuel timeout initial_delay max_delay : ℕ)
        → Preserves service P r.urn
        → Keeps Both (read_attempts service show host r fuel timeout initial_delay max_delay)
    unfolding read_attempts Keeps Both
    read_attempts-Keeps r fuel timeout initial_delay max_delay k (touched, w) b =
        (confirm-Keeps service P show r fuel timeout initial_delay max_delay k w b.0, b.1)

    only_if-Keeps :
        (test : Bool) (m : Act (Touched × W) Value)
        → Keeps Both m
        → Keeps Both (only_if service show host test m)
    unfolding only_if
    only_if-Keeps test m h = if-Keeps Both _ _ _ h (pure-Keeps Both _)

    publish-Keeps :
        (p : Prepared) (fuel timeout initial_delay max_delay : ℕ)
        → Preserves service P p.persisted.urn
        → Planned p.persisted.urn p
        → Keeps Both (publish service show host p fuel timeout initial_delay max_delay)
    unfolding publish Permitted Planned
    publish-Keeps p fuel timeout initial_delay max_delay k plan =
        let urn = p.persisted.urn in
        let stale = stale_swarm p.before.existing_values in
        let swarm = stale_swarm-IsOurs p.before.existing_values in
        let names =
          map-All IsOurs (λ (kv : String × List String). kv.0) p.before.attempted_values plan.3 in
        bind-Keeps Both _ _
          (only_if-Keeps _ _ (
            change_properties-Keeps urn (signature_urn ∷ [])
              (remove_structured_properties (signature_urn ∷ []) (urn ∷ [])) k
              ((signature-IsOurs, tt), refl) (signature-IsOurs, tt)))
          (λ unsigned.
            bind-Keeps Both _ _
              (only_if-Keeps _ _ (
                change_badges-Keeps urn (remove_tags _ (urn ∷ [])) k (
                  sorted-All str_le IsManaged _
                      (keep-All IsManaged _ p.before.existing_badges plan.1),
                  refl,
                )))
              (λ removed.
                bind-Keeps Both _ _
                  (only_if-Keeps _ _ (
                    change_badges-Keeps urn (add_tags (p.before.desired_badge ∷ []) (urn ∷ [])) k
                      ((plan.2, tt), refl)))
                  (λ tag.
                    bind-Keeps Both _ _
                      (only_if-Keeps _ _ (
                        change_properties-Keeps urn stale
                          (remove_structured_properties stale (urn ∷ [])) k (swarm, refl) swarm))
                      (λ solo.
                        bind-Keeps Both _ _
                          (change_properties-Keeps urn _
                            (add_structured_properties p.before.attempted_values (urn ∷ [])) k
                            (plan.3, refl) names)
                          (λ structured.
                            bind-Keeps Both _ _
                              (read_attempts-Keeps p.persisted fuel timeout initial_delay max_delay
                                k)
                              (λ attempts. pure-Keeps Both _))))))

    settle-Keeps :
        (p : Prepared) (r : Result Published × (Touched × W))
        → Preserves service P p.persisted.urn
        → Planned p.persisted.urn p
        → Both r.1
        → P (settle service show host p r).1
    unfolding settle Both Planned
    settle-Keeps p (ok published, (touched, w)) k plan b = b.0
    settle-Keeps p (raised error, (touched, w)) k plan b =
        rollback_Keeps service P show p.persisted.urn p.before touched w k plan.1 b.1 b.0

    publish_prepared-Keeps :
        (urn : String) (fuel timeout initial_delay max_delay : ℕ) (r : Result Prepared × W)
        → Preserves service P urn
        → Holds (Planned urn) r.0
        → P r.1
        → P (publish_prepared service show host fuel timeout initial_delay max_delay r).1
    unfolding publish_prepared Keeps Both Planned
    publish_prepared-Keeps urn fuel timeout initial_delay max_delay (ok p, w) k plan h =
        let same = subst (Preserves service P) (sym plan.0) k in
        let own : Planned p.persisted.urn p = (refl, plan.1, plan.2, plan.3) in
        settle-Keeps p _ same own (
          publish-Keeps p fuel timeout initial_delay max_delay same own
            (record { badges = false; properties = [] }, w) (h, tt))
    publish_prepared-Keeps urn fuel timeout initial_delay max_delay (raised error, w) k plan h = h

-- Whatever holds of the world, and is kept by reads of the asset of the receipt and its lineage, by
-- waiting, by documents filed about that asset, and by changes of its managed badges and of sidq's
-- properties of it, still holds after a write of the receipt, whether it is written, fails at any
-- call, or is rolled back: the write changes nothing else.
pub write_receipt-Keeps :
    {W : Type 0} (service : Service W) (show : Show) (host : Host) (P : W → Type 0)
    (receipt : Receipt) (fuel timeout initial_delay max_delay : ℕ) (w : W)
    → Preserves service P receipt.urn
    → P w
    → P (write_receipt service show host receipt fuel timeout initial_delay max_delay w).1
unfolding write_receipt Gives Keeps
write_receipt-Keeps service show host P receipt fuel timeout initial_delay max_delay w k h =
    publish_prepared-Keeps service show host P receipt.urn fuel timeout initial_delay max_delay
      (prepare service show host receipt w) k (prepare-Planned service show host receipt w)
      (prepare-Keeps service show host P receipt k w h)
