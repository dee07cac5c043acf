-- ===== src/Receipt/Write/Scope.antt =====
-- A write of a receipt, its readback and its rollback make none but the permitted calls.
use sidq.Prelude.{
  ℕ, zero, suc, ◌+◌, ◌-◌, ◌*◌, min, leb, ltb, String, str_le, remove_prefix, Bool, true, false, not,
  ◌&&◌, none, List, [], ◌∷◌, All, if◌then◌else◌, refl, Option-cases, inl, inr,
}
use sidq.Prelude.Dict.{Dict, lookup}
use sidq.Prelude.Sets.{member, distinct, distinct-All}
use sidq.Prelude.Sort.{sorted, sorted-All}
use sidq.Value.{Value}
use sidq.Catalog.Checks.Columns.{is_empty_list}
use sidq.Receipt.State.{Show}
use sidq.Receipt.Build.{Receipt}
use sidq.Receipt.Read.{property_prefix, single_entity}
use sidq.Receipt.Badges.{managed_badges}
use sidq.Receipt.Effects.{
  Call, add_tags, remove_tags, add_structured_properties, remove_structured_properties, Result, ok,
  raised, Service, Keeps, bind-Keeps, pure-Keeps,
}
use sidq.Receipt.Confirm.{confirmation_call, read_back, confirm_receipt_readback, shows_receipt}
use sidq.Receipt.Restore.{
  Attempt, Touched, attempt, also_if, prior_values, restore_badges, restore_properties,
  restore_touched, restore_read, restore_prior_receipt_state,
}
use sidq.Receipt.Write.Permitted.{IsManaged, IsOurs, HasOurs, Permitted, Preserves}

-- What holds of the world after both branches.
if_world {ℓ} :
    {W : Type 0} {A : Type ℓ} (P : W → Type 0) (b : Bool) (x y : A × W)
    → P x.1
    → P y.1
    → P (if b then x else y).1
if_world P true x y h k = h
if_world P false x y h k = k

-- The values that a rollback writes back are sidq's.
prior-HasOurs :
    (existing : Dict (List String)) (urns : List String)
    → All IsOurs urns
    → All HasOurs (prior_values existing urns)
unfolding prior_values
prior-HasOurs existing [] h = tt
prior-HasOurs existing (urn ∷ urns) h =
    elim (Option-cases (lookup (remove_prefix property_prefix urn) existing)) [
      | inl e ↦ rw (e, prior_values) (prior-HasOurs existing urns h.1)
      | inr (values, e) ↦ rw (e, prior_values) (h.0, prior-HasOurs existing urns h.1)
    ]

managed_badges-IsManaged : All IsManaged managed_badges
unfolding member
managed_badges-IsManaged = (refl, (refl, tt))

module _ {W : Type 0} (service : Service W) (P : W → Type 0) where
  read_Keeps :
      (show : Show) (r : Receipt) (deadline : ℕ)
      → Preserves service P r.urn
      → Keeps P (confirmation_call service show r r.urn deadline)
  unfolding confirmation_call Keeps
  read_Keeps show r deadline k w h =
      let clock = service.monotonic w in k.reads (deadline - clock.0) clock.1 (k.clocks w h)

  read_back-Keeps :
      (show : Show) (r : Receipt) (fuel deadline max_delay delay attempts : ℕ)
      → Preserves service P r.urn
      → Keeps P (read_back service show r fuel deadline max_delay delay attempts)
  unfolding read_back Keeps
  read_back-Keeps show r zero deadline max_delay delay attempts k = pure-Keeps P none
  read_back-Keeps show r (suc fuel) deadline max_delay delay attempts k =
      bind-Keeps P _ _ (read_Keeps show r deadline k) (λ raw w h.
        let clock = service.monotonic w in
        if_world P (shows_receipt show r (single_entity raw r.urn)) _ _ h (
          if_world P (leb deadline clock.0) _ _ (k.clocks w h) (
            read_back-Keeps show r fuel deadline max_delay (min (delay * 2) max_delay)
              (suc attempts) k (service.sleep (min delay (deadline - clock.0)) clock.1)
              (k.sleeps (min delay (deadline - clock.0)) clock.1 (k.clocks w h)))))

  pub confirm-Keeps :
      (show : Show) (r : Receipt) (fuel timeout initial_delay max_delay : ℕ)
      → Preserves service P r.urn
      → Keeps P (confirm_receipt_readback service show r fuel timeout initial_delay max_delay)
  unfolding confirm_receipt_readback Keeps
  confirm-Keeps show r fuel timeout initial_delay max_delay k w h =
      if_world P (ltb 0 initial_delay && ltb 0 max_delay) _ _
        (read_back-Keeps show r fuel _ max_delay _ 0 k (service.monotonic w).1 (k.clocks w h)) h

  attempt_Keeps :
      (urn name : String) (c : Call) (w : W)
      → Preserves service P urn
      → Permitted urn c
      → P w
      → P (attempt service name c w).1
  unfolding attempt Keeps
  attempt_Keeps urn name c w k q h = k.calls c q w h

  also_if_world :
      (test : Bool) (next : W → List String × W) (before : List String × W)
      → ((w : W) → P w → P (next w).1)
      → P before.1
      → P (also_if service test next before).1
  unfolding also_if
  also_if_world test next (errors, w) f h = if_world P test _ _ (f w h) h

  badges_Keeps :
      (urn : String) (existing : List String) (w : W)
      → Preserves service P urn
      → All IsManaged existing
      → P w
      → P (restore_badges service urn existing w).1
  unfolding restore_badges Permitted
  badges_Keeps urn existing w k hb h =
      let add = add_tags (sorted str_le existing) (urn ∷ []) in
      let remove = remove_tags (sorted str_le managed_badges) (urn ∷ []) in
      also_if_world (not (is_empty_list existing)) (attempt service "add_tags" add)
        (attempt service "remove_tags" remove w)
        (λ v p.
          attempt_Keeps urn "add_tags" add v k (sorted-All str_le IsManaged existing hb, refl) p)
        (attempt_Keeps urn "remove_tags" remove w k
          (sorted-All str_le IsManaged managed_badges managed_badges-IsManaged, refl) h)

  properties_Keeps :
      (urn : String) (existing : Dict (List String)) (touched : List String) (w : W)
      → Preserves service P urn
      → All IsOurs touched
      → P w
      → P (restore_properties service urn existing touched w).1
  unfolding restore_properties Permitted
  properties_Keeps urn existing touched w k hp h =
      let urns = sorted str_le (distinct touched) in
      let add = add_structured_properties (prior_values existing urns) (urn ∷ []) in
      let remove = remove_structured_properties urns (urn ∷ []) in
      let ours : All IsOurs urns =
        sorted-All str_le IsOurs (distinct touched) (distinct-All IsOurs touched hp) in
      also_if_world (not (is_empty_list (prior_values existing urns)))
        (attempt service "add_structured_properties" add)
        (attempt service "remove_structured_properties" remove w)
        (λ v p.
          attempt_Keeps urn "add_structured_properties" add v k
            (prior-HasOurs existing urns ours, refl) p)
        (attempt_Keeps urn "remove_structured_properties" remove w k (ours, refl) h)

  restore_Keeps :
      (urn : String) (a : Attempt) (touched : Touched) (w : W)
      → Preserves service P urn
      → All IsManaged a.existing_badges
      → All IsOurs touched.properties
      → P w
      → P (restore_touched service urn a touched w).1
  unfolding restore_touched
  restore_Keeps urn a touched w k hb hp h =
      also_if_world (not (is_empty_list touched.properties))
        (restore_properties service urn a.existing_values touched.properties)
        (also_if service touched.badges (restore_badges service urn a.existing_badges) ([], w))
        (λ v p. properties_Keeps urn a.existing_values touched.properties v k hp p)
        (also_if_world touched.badges (restore_badges service urn a.existing_badges) ([], w)
          (λ v p. badges_Keeps urn a.existing_badges v k hb p) h)

  restore_read-Keeps :
      (show : Show) (urn : String) (a : Attempt) (touched : Touched) (answer : Result Value) (w : W)
      → Preserves service P urn
      → All IsManaged a.existing_badges
      → All IsOurs touched.properties
      → P w
      → P (restore_read service show urn a touched answer w).1
  unfolding restore_read
  restore_read-Keeps show urn a touched (raised error) w k hb hp h = h
  restore_read-Keeps show urn a touched (ok raw) w k hb hp h =
      if_world P _ _ _ (restore_Keeps urn a touched w k hb hp h) h

  pub rollback_Keeps :
      (show : Show) (urn : String) (a : Attempt) (touched : Touched) (w : W)
      → Preserves service P urn
      → All IsManaged a.existing_badges
      → All IsOurs touched.properties
      → P w
      → P (restore_prior_receipt_state service show urn a touched w).1
  unfolding restore_prior_receipt_state Keeps
  rollback_Keeps show urn a touched w k hb hp h =
      let clock = service.monotonic w in
      let again = service.monotonic clock.1 in
      if_world P _ _ _ h (
        restore_read-Keeps show urn a touched _ _ k hb hp
          (k.reads (clock.0 + 2000 - again.0) again.1 (k.clocks clock.1 (k.clocks w h))))
