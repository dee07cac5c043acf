-- ===== src/Receipt/Confirm.antt =====
-- The readback of a receipt (src/sidq/receipt/write.py, `_confirm_receipt_readback`). Times are
-- whole milliseconds; the text of an error, but for its type, is left out.
pub mod Exact
pub mod Ends
use sidq.Prelude.{
  ℕ, zero, suc, ◌+◌, ◌-◌, ◌*◌, min, leb, ltb, String, str_eq, str_le, remove_prefix, Bool, true,
  false, not, ◌&&◌, ◌||◌, Option, none, some, List, [], ◌∷◌, all, map, if◌then◌else◌,
}
use sidq.Prelude.Dict.{Dict, lookup}
use sidq.Prelude.Sets.{member}
use sidq.Prelude.Sort.{sorted}
use sidq.Value.{Value, Fields}
use sidq.Receipt.State.{Show}
use sidq.Receipt.Build.{Receipt, structured_property_values}
use sidq.Receipt.Read.{single_entity, sidq_values, property_prefix}
use sidq.Receipt.Badges.{managed_badge_state}
use sidq.Receipt.Effects.{Call, get_entities, Result, ok, raised, Act, pure, raise, Service, ◌>>=◌}

-- Whether `_BADGE_BY_VERDICT` has the verdict; for any other, the lookup raises `KeyError`.
unfoldable pub has_badge : String → Bool
has_badge verdict = member verdict ("PASS" ∷ "WARN" ∷ "BLOCK" ∷ [])

-- `_BADGE_BY_VERDICT[verdict]`, for a verdict that it has.
unfoldable pub badge_of : String → String
badge_of verdict =
    if str_eq verdict "BLOCK" then "urn:li:tag:sidq:blocked" else "urn:li:tag:sidq:verified"

unfoldable pub texts_eq : List String → List String → Bool
texts_eq [] [] = true
texts_eq (x ∷ xs) (y ∷ ys) = str_eq x y && texts_eq xs ys
texts_eq xs ys = false

-- The value of a name, each in order.
unfoldable pub sorted_at : String → Dict (List String) → Option (List String)
sorted_at name values = elim (lookup name values) [
  | none ↦ none
  | some vs ↦ some (sorted str_le vs)
]

unfoldable pub same_at : Option (List String) → Option (List String) → Bool
unfolding texts_eq
same_at (some a) (some b) = texts_eq a b
same_at _ _ = false

-- Whether every name of the first has the same values in the second.
unfoldable pub agrees : Dict (List String) → Dict (List String) → Dict (List String) → Bool
unfolding sorted_at same_at
agrees keys a b =
    all (λ (kv : String × List String). same_at (sorted_at kv.0 a) (sorted_at kv.0 b)) keys

-- `actual == expected`
unfoldable pub same_values : Dict (List String) → Dict (List String) → Bool
unfolding agrees
same_values a b = agrees a a b && agrees b a b

abbrev unprefixed : String × List String → String × List String
unprefixed (urn, values) = (remove_prefix property_prefix urn, values)

-- `{urn.removeprefix(...): values}`
unfoldable pub expected_values : Dict (List String) → Dict (List String)
expected_values values = map unprefixed values

-- The exact receipt is visible in the entity, under its badge and no other.
unfoldable pub shows_receipt : Show → Receipt → Fields → Bool
unfolding same_values expected_values badge_of
shows_receipt show receipt entity =
    let badges = managed_badge_state entity in
    same_values (sidq_values show entity) (expected_values (structured_property_values receipt))
    && (not badges.1 && texts_eq badges.0 (badge_of receipt.verdict ∷ []))

-- A time-out is a receipt that is not confirmed.
unfoldable pub late_read : Result Value → Result Value
late_read (ok value) = ok value
late_read (raised error) =
    raised (if str_eq error "TimeoutError" then "ReceiptWriteUnconfirmed" else error)

module _ {W : Type 0} (service : Service W) (show : Show) (receipt : Receipt) where
  -- `_confirmation_call`
  unfoldable pub confirmation_call : String → ℕ → Act W Value
  unfolding late_read
  confirmation_call urn deadline w =
      let clock = service.monotonic w in
      let answer = service.call_within (get_entities (urn ∷ [])) (deadline - clock.0) clock.1 in
      (late_read answer.0, answer.1)

  -- The loop, on fuel; none is a loop that is still running.
  unfoldable pub read_back : ℕ → ℕ → ℕ → ℕ → ℕ → Act W (Option ℕ)
  unfolding confirmation_call shows_receipt
  read_back zero deadline max_delay delay attempts = pure none
  read_back (suc fuel) deadline max_delay delay attempts =
      confirmation_call receipt.urn deadline >>= λ raw w.
      let clock = service.monotonic w in
      let rest =
        read_back fuel deadline max_delay (min (delay * 2) max_delay) (suc attempts)
          (service.sleep (min delay (deadline - clock.0)) clock.1) in
      if shows_receipt show receipt (single_entity raw receipt.urn)
      then (ok (some (suc attempts)), w)
      else if leb deadline clock.0
      then (raised "ReceiptWriteUnconfirmed", clock.1)
      else rest

  unfoldable pub confirm_receipt_readback : ℕ → ℕ → ℕ → ℕ → Act W (Option ℕ)
  unfolding read_back
  confirm_receipt_readback fuel timeout initial_delay max_delay w =
      let clock = service.monotonic w in
      let polled =
        read_back fuel (clock.0 + timeout) max_delay (min initial_delay max_delay) 0 clock.1 in
      if ltb 0 initial_delay && ltb 0 max_delay then polled else (raised "ValueError", w)
