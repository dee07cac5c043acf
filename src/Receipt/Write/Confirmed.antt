-- ===== src/Receipt/Write/Confirmed.antt =====
-- A write of a receipt ends, and succeeds only if the catalog shows the exact receipt.
use sidq.Prelude.{ℕ, suc, false, Option, none, some, [], ◌≡◌, refl}
use sidq.Value.{Fields}
use sidq.Receipt.State.{Show}
use sidq.Receipt.Build.{Receipt}
use sidq.Receipt.Effects.{
  Result, ok, raised, Service, Holds, Gives, bind-Gives, bind_known, if-Gives, raise-Gives,
  pure-Gives,
}
use sidq.Receipt.Confirm.Ends.{Runs, Shown, EndsWell, confirm_receipt_readback-EndsWell}
use sidq.Receipt.Restore.{Touched}
use sidq.Receipt.Write.{
  Host, Signing, Prepared, Published, Outcome, sign_with, finish, save_evidence, prepare, publish,
  badged-Gives, read_attempts, returned, settle, publish_prepared, write_receipt,
}

module _ {W : Type 0} (service : Service W) (show : Show) (host : Host) where
  -- The receipt is for the same asset, with the same verdict.
  IsFor : Receipt → Prepared → Type 0
  IsFor receipt p = (p.persisted.urn ≡ receipt.urn) × (p.persisted.verdict ≡ receipt.verdict)

  -- The write ended; if it says that the receipt is written, some read of the catalog showed it.
  unfoldable pub WellEnded : Receipt → Outcome → Type 0
  unfolding IsFor
  WellEnded receipt (Outcome.written p published) = IsFor receipt p × Shown service show p.persisted
  WellEnded receipt (Outcome.failed error errors) = Unit
  WellEnded receipt Outcome.running = ⊥

  signed-IsFor :
      (signing : Signing) (r : Receipt)
      → ((sign_with signing r).urn ≡ r.urn) × ((sign_with signing r).verdict ≡ r.verdict)
  unfolding sign_with
  signed-IsFor Signing.unsigned r = (refl, refl)
  signed-IsFor Signing.mismatched r = (refl, refl)
  signed-IsFor (Signing.signing_with sign) r = (refl, refl)

  save_evidence-IsFor :
      (r : Receipt) (entity : Fields) → Gives (IsFor r) (save_evidence service show host r entity)
  unfolding save_evidence IsFor finish
  save_evidence-IsFor r entity = bind-Gives (IsFor r) _ _ (λ saved.
      if-Gives (IsFor r) _ _ _ (raise-Gives _ (IsFor r) _)
        (badged-Gives _ (IsFor r) _ (signed-IsFor host.signing _)))

  prepare-IsFor : (r : Receipt) → Gives (IsFor r) (prepare service show host r)
  unfolding prepare IsFor
  prepare-IsFor r = if-Gives (IsFor r) _ _ _ (raise-Gives _ (IsFor r) _) (
      bind-Gives (IsFor r) _ _ (λ raw.
        if-Gives (IsFor r) _ _ _ (raise-Gives _ (IsFor r) _)
          (bind-Gives (IsFor r) _ _ (λ context_hash. save_evidence-IsFor _ _))))

  -- Some read of the catalog stands for the number of attempts.
  unfoldable Attempted : Receipt → Option ℕ → Type 0
  unfolding EndsWell
  Attempted r attempts = EndsWell service show r (ok attempts)

  read-Attempted :
      (r : Receipt) (result : Result (Option ℕ))
      → EndsWell service show r result
      → Holds (Attempted r) result
  unfolding EndsWell Attempted
  read-Attempted r (ok attempts) h = h
  read-Attempted r (raised error) h = tt

  module _ (time : W → ℕ) (clock : Runs service time) where
    read_attempts-Attempted :
        (r : Receipt) (timeout initial_delay max_delay : ℕ)
        → Gives
            (Attempted r)
            (read_attempts service show host r (suc timeout) timeout initial_delay max_delay)
    unfolding read_attempts Gives
    read_attempts-Attempted r timeout initial_delay max_delay (touched, w) = read-Attempted r _ (
        confirm_receipt_readback-EndsWell service show r time clock timeout initial_delay max_delay
          w)

    publish-Attempted :
        (p : Prepared) (timeout initial_delay max_delay : ℕ)
        → Gives
            (λ (published : Published). Attempted p.persisted published.attempts)
            (publish service show host p (suc timeout) timeout initial_delay max_delay)
    unfolding publish
    publish-Attempted p timeout initial_delay max_delay =
        let Q = λ (published : Published). Attempted p.persisted published.attempts in
        bind-Gives Q _ _ (λ unsigned. bind-Gives Q _ _ (λ removed. bind-Gives Q _ _ (λ tag.
          bind-Gives Q _ _ (λ solo. bind-Gives Q _ _ (λ structured.
            bind_known (Attempted p.persisted) Q _ _
              (read_attempts-Attempted p.persisted timeout initial_delay max_delay)
              (λ attempts h. pure-Gives _ Q _ h))))))

    returned-WellEnded :
        (receipt : Receipt) (p : Prepared) (published : Published) (attempts : Option ℕ)
        → IsFor receipt p
        → EndsWell service show p.persisted (ok attempts)
        → WellEnded receipt (returned p published attempts)
    unfolding returned WellEnded EndsWell
    returned-WellEnded receipt p published none f h = h
    returned-WellEnded receipt p published (some attempts) f h = (f, h)

    settle-WellEnded :
        (receipt : Receipt) (p : Prepared) (r : Result Published × (Touched × W))
        → IsFor receipt p
        → Holds (λ (published : Published). Attempted p.persisted published.attempts) r.0
        → WellEnded receipt (settle service show host p r).0
    unfolding settle WellEnded Attempted EndsWell
    settle-WellEnded receipt p (ok published, (touched, w)) f h =
        returned-WellEnded receipt p published published.attempts f h
    settle-WellEnded receipt p (raised error, (touched, w)) f h = tt

    publish_prepared-WellEnded :
        (receipt : Receipt) (timeout initial_delay max_delay : ℕ) (r : Result Prepared × W)
        → Holds (IsFor receipt) r.0
        → WellEnded receipt
            (publish_prepared service show host (suc timeout) timeout initial_delay max_delay r).0
    unfolding publish_prepared Gives WellEnded
    publish_prepared-WellEnded receipt timeout initial_delay max_delay (ok p, w) f =
        settle-WellEnded receipt p _ f (
          publish-Attempted p timeout initial_delay max_delay
            (record { badges = false; properties = [] }, w))
    publish_prepared-WellEnded receipt timeout initial_delay max_delay (raised error, w) f = tt

-- On a clock that never goes back and waits as told, with one round for each millisecond of the
-- timeout and one more, a write of a receipt ends. It says that the receipt is written only if some
-- read of the catalog showed, for the asset and the verdict that were asked for, exactly the
-- properties of the final receipt, and its badge and no other.
pub write_receipt-WellEnded :
    {W : Type 0} (service : Service W) (show : Show) (host : Host) (time : W → ℕ)
    (receipt : Receipt) (timeout initial_delay max_delay : ℕ) (w : W)
    → Runs service time
    → WellEnded service show host receipt
        (write_receipt service show host receipt (suc timeout) timeout initial_delay max_delay w).0
unfolding write_receipt
write_receipt-WellEnded service show host time receipt timeout initial_delay max_delay w clock =
    publish_prepared-WellEnded service show host time clock receipt timeout initial_delay max_delay
      (prepare service show host receipt w)
      (unfold Gives in prepare-IsFor service show host receipt w)
