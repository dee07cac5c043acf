-- ===== src/Receipt/Confirm/Ends.antt =====
-- The readback ends, and succeeds only on an entity that shows the exact receipt.
use sidq.Prelude.{
  ℕ, zero, suc, ◌+◌, ◌-◌, ◌*◌, ◌≤◌, min, leb, ltb, String, Bool, true, false, ◌&&◌, Option, none,
  some, [], ◌∷◌, if◌then◌else◌, arith, ◌≡◌, refl,
}
use sidq.Value.{Value}
use sidq.Receipt.State.{Show}
use sidq.Receipt.Build.{Receipt}
use sidq.Receipt.Read.{single_entity}
use sidq.Receipt.Effects.{
  Call, get_entities, Result, ok, raised, Act, continue_with, ◌>>=◌, Service,
}
use sidq.Receipt.Confirm.Exact.{ShowsExactly, shows_receipt-ShowsExactly}
use sidq.Receipt.Confirm.{shows_receipt, confirmation_call, read_back, confirm_receipt_readback}

-- `time.monotonic` reads a clock that never goes back, and `time.sleep` waits at least as long as
-- it is told; `time` is what the clock would show.
pub record Runs {W : Type 0} (service : Service W) (time : W → ℕ) : Type 0 where
  pub shows : (w : W) → time w ≤ (service.monotonic w).0
  pub shown : (w : W) → (service.monotonic w).0 ≤ time (service.monotonic w).1
  pub sleeps : (d : ℕ) (w : W) → time w + d ≤ time (service.sleep d w)
  pub reads : (c : Call) (d : ℕ) (w : W) → time w ≤ time (service.call_within c d w).1

module _ {W : Type 0} (service : Service W) (show : Show) (receipt : Receipt) where
  -- A read of the entity that shows the exact receipt.
  unfoldable pub Shown : Type 0
  Shown =
      (deadline : ℕ) × (w : W) × (raw : Value) × ((confirmation_call service show receipt
          receipt.urn deadline w).0
        ≡ ok raw)
      × ShowsExactly show receipt (single_entity raw receipt.urn)

  -- An error, or a readback that a read of the catalog stands for.
  unfoldable pub EndsWell : Result (Option ℕ) → Type 0
  unfolding Shown
  EndsWell (ok none) = ⊥
  EndsWell (ok (some attempts)) = Shown
  EndsWell (raised error) = Unit

  -- A branch of the loop.
  branches-EndsWell :
      (b c : Bool) (n : ℕ) (w v : W) (error : String) (rest : Result (Option ℕ) × W)
      → (b ≡ true → Shown)
      → (c ≡ false → EndsWell rest.0)
      → EndsWell (if b then (ok (some n), w) else if c then (raised error, v) else rest).0
  unfolding EndsWell
  branches-EndsWell true c n w v error rest h k = h refl
  branches-EndsWell false true n w v error rest h k = tt
  branches-EndsWell false false n w v error rest h k = k refl

  guard-EndsWell :
      (b : Bool) (x y : Result (Option ℕ) × W)
      → (b ≡ true → EndsWell x.0)
      → EndsWell y.0
      → EndsWell (if b then x else y).0
  guard-EndsWell true x y h k = h refl
  guard-EndsWell false x y h k = k

  after_call :
      (r : Result Value) (k : Value → Act W (Option ℕ)) (w : W)
      → ((raw : Value) → r ≡ ok raw → EndsWell (k raw w).0)
      → EndsWell (continue_with r k w).0
  unfolding EndsWell
  after_call (ok raw) k w h = h raw refl
  after_call (raised error) k w h = tt

  module _ (time : W → ℕ) (clock : Runs service time) where
    call_time :
        (deadline : ℕ) (w : W)
        → time w ≤ time (confirmation_call service show receipt receipt.urn deadline w).1
    unfolding confirmation_call
    call_time deadline w =
        let read = service.monotonic w in
        omega (
          arith,
          clock.shows w,
          clock.shown w,
          clock.reads (get_entities (receipt.urn ∷ [])) (deadline - read.0) read.1,
        )

    read_back-EndsWell :
        (k deadline max_delay delay attempts : ℕ) (w : W)
        → 1 ≤ delay
        → 1 ≤ max_delay
        → deadline ≤ time w + k
        → EndsWell (read_back service show receipt (suc k) deadline max_delay delay attempts w).0
    unfolding read_back Shown ◌>>=◌
    read_back-EndsWell zero deadline max_delay delay attempts w hd hm hk =
        let called = confirmation_call service show receipt receipt.urn deadline w in
        let read = service.monotonic called.1 in
        after_call called.0 _ called.1 (λ raw e.
          branches-EndsWell (shows_receipt show receipt (single_entity raw receipt.urn))
            (leb deadline read.0) _ _ _ _ _
            (λ s. (
              deadline,
              w,
              raw,
              e,
              shows_receipt-ShowsExactly show receipt (single_entity raw receipt.urn) s,
            ))
            (λ h.
              let q : true ≡ false =
                ground (arith, h, hk, call_time deadline w, clock.shows called.1) in
              cc))
    read_back-EndsWell (suc k) deadline max_delay delay attempts w hd hm hk =
        let called = confirmation_call service show receipt receipt.urn deadline w in
        let read = service.monotonic called.1 in
        let wait = min delay (deadline - read.0) in
        after_call called.0 _ called.1 (λ raw e.
          branches-EndsWell (shows_receipt show receipt (single_entity raw receipt.urn))
            (leb deadline read.0) _ _ _ _ _
            (λ s. (
              deadline,
              w,
              raw,
              e,
              shows_receipt-ShowsExactly show receipt (single_entity raw receipt.urn) s,
            ))
            (λ h.
              read_back-EndsWell k deadline max_delay (min (delay * 2) max_delay) (suc attempts)
                (service.sleep wait read.1) (ground (arith, hd, hm)) hm
                (ground (
                  arith,
                  h,
                  hk,
                  hd,
                  call_time deadline w,
                  clock.shows called.1,
                  clock.shown called.1,
                  clock.sleeps wait read.1,
                ))))

    -- With one round for each millisecond of the timeout and one more, the readback ends.
    pub confirm_receipt_readback-EndsWell :
        (timeout initial_delay max_delay : ℕ) (w : W)
        → EndsWell
            (confirm_receipt_readback service show receipt
              (suc timeout)
              timeout
              initial_delay
              max_delay
              w).0
    unfolding confirm_receipt_readback EndsWell
    confirm_receipt_readback-EndsWell timeout initial_delay max_delay w =
        let read = service.monotonic w in
        guard-EndsWell (ltb 0 initial_delay && ltb 0 max_delay)
          (read_back service show receipt (suc timeout) (read.0 + timeout) max_delay
            (min initial_delay max_delay) 0 read.1)
          (raised "ValueError", w)
          (λ e.
            read_back-EndsWell timeout (read.0 + timeout) max_delay (min initial_delay max_delay) 0
              read.1 (ground (arith, e)) (ground (arith, e)) (omega (arith, clock.shown w)))
          tt
