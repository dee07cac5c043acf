-- ===== src/Receipt/Effects.antt =====
-- The calls that the writer of a receipt makes (src/sidq/receipt/write.py), as actions on the state
-- of a world that return a value or the name of an error. The tools, the clock and the bounded read
-- are parameters.
use sidq.Prelude.{ℕ, String, List, Bool, true, false, if◌then◌else◌}
use sidq.Prelude.Dict.{Dict}
use sidq.Value.{Value, Fields}

-- The tools of `RECEIPT_TOOLS` with their arguments, but for `get_lineage`.
pub data Call : Type 0 where
  get_entities : List String → Call
  save_document : String → String → String → List String → Call
  add_tags : List String → List String → Call
  remove_tags : List String → List String → Call
  add_structured_properties : Dict (List String) → List String → Call
  remove_structured_properties : List String → List String → Call

pub data Result (A : Type 0) : Type 0 where
  ok : A → Result A
  raised : String → Result A

abbrev pub Act : Type 0 → Type 0 → Type 0
Act W A = W → Result A × W

module _ {W A : Type 0} where
  unfoldable pub pure : A → Act W A
  pure a w = (Result.ok a, w)

  unfoldable pub raise : String → Act W A
  raise error w = (Result.raised error, w)

abbrev pub continue_with : {W A B : Type 0} → Result A → (A → Act W B) → Act W B
continue_with (Result.ok a) k w = k a w
continue_with (Result.raised error) k w = (Result.raised error, w)

infixl 20 ◌>>=◌
unfoldable pub ◌>>=◌ : {W A B : Type 0} → Act W A → (A → Act W B) → Act W B
m >>= k = λ w. continue_with (m w).0 k (m w).1

-- What the writer works with. `context_hash` is `decision_context_hash`, which reads the lineage.
pub record Service (W : Type 0) : Type 0 where
  pub call : Call → Act W Value
  pub call_within : Call → ℕ → Act W Value
  pub context_hash : String → Fields → Act W String
  pub monotonic : W → ℕ × W
  pub sleep : ℕ → W → W

-- What holds of the value of an action that returns.
abbrev pub Holds : {A : Type 0} → (A → Type 0) → Result A → Type 0
Holds Q (Result.ok a) = Q a
Holds Q (Result.raised error) = Unit

-- The action returns nothing but such values.
unfoldable pub Gives : {W A : Type 0} → (A → Type 0) → Act W A → Type 0
Gives {W} Q m = (w : W) → Holds Q (m w).0

-- The action keeps a property of the world.
unfoldable pub Keeps : {W A : Type 0} → (W → Type 0) → Act W A → Type 0
Keeps {W} P m = (w : W) → P w → P (m w).1

pub pure-Gives : (W : Type 0) {A : Type 0} (Q : A → Type 0) (a : A) → Q a → Gives {W = W} Q (pure a)
unfolding Gives pure
pure-Gives W Q a h w = h

pub raise-Gives :
    (W : Type 0) {A : Type 0} (Q : A → Type 0) (error : String) → Gives {W = W} Q (raise error)
unfolding Gives raise
raise-Gives W Q error w = tt

pub raise-Keeps :
    {W : Type 0} (A : Type 0) (P : W → Type 0) (error : String) → Keeps {A = A} P (raise error)
unfolding Keeps raise
raise-Keeps A P error w h = h

module _ {W A : Type 0} where
  pub if-Gives :
      (Q : A → Type 0) (b : Bool) (x y : Act W A)
      → Gives Q x
      → Gives Q y
      → Gives Q (if b then x else y)
  if-Gives Q true x y h k = h
  if-Gives Q false x y h k = k

  pub pure-Keeps : (P : W → Type 0) (a : A) → Keeps P (pure a)
  unfolding Keeps pure
  pure-Keeps P a w h = h

  pub if-Keeps :
      (P : W → Type 0) (b : Bool) (x y : Act W A)
      → Keeps P x
      → Keeps P y
      → Keeps P (if b then x else y)
  if-Keeps P true x y h k = h
  if-Keeps P false x y h k = k

module _ {W A B : Type 0} where
  continue-Holds :
      (Q : B → Type 0) (r : Result A) (k : A → Act W B) (w : W)
      → ((a : A) → Gives Q (k a))
      → Holds Q (continue_with r k w).0
  unfolding Gives
  continue-Holds Q (Result.ok a) k w h = h a w
  continue-Holds Q (Result.raised error) k w h = tt

  pub bind-Gives :
      (Q : B → Type 0) (m : Act W A) (k : A → Act W B)
      → ((a : A) → Gives Q (k a))
      → Gives Q (m >>= k)
  unfolding Gives ◌>>=◌
  bind-Gives Q m k h w = continue-Holds Q (m w).0 k (m w).1 h

  continue_known :
      (R : A → Type 0) (Q : B → Type 0) (r : Result A) (k : A → Act W B) (w : W)
      → Holds R r
      → ((a : A) → R a → Gives Q (k a))
      → Holds Q (continue_with r k w).0
  unfolding Gives
  continue_known R Q (Result.ok a) k w g h = h a g w
  continue_known R Q (Result.raised error) k w g h = tt

  -- The same, where something is known of what the first action returns.
  pub bind_known :
      (R : A → Type 0) (Q : B → Type 0) (m : Act W A) (k : A → Act W B)
      → Gives R m
      → ((a : A) → R a → Gives Q (k a))
      → Gives Q (m >>= k)
  unfolding Gives ◌>>=◌
  bind_known R Q m k g h w = continue_known R Q (m w).0 k (m w).1 (g w) h

  continue_keeps :
      (P : W → Type 0) (r : Result A) (k : A → Act W B) (w : W)
      → ((a : A) → Keeps P (k a))
      → P w
      → P (continue_with r k w).1
  unfolding Keeps
  continue_keeps P (Result.ok a) k w h p = h a w p
  continue_keeps P (Result.raised error) k w h p = p

  pub bind-Keeps :
      (P : W → Type 0) (m : Act W A) (k : A → Act W B)
      → Keeps P m
      → ((a : A) → Keeps P (k a))
      → Keeps P (m >>= k)
  unfolding Keeps ◌>>=◌
  bind-Keeps P m k hm h w p = continue_keeps P (m w).0 k (m w).1 h (hm w p)
