-- ===== src/Receipt/Freshness.antt =====
-- Whether a receipt still applies (`_parse_iso`, `_timestamp`, `_schema_modified_at`, `_staleness`
-- of src/sidq/receipt/read.py). A moment is a number of microseconds.
use sidq.Prelude.{
  ℕ, ◌+◌, ◌≤◌, String, str_eq, str_eq_iff, Bool, true, false, Option, none, some, ltb, max,
  str_eq_refl, Option-cases, inl, inr, if◌then◌else◌, ◌≡◌, ◌≢◌, ◌↔◌, refl, arith,
}
use sidq.Prelude.Int.{ℤ}
use sidq.Value.{Value, obj, str, Fields, as_int}
use sidq.Receipt.State.{get}

-- Python's `datetime`: a text read as a moment in UTC, and a moment from milliseconds.
pub record Calendar : Type 0 where
  pub from_iso : String → Option ℕ
  pub from_millis : ℤ → ℕ

-- `_parse_iso`
unfoldable pub parse_iso : Calendar → Option String → Option ℕ
parse_iso c none = none
parse_iso c (some text) = if str_eq text "" then none else c.from_iso text

timestamp_scalar : Calendar → Value → Option ℕ
unfolding as_int parse_iso
timestamp_scalar c (str text) = parse_iso c (some text)
timestamp_scalar c v = elim (as_int v) [ none ↦ none | some n ↦ some (c.from_millis n) ]

-- `_timestamp`
timestamp : Calendar → Value → Option ℕ
unfolding timestamp_scalar
timestamp c (obj fs) = timestamp_scalar c (get "time" fs)
timestamp c v = timestamp_scalar c v

aspect_modified : Calendar → Value → Option ℕ
unfolding timestamp
aspect_modified c (obj aspect) = timestamp c (get "lastModified" aspect)
aspect_modified c _ = none

latest : Option ℕ → Option ℕ → Option ℕ
latest none b = b
latest (some a) none = some a
latest (some a) (some b) = some (max a b)

-- `_schema_modified_at`
pub schema_modified_at : Calendar → Fields → Option ℕ
unfolding aspect_modified latest
schema_modified_at c entity =
    latest (aspect_modified c (get "schemaMetadata" entity))
      (aspect_modified c (get "editableSchemaMetadata" entity))

-- What `_staleness` is told.
pub record Recorded : Type 0 where
  pub checked_at : Option String
  pub schema_modified : Option ℕ
  pub recorded_context : Option String
  pub current_context : Option String
  pub recorded_policy : Option String
  pub current_policy : Option String
  pub max_age : ℕ
  pub now : ℕ

same_text : Option String → Option String → Bool
same_text none none = true
same_text (some a) (some b) = str_eq a b
same_text _ _ = false

-- `current_policy_hash is not None and current_policy_hash != recorded_policy_hash`
policy_moved : Option String → Option String → Bool
unfolding same_text
policy_moved none recorded = false
policy_moved (some current) recorded = if same_text (some current) recorded then false else true

schema_moved : Option ℕ → ℕ → Bool
schema_moved none checked = false
schema_moved (some modified) checked = ltb checked modified

context_reason : Option String → Option String → Bool × Option String
unfolding same_text
context_reason none current = (true, some "receipt has no decision context hash")
context_reason (some recorded) none =
    if str_eq recorded ""
    then (true, some "receipt has no decision context hash")
    else (true, some "asset decision context could not be proved")
context_reason (some recorded) (some current) =
    if str_eq recorded ""
    then (true, some "receipt has no decision context hash")
    else if str_eq current recorded
    then (false, none)
    else (true, some "asset decision context changed")

staleness_at : ℕ → Recorded → Bool × Option String
unfolding policy_moved schema_moved context_reason
staleness_at checked r =
    if policy_moved r.current_policy r.recorded_policy
    then (true, some "policy hash changed since the last verification")
    else if schema_moved r.schema_modified checked
    then (true, some "asset schema changed after the last verification")
    else if ltb (checked + r.max_age) r.now
    then (true, some "receipt exceeded the maximum verification age")
    else context_reason r.recorded_context r.current_context

-- `_staleness`
unfoldable pub staleness : Calendar → Recorded → Bool × Option String
unfolding staleness_at
staleness c r = elim (parse_iso c r.checked_at) [
  | none ↦ (true, some "receipt has no valid checked_at timestamp")
  | some checked ↦ staleness_at checked r
]

-- Every condition under which a receipt still applies.
pub record IsFresh (c : Calendar) (r : Recorded) (checked : ℕ) : Type 0 where
  pub read : parse_iso c r.checked_at ≡ some checked
  pub same_policy : (h : String) → r.current_policy ≡ some h → r.recorded_policy ≡ some h
  pub schema_unmoved : (m : ℕ) → r.schema_modified ≡ some m → m ≤ checked
  pub young : r.now ≤ checked + r.max_age
  pub has_context : r.recorded_context ≢ some ""
  pub same_context : (h : String) × (r.recorded_context ≡ some h) × (r.current_context ≡ some h)

policy_kept :
    (current recorded : Option String)
    → policy_moved current recorded ≡ false
    → (h : String) → current ≡ some h
    → recorded ≡ some h
unfolding policy_moved
policy_kept none recorded p h q = cc
policy_kept (some k) none p h q = cc
policy_kept (some k) (some j) p h q = ground (arith, str_eq_iff k j)

policy_unmoved :
    (current recorded : Option String)
    → ((h : String) → current ≡ some h → recorded ≡ some h)
    → policy_moved current recorded ≡ false
unfolding policy_moved
policy_unmoved none recorded p = refl
policy_unmoved (some k) recorded p = rw (p k refl) (ground (arith, str_eq_refl k))

context_kept :
    (recorded current : Option String)
    → (context_reason recorded current).0 ≡ false
    → (recorded ≢ some "") × (h : String) × (recorded ≡ some h) × (current ≡ some h)
unfolding context_reason
context_kept none current p = cc
context_kept (some j) none p = ground arith
context_kept (some j) (some k) p =
    (λ e. ground (arith, str_eq_iff j ""), k, ground (arith, str_eq_iff k j), refl)

context_unmoved :
    (recorded current : Option String) (h : String)
    → recorded ≢ some ""
    → recorded ≡ some h
    → current ≡ some h
    → context_reason recorded current ≡ (false, none)
unfolding context_reason
context_unmoved none current h n p q = cc
context_unmoved (some j) none h n p q = cc
context_unmoved (some j) (some k) h n p q = ground (arith, str_eq_iff j "", str_eq_iff k j)

schema_kept :
    (modified : Option ℕ) (checked : ℕ)
    → schema_moved modified checked ≡ false
    → (m : ℕ) → modified ≡ some m
    → m ≤ checked
unfolding schema_moved
schema_kept none checked p m q = cc
schema_kept (some n) checked p m q = ground arith

schema_stays :
    (modified : Option ℕ) (checked : ℕ)
    → ((m : ℕ) → modified ≡ some m → m ≤ checked)
    → schema_moved modified checked ≡ false
unfolding schema_moved
schema_stays none checked p = refl
schema_stays (some n) checked p = let q : n ≤ checked = p n refl in ground arith

module _ (c : Calendar) (r : Recorded) (checked : ℕ) where
  -- The guards of `staleness_at` that let it reach its last test.
  reached :
      (staleness_at checked r).0 ≡ false
      → (policy_moved r.current_policy r.recorded_policy ≡ false)
        × (schema_moved r.schema_modified checked ≡ false)
        × (r.now ≤ checked + r.max_age)
        × ((context_reason r.recorded_context r.current_context).0 ≡ false)
  unfolding staleness_at
  reached h = ground arith

  staleness_at-IsFresh :
      parse_iso c r.checked_at ≡ some checked
      → (staleness_at checked r).0 ≡ false
      → IsFresh c r checked
  staleness_at-IsFresh e fresh =
      let (pol, sch, age, con) = reached fresh in
      let (nonempty, h, a, b) = context_kept r.recorded_context r.current_context con in
      record {
        read = e;
        same_policy = policy_kept r.current_policy r.recorded_policy pol;
        schema_unmoved = schema_kept r.schema_modified checked sch;
        young = age;
        has_context = nonempty;
        same_context = (h, a, b);
      }

  false_of_fresh : IsFresh c r checked → staleness_at checked r ≡ (false, none)
  unfolding staleness_at
  false_of_fresh f =
      let (h, a, b) = f.same_context in
      ground (
        arith,
        policy_unmoved r.current_policy r.recorded_policy f.same_policy,
        schema_stays r.schema_modified checked f.schema_unmoved,
        context_unmoved r.recorded_context r.current_context h f.has_context a b,
        f.young,
      )

-- A receipt is fresh exactly if its time of checking is readable, the reader's policy and the
-- decision context are those that it records, the schema has not moved, and it is not too old.
pub staleness-IsFresh :
    (c : Calendar) (r : Recorded)
    → ((staleness c r).0 ≡ false) ↔ ((checked : ℕ) × IsFresh c r checked)
unfolding staleness
staleness-IsFresh c r = elim (Option-cases (parse_iso c r.checked_at)) [
  | inl e ↦ (λ h. ground arith, λ w. absurd (ground (arith, (w.1).read)))
  | inr (checked, e) ↦ (
    λ h. (checked, staleness_at-IsFresh c r checked e (ground arith)),
    λ w. ground (arith, false_of_fresh c r w.0 w.1, (w.1).read),
  )
]
