-- ===== src/Receipt/Verify.antt =====
-- What a reader may conclude from a receipt: it is about the asset asked for, and an agent goes on
-- only on a genuine, fresh PASS.
use sidq.Prelude.{
  ℕ, String, str_eq_iff, Bool, true, false, Option, none, some, List, [], ◌∷◌, map, ◌≡◌, ◌≢◌, ◌⊎◌,
  inl, inr, refl, arith, Bool-cases, ap,
}
use sidq.Value.{Value, null, bool, str, obj, Fields, end, eq_value}
use sidq.Receipt.State.{Show, text_of, get, truthy, value_or, judge, may_continue}
use sidq.Receipt.State.Axes.{continue_exact}
use sidq.Receipt.Attestation.{Attestation, Crypto, attest}
use sidq.Receipt.Freshness.{Calendar, IsFresh, staleness-IsFresh}
use sidq.Receipt.Read.{
  sequence, find_entity, single_entity, sidq_values, one, Reader, recorded_of, status_of,
  attestation_text, with_prefix, text_or_null, sequence_entity, mapping_entity,
}

eq_value-str : (v : Value) (s : String) → eq_value v (str s) ≡ true → v ≡ str s
unfolding eq_value
eq_value-str (str t) s h = ground (arith, str_eq_iff t s)
eq_value-str null s h = cc
eq_value-str (bool true) s h = cc
eq_value-str (bool false) s h = cc
eq_value-str _ s h = cc

-- The entity is none, or the one that was asked for.
abbrev pub IsRequested : String → Fields → Type 0
IsRequested urn entity = (entity ≡ end) ⊎ (get "urn" entity ≡ str urn)

find_entity-IsRequested :
    (urn : String) (items : List Value) → IsRequested urn (find_entity urn items)
unfolding find_entity
find_entity-IsRequested urn [] = inl refl
find_entity-IsRequested urn (obj fs ∷ rest) =
    elim (Bool-cases (eq_value (get "urn" fs) (str urn))) [
      | inl e ↦ rw e (inr (eq_value-str (get "urn" fs) urn e))
      | inr e ↦ rw e (find_entity-IsRequested urn rest)
    ]
find_entity-IsRequested urn (_ ∷ rest) = find_entity-IsRequested urn rest

sequence_entity-IsRequested :
    (urn : String) (items : Option (List Value)) → IsRequested urn (sequence_entity urn items)
unfolding sequence_entity
sequence_entity-IsRequested urn none = inl refl
sequence_entity-IsRequested urn (some items) = find_entity-IsRequested urn items

mapping_entity-IsRequested :
    (urn : String) (raw : Fields) (items : Option (List Value))
    → IsRequested urn (mapping_entity urn raw items)
unfolding mapping_entity
mapping_entity-IsRequested urn raw (some items) = sequence_entity-IsRequested urn (some items)
mapping_entity-IsRequested urn raw none = elim (Bool-cases (eq_value (get "urn" raw) (str urn))) [
  | inl e ↦ rw e (inr (eq_value-str (get "urn" raw) urn e))
  | inr e ↦ rw e (inl refl)
]

-- Whatever the catalog answers, the entity that is read is none or the one that was asked for: the
-- catalog cannot pass one asset's receipt off as another's.
single_entity-IsRequested : (raw : Value) (urn : String) → IsRequested urn (single_entity raw urn)
unfolding single_entity
single_entity-IsRequested (obj raw) urn =
    mapping_entity-IsRequested urn raw (sequence (value_or (get "entities" raw) (get "result" raw)))
single_entity-IsRequested raw urn = sequence_entity-IsRequested urn (sequence raw)

verdict_text :
    (show : Show) (o : Option String)
    → truthy (text_or_null o) ≡ true
    → text_of show (text_or_null o) ≡ "PASS"
    → o ≡ some "PASS"
unfolding truthy text_of
verdict_text show none t e = cc
verdict_text show (some s) t e = ap some e

not_tampered :
    (a : Attestation)
    → eq_value (str (attestation_text a)) (str "TAMPERED") ≡ false
    → a ≢ Attestation.tampered
unfolding eq_value
not_tampered Attestation.tampered h e = cc
not_tampered _ h e = cc

stale_false : (b : Bool) → bool b ≡ bool false → b ≡ false
stale_false b h = cc

module _ (c : Crypto) (calendar : Calendar) (show : Show) (key : Option (c.PublicKey))
    (reader : Reader) (urn : String) (entity : Fields) where
  -- If a reader of a catalog entity may continue, then the entity records the verdict PASS, its
  -- signature is not known to be forged, and the receipt is fresh for this reader: every condition
  -- of `IsFresh` holds at the recorded time of checking.
  pub status_of_continue :
      may_continue (judge show (obj (status_of c calendar show key reader urn entity))) ≡ true
      → (one (sidq_values show entity) "verdict" ≡ some "PASS")
        × (attest c urn (map with_prefix (sidq_values show entity)) key ≢ Attestation.tampered)
        × (checked : ℕ) × IsFresh calendar
            (recorded_of calendar reader entity (sidq_values show entity))
            checked
  unfolding status_of get
  status_of_continue h =
      let (there, pass, genuine, fresh) =
        (continue_exact show (obj (status_of c calendar show key reader urn entity))).0 h in
      let (checked, ok) =
        (staleness-IsFresh calendar
            (recorded_of calendar reader entity (sidq_values show entity))).0
          (stale_false _ fresh) in
      (
        verdict_text show (one (sidq_values show entity) "verdict") there pass,
        not_tampered (attest c urn (map with_prefix (sidq_values show entity)) key) genuine,
        checked,
        ok,
      )
