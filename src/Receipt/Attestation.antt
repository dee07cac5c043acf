-- ===== src/Receipt/Attestation.antt =====
-- Signatures on receipts (src/sidq/receipt/attestation.py).
use sidq.Prelude.{
  String, str_eq, str_eq_iff, str_le, Bool, true, false, Option, none, some, List, [], ◌∷◌, ◌++◌,
  if◌then◌else◌, ◌≡◌, ◌≢◌, refl, arith, Option-cases, inl, inr,
}
use sidq.Prelude.Dict.{Dict, lookup}
use sidq.Prelude.Sort.{sorted}

pub data Attestation : Type 0 where
  signed tampered unattested : Attestation

-- Ed25519, base64, and `json.dumps` to UTF-8 bytes, with what the code relies on: decoding undoes
-- encoding, an encoding is not empty, and a key's own signature verifies.
pub record Crypto : Type 1 where
  pub Bytes : Type 0
  pub PrivateKey : Type 0
  pub PublicKey : Type 0
  pub public_of : PrivateKey → PublicKey
  pub sign_bytes : PrivateKey → Bytes → Bytes
  pub verifies : PublicKey → Bytes → Bytes → Bool
  pub encode : Bytes → String
  pub decode : String → Option Bytes
  pub dumps : String → Dict (List String) → Bytes
  pub decode-encode : (b : Bytes) → decode (encode b) ≡ some b
  pub encode-ne-empty : (b : Bytes) → encode b ≢ ""
  pub verifies-sign :
      (k : PrivateKey) (m : Bytes) → verifies (public_of k) (sign_bytes k m) m ≡ true

abbrev pub signature_property : String
signature_property = "urn:li:structuredProperty:sidq.signature"

abbrev is_nil {ℓ} : {A : Type ℓ} → List A → Bool
is_nil [] = true
is_nil (x ∷ xs) = false

-- The dict comprehension: no signature, no empty property, the values of each in order.
pub payload_body : Dict (List String) → Dict (List String)
payload_body [] = []
payload_body ((key, values) ∷ rest) =
    let later = payload_body rest in
    if str_eq key signature_property
    then later
    else if is_nil values
    then later
    else (key, sorted str_le values) ∷ later

abbrev by_key : String × List String → String × List String → Bool
by_key a b = str_le a.0 b.0

module _ (c : Crypto) where
  open c use {
    Bytes, PrivateKey, PublicKey, public_of, sign_bytes, verifies, encode, decode, dumps,
    decode-encode, encode-ne-empty, verifies-sign,
  }

  unfoldable pub signing_payload : String → Dict (List String) → Bytes
  unfolding payload_body
  signing_payload urn values = dumps urn (sorted by_key (payload_body values))

  pub sign : String → Dict (List String) → PrivateKey → String
  sign urn values key = encode (sign_bytes key (signing_payload urn values))

  check_signature : String → Dict (List String) → String → PublicKey → Attestation
  check_signature urn values signature key = elim (decode signature) [
    | none ↦ Attestation.tampered
    | some material ↦
        if verifies key material (signing_payload urn values)
        then Attestation.signed
        else Attestation.tampered
  ]

  attest_one : String → Dict (List String) → Option PublicKey → String → Attestation
  unfolding check_signature
  attest_one urn values key signature =
      if str_eq signature "" then Attestation.unattested else elim key [
        | none ↦ Attestation.unattested
        | some verifier ↦ check_signature urn values signature verifier
      ]

  attest_signatures : String → Dict (List String) → Option PublicKey → List String → Attestation
  unfolding attest_one
  attest_signatures urn values key [] = Attestation.unattested
  attest_signatures urn values key (signature ∷ []) = attest_one urn values key signature
  attest_signatures urn values key (signature ∷ another ∷ more) = Attestation.tampered

  -- `key` is what `load_public_key` or the caller gives.
  unfoldable pub attest : String → Dict (List String) → Option PublicKey → Attestation
  unfolding attest_signatures
  attest urn values key = elim (lookup signature_property values) [
    | none ↦ Attestation.unattested
    | some signatures ↦ attest_signatures urn values key signatures
  ]

  -- The body of a receipt, signed: its signature is one more property at the end.
  abbrev pub with_signature : Dict (List String) → String → Dict (List String)
  with_signature values signature = values ++ (signature_property, signature ∷ []) ∷ []

  payload_body-signed :
      (values : Dict (List String)) (signature : String)
      → payload_body (with_signature values signature) ≡ payload_body values
  unfolding payload_body
  payload_body-signed [] signature = refl
  payload_body-signed ((key, vs) ∷ rest) signature =
      ground (arith, payload_body-signed rest signature)

  lookup-signed :
      (values : Dict (List String)) (signature : String)
      → lookup signature_property values ≡ none
      → lookup signature_property (with_signature values signature) ≡ some (signature ∷ [])
  unfolding lookup
  lookup-signed [] signature h = refl
  lookup-signed ((key, vs) ∷ rest) signature h = ground (arith, lookup-signed rest signature)

  -- A body that has no signature yet, signed with a key, reads back as SIGNED under that key's
  -- public half, given that base64 decoding undoes encoding, that an encoding is not empty and
  -- that a key's own signature verifies.
  pub attest-sign :
      (urn : String) (values : Dict (List String)) (key : PrivateKey)
      → lookup signature_property values ≡ none
      → attest urn (with_signature values (sign urn values key)) (some (public_of key))
        ≡ Attestation.signed
  unfolding attest sign signing_payload
  attest-sign urn values key h =
      let payload : Bytes = dumps urn (sorted by_key (payload_body values)) in
      ground (
        arith,
        lookup-signed values (encode (sign_bytes key payload)) h,
        payload_body-signed values (encode (sign_bytes key payload)),
        decode-encode (sign_bytes key payload),
        encode-ne-empty (sign_bytes key payload),
        str_eq_iff (encode (sign_bytes key payload)) "",
        verifies-sign key payload,
      )

  -- One signature that the verifying key accepts for exactly this URN and body.
  pub record IsGenuine (urn : String) (values : Dict (List String)) (key : Option PublicKey)
      (signature : String) : Type 0 where
    pub verifier : PublicKey
    pub material : Bytes
    pub has_key : key ≡ some verifier
    pub decoded : decode signature ≡ some material
    pub accepted : verifies verifier material (signing_payload urn values) ≡ true

  check_signature-IsGenuine :
      (urn : String) (values : Dict (List String)) (key : Option PublicKey) (verifier : PublicKey)
      (signature : String)
      → key ≡ some verifier
      → check_signature urn values signature verifier ≡ Attestation.signed
      → IsGenuine urn values key signature
  unfolding check_signature
  check_signature-IsGenuine urn values key verifier signature k h =
      elim (Option-cases (decode signature)) [
        | inl e ↦ absurd (ground arith)
        | inr (material, e) ↦ record {
          verifier = verifier;
          material = material;
          has_key = k;
          decoded = e;
          accepted = ground arith;
        }
      ]

  attest_one-IsGenuine :
      (urn : String) (values : Dict (List String)) (key : Option PublicKey) (signature : String)
      → attest_one urn values key signature ≡ Attestation.signed
      → IsGenuine urn values key signature
  unfolding attest_one
  attest_one-IsGenuine urn values none signature h = absurd (ground arith)
  attest_one-IsGenuine urn values (some verifier) signature h =
      check_signature-IsGenuine urn values (some verifier) verifier signature refl (ground arith)

  -- SIGNED is said only of a body that carries exactly one signature, which the verifying key
  -- accepts for exactly this URN and body.
  pub attest_signed :
      (urn : String) (values : Dict (List String)) (key : Option PublicKey)
      → attest urn values key ≡ Attestation.signed
      → (signature : String) × (lookup signature_property values ≡ some (signature ∷ []))
        × IsGenuine urn values key signature
  unfolding attest
  attest_signed urn values key h = elim (Option-cases (lookup signature_property values)) [
    | inl e ↦ absurd (ground arith)
    | inr (signatures, e) ↦ only signatures e (ground arith)
  ]
    where
      only :
          (signatures : List String)
          → lookup signature_property values ≡ some signatures
          → attest_signatures urn values key signatures ≡ Attestation.signed
          → (signature : String) × (lookup signature_property values ≡ some (signature ∷ []))
            × IsGenuine urn values key signature
      only [] e k = absurd (ground arith)
      only (signature ∷ []) e k = (signature, e, attest_one-IsGenuine urn values key signature k)
      only (signature ∷ another ∷ more) e k = absurd (ground arith)

  -- Without a signature there is nothing to check.
  pub attest_absent :
      (urn : String) (values : Dict (List String)) (key : Option PublicKey)
      → lookup signature_property values ≡ none
      → attest urn values key ≡ Attestation.unattested
  unfolding attest
  attest_absent urn values key h = rw (h, attest)
