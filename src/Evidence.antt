-- ===== src/Evidence.antt =====
-- Self-verifying evidence bundles (crates/ml-core/src/evidence.rs).
pub mod Extend
pub mod Signed
use mandate_ledger.Prelude.{
  ℕ, not, Option, none, some, List, [], ◌∷◌, nat_beq, leb, find_map, is_empty, Result, ok, ◌>>=◌,
  ◌>>◌, map_err, ◌==◌, list_eq, nat_eq,
}
use mandate_ledger.Text.{Text, Bytes, codes}
use mandate_ledger.Hash.{Hash32, Sha256, CanonicalJson, CanonicalizeError, zero_hash}
use mandate_ledger.Time.{Timestamp}
use mandate_ledger.Ids.{ContextId}
use mandate_ledger.State.{PaymentState}
use mandate_ledger.Mandate.Scope.{refuse_if}
use mandate_ledger.Mandate.Body.{Mandate, Ed25519}
use mandate_ledger.Event.{
  CartSnapshot, Event, EventBody, Preimage, authorized_event, resulting_state, verify_hash,
}

abbrev pub evidence_version : ℕ
evidence_version = 1

abbrev pub mandate_of : {Decimal : Type 0} → EventBody Decimal → Option (Mandate Decimal)
mandate_of (authorized_event mandate cart key) = some mandate
mandate_of _ = none

abbrev pub cart_of : {Decimal : Type 0} → EventBody Decimal → Option (CartSnapshot Decimal)
cart_of (authorized_event mandate cart key) = some cart
cart_of _ = none

-- `authorized_mandate`, the mandate in the chain's `Authorized` event.
unfoldable pub authorized_mandate :
    {Decimal : Type 0} → List (Event Decimal) → Option (Mandate Decimal)
authorized_mandate events = find_map (λ e. mandate_of e.body) events

pub record EvidenceBundle (Decimal : Type 0) : Type 0 where
  pub version : ℕ
  pub ctx : ContextId
  pub generated_at : Timestamp
  pub events : List (Event Decimal)

-- `EvidenceBundle::new`
unfoldable pub new_bundle :
    {Decimal : Type 0} → ContextId → Timestamp → List (Event Decimal) → EvidenceBundle Decimal
new_bundle ctx generated_at events = record {
  version = evidence_version;
  ctx = ctx;
  generated_at = generated_at;
  events = events;
}

pub data EvidenceError : Type 0 where
  unsupported_version : ℕ → EvidenceError
  empty_bundle : EvidenceError
  wrong_context broken_chain hash_mismatch sequence_not_increasing : ℕ → EvidenceError
  signature_invalid : EvidenceError
  evidence_canonicalize : CanonicalizeError → EvidenceError

module _ {Decimal : Type 0} ⦃sha : Sha256⦄ ⦃json : CanonicalJson (Preimage Decimal)⦄ where
  -- One round of the loop of `EvidenceBundle::verify`.
  unfoldable pub check_event :
      ContextId → Hash32 → ℕ → Event Decimal → Result EvidenceError (Unit {0})
  check_event ctx prev last_seq e =
      refuse_if (not (e.ctx == ctx)) (wrong_context e.seq)
      >> (refuse_if (leb e.seq last_seq) (sequence_not_increasing e.seq)
          >> (refuse_if (not (e.prev_hash == prev)) (broken_chain e.seq)
              >> (map_err evidence_canonicalize (verify_hash e) >>= λ intact.
                  refuse_if (not intact) (hash_mismatch e.seq))))

  -- The loop, from the hash and the sequence number reached.
  unfoldable pub verify_events :
      ContextId → Hash32 → ℕ → List (Event Decimal) → Result EvidenceError (Unit {0})
  verify_events ctx prev last_seq [] = ok tt
  verify_events ctx prev last_seq (e ∷ rest) =
      let later = verify_events ctx e.hash e.seq rest in check_event ctx prev last_seq e >> later

  -- `EvidenceBundle::verify`
  unfoldable pub verify_bundle : EvidenceBundle Decimal → Result EvidenceError (Unit {0})
  verify_bundle b =
      refuse_if (not (nat_beq b.version evidence_version)) (unsupported_version b.version)
      >> (refuse_if (is_empty b.events) empty_bundle >> verify_events b.ctx zero_hash 0 b.events)

-- `EvidenceBundle::final_state`: the first state found from the end.
unfoldable pub final_state_of : {Decimal : Type 0} → List (Event Decimal) → Option PaymentState
final_state_of [] = none
final_state_of (e ∷ rest) =
    let later = final_state_of rest in
    elim later [ some s ↦ some s | none ↦ resulting_state e.body ]

unfoldable pub final_state : {Decimal : Type 0} → EvidenceBundle Decimal → Option PaymentState
unfolding final_state_of
final_state b = final_state_of b.events

-- `EvidenceBundle::mandate` and `EvidenceBundle::cart`
unfoldable pub bundle_mandate :
    {Decimal : Type 0} → EvidenceBundle Decimal → Option (Mandate Decimal)
unfolding authorized_mandate
bundle_mandate b = authorized_mandate b.events

unfoldable pub bundle_cart :
    {Decimal : Type 0} → EvidenceBundle Decimal → Option (CartSnapshot Decimal)
bundle_cart b = find_map (λ e. cart_of e.body) b.events

pub record SignedEvidence (Decimal : Type 0) : Type 0 where
  pub bundle : EvidenceBundle Decimal
  pub signer : Bytes
  pub signature : Bytes

module _ {Decimal : Type 0} ⦃sha : Sha256⦄ ⦃ed : Ed25519⦄ ⦃json : CanonicalJson (Preimage Decimal)⦄
    ⦃bundle_json : CanonicalJson (EvidenceBundle Decimal)⦄ where
  -- `EvidenceBundle::signing_bytes` and `EvidenceBundle::sign`
  unfoldable pub sign_bundle :
      EvidenceBundle Decimal → Bytes → Result CanonicalizeError (SignedEvidence Decimal)
  sign_bundle b seed = bundle_json.canonical_json b >>= λ bytes.
      ok (record {
        bundle = b;
        signer = ed.verifying_key seed;
        signature = ed.sign_bytes seed bytes;
      })

  -- `SignedEvidence::verify`
  unfoldable pub verify_signed : SignedEvidence Decimal → Result EvidenceError (Unit {0})
  verify_signed s =
      verify_bundle s.bundle
      >> (refuse_if (not (ed.is_public_key s.signer)) signature_invalid
          >> (map_err evidence_canonicalize (bundle_json.canonical_json s.bundle) >>= λ bytes.
              refuse_if (not (ed.verify_strict s.signer bytes s.signature)) signature_invalid))

-- `EvidenceError::code`
unfoldable pub evidence_code : EvidenceError → Text
evidence_code (unsupported_version v) = codes "UNSUPPORTED_VERSION"
evidence_code empty_bundle = codes "EMPTY"
evidence_code (wrong_context s) = codes "WRONG_CONTEXT"
evidence_code (broken_chain s) = codes "BROKEN_CHAIN"
evidence_code (hash_mismatch s) = codes "HASH_MISMATCH"
evidence_code (sequence_not_increasing s) = codes "SEQUENCE_NOT_INCREASING"
evidence_code signature_invalid = codes "SIGNATURE_INVALID"
evidence_code (evidence_canonicalize e) = codes "CANONICALIZE"

-- `EvidenceError::seq`
unfoldable pub evidence_seq : EvidenceError → Option ℕ
evidence_seq (wrong_context s) = some s
evidence_seq (broken_chain s) = some s
evidence_seq (hash_mismatch s) = some s
evidence_seq (sequence_not_increasing s) = some s
evidence_seq _ = none
