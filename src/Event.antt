-- ===== src/Event.antt =====
-- Hash-chained ledger events (crates/ml-core/src/event.rs).
use mandate_ledger.Prelude.{ℕ, Bool, Option, none, some, Result, ok, ◌>>=◌, ◌==◌, list_eq, nat_eq}
use mandate_ledger.Text.{Text, Bytes}
use mandate_ledger.Hash.{Hash32, Sha256, chain, CanonicalJson, CanonicalizeError}
use mandate_ledger.Time.{Timestamp}
use mandate_ledger.Ids.{ContextId}
use mandate_ledger.Money.{Money}
use mandate_ledger.Cart.{ScopeClaims, Attestation, Cart}
use mandate_ledger.State.{
  PaymentState, authorized, paid, settled, settlement_failed, compensated, delivered, expired,
}
use mandate_ledger.Reason.{DenyReason, Stage}
use mandate_ledger.Mandate.Errors.{Detail}
use mandate_ledger.Mandate.Body.{Mandate}

pub record CartSnapshot (Decimal : Type 0) : Type 0 where
  pub hash : Hash32
  pub claims : ScopeClaims Decimal
  pub attestation : Attestation
  pub raw : Bytes

-- `From<&Cart> for CartSnapshot`
unfoldable pub snapshot : {Decimal : Type 0} → Cart Decimal → CartSnapshot Decimal
snapshot cart = record {
  hash = cart.hash;
  claims = cart.claims;
  attestation = cart.attestation;
  raw = cart.raw;
}

pub record DeliveryReceipt : Type 0 where
  pub reference : Text
  pub attestation : Attestation

-- `Paid` with rail, reference, nonce, amount and idempotency key; `Settled` with rail and reference;
-- `SettlementFailed` with rail and reason.
pub data EventBody (Decimal : Type 0) : Type 0 where
  authorized_event : Mandate Decimal → CartSnapshot Decimal → Text → EventBody Decimal
  denied_event : Stage → DenyReason → Detail Decimal → EventBody Decimal
  paid_event : Text → Text → Text → Money Decimal → Hash32 → EventBody Decimal
  settled_event : Text → Text → EventBody Decimal
  failed_event : Text → Text → EventBody Decimal
  compensated_event : Option Text → EventBody Decimal
  delivered_event : DeliveryReceipt → EventBody Decimal
  expired_event : EventBody Decimal

-- `EventBody::resulting_state`
unfoldable pub resulting_state : {Decimal : Type 0} → EventBody Decimal → Option PaymentState
resulting_state (authorized_event m c k) = some authorized
resulting_state (paid_event r f n a k) = some paid
resulting_state (settled_event r f) = some settled
resulting_state (failed_event r f) = some settlement_failed
resulting_state (compensated_event r) = some compensated
resulting_state (delivered_event r) = some delivered
resulting_state expired_event = some expired
resulting_state (denied_event s r d) = none

pub record Event (Decimal : Type 0) : Type 0 where
  pub seq : ℕ
  pub ctx : ContextId
  pub at : Timestamp
  pub prev_hash : Hash32
  pub hash : Hash32
  pub body : EventBody Decimal

-- `Preimage`, what an event's hash covers.
pub record Preimage (Decimal : Type 0) : Type 0 where
  pub seq : ℕ
  pub ctx : ContextId
  pub at : Timestamp
  pub body : EventBody Decimal

module _ {Decimal : Type 0} ⦃sha : Sha256⦄ ⦃json : CanonicalJson (Preimage Decimal)⦄ where
  -- `Event::compute_hash`
  unfoldable pub compute_hash :
      Hash32 → ℕ → ContextId → Timestamp → EventBody Decimal → Result CanonicalizeError Hash32
  compute_hash prev_hash seq ctx at body =
      json.canonical_json (record { seq = seq; ctx = ctx; at = at; body = body }) >>= λ bytes.
      ok (chain prev_hash bytes)

  -- `Event::new`
  unfoldable pub new_event :
      Hash32
      → ℕ
      → ContextId
      → Timestamp
      → EventBody Decimal
      → Result CanonicalizeError (Event Decimal)
  new_event prev_hash seq ctx at body = compute_hash prev_hash seq ctx at body >>= λ hash.
      ok (record { seq = seq; ctx = ctx; at = at; prev_hash = prev_hash; hash = hash; body = body })

  -- `Event::verify_hash`
  unfoldable pub verify_hash : Event Decimal → Result CanonicalizeError Bool
  verify_hash e =
      compute_hash e.prev_hash e.seq e.ctx e.at e.body >>= λ expected. ok (expected == e.hash)
