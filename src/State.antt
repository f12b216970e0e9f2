-- ===== src/State.antt =====
-- The payment lifecycle state machine and its typestate tokens (crates/ml-core/src/state.rs). A
-- token's fields are private to the crate there: only the engine makes one.
pub mod Machine
use mandate_ledger.Prelude.{Bool, true, false, Option, Eq, ◌≡◌, ◌↔◌, arith}
use mandate_ledger.Text.{Text}
use mandate_ledger.Hash.{Hash32}
use mandate_ledger.Ids.{ContextId, MandateId, MerchantId}
use mandate_ledger.Money.{Money}

pub data PaymentState : Type 0 where
  authorized paid settled settlement_failed compensated delivered expired : PaymentState

-- `PaymentState::can_transition_to`
unfoldable pub can_transition_to : PaymentState → PaymentState → Bool
can_transition_to authorized paid = true
can_transition_to authorized expired = true
can_transition_to paid settled = true
can_transition_to paid settlement_failed = true
can_transition_to settlement_failed compensated = true
can_transition_to settled delivered = true
can_transition_to _ _ = false

-- `PaymentState::is_terminal`
unfoldable pub is_terminal : PaymentState → Bool
is_terminal compensated = true
is_terminal delivered = true
is_terminal expired = true
is_terminal _ = false

-- The derived `PartialEq`.
abbrev pub state_beq : PaymentState → PaymentState → Bool
state_beq authorized authorized = true
state_beq paid paid = true
state_beq settled settled = true
state_beq settlement_failed settlement_failed = true
state_beq compensated compensated = true
state_beq delivered delivered = true
state_beq expired expired = true
state_beq _ _ = false

pub state_beq_iff : (a b : PaymentState) → (state_beq a b ≡ true) ↔ (a ≡ b)
state_beq_iff a b = ground arith

instance abbrev pub state_eq : Eq PaymentState
state_eq = record { beq = state_beq; beq_iff = state_beq_iff }

pub record Authorized (Decimal : Type 0) : Type 0 where
  pub ctx : ContextId
  pub mandate_id : MandateId
  pub cart_hash : Hash32
  pub merchant : MerchantId
  pub amount : Money Decimal

pub record Paid : Type 0 where
  pub ctx : ContextId
  pub rail : Text
  pub reference : Text
  pub idempotency_key : Hash32

pub record Settled : Type 0 where
  pub ctx : ContextId
  pub reference : Text

pub record SettlementFailed : Type 0 where
  pub ctx : ContextId
  pub reason : Text

pub record Compensated : Type 0 where
  pub ctx : ContextId

pub record Delivered : Type 0 where
  pub ctx : ContextId
  pub receipt_reference : Text

-- Outcome of `record_settlement`.
pub data Settlement : Type 0 where
  final : Settled → Settlement
  pending : Text → Settlement
  failed : SettlementFailed → Settlement

-- A context's current position, reconstructed from the store.
pub data Resumed (Decimal : Type 0) : Type 0 where
  is_authorized : Authorized Decimal → Resumed Decimal
  is_paid : Paid → Resumed Decimal
  is_settled : Settled → Resumed Decimal
  is_settlement_failed : SettlementFailed → Resumed Decimal
  is_compensated : Compensated → Resumed Decimal
  is_delivered : Delivered → Resumed Decimal
  is_expired : ContextId → Resumed Decimal

-- Every token a context has earned so far.
pub record Reached (Decimal : Type 0) : Type 0 where
  pub state : PaymentState
  pub reached_authorized : Authorized Decimal
  pub reached_paid : Option Paid
  pub reached_settled : Option Settled
  pub reached_failed : Option SettlementFailed
  pub reached_compensated : Option Compensated
  pub reached_delivered : Option Delivered
  pub reached_expired : Bool

-- `Resumed::state`
unfoldable pub resumed_state : {Decimal : Type 0} → Resumed Decimal → PaymentState
resumed_state (is_authorized t) = authorized
resumed_state (is_paid t) = paid
resumed_state (is_settled t) = settled
resumed_state (is_settlement_failed t) = settlement_failed
resumed_state (is_compensated t) = compensated
resumed_state (is_delivered t) = delivered
resumed_state (is_expired c) = expired
