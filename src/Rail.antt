-- ===== src/Rail.antt =====
-- The rail boundary (crates/ml-core/src/rail.rs).
use mandate_ledger.Prelude.{Option, Result}
use mandate_ledger.Text.{Text}
use mandate_ledger.Hash.{Hash32}
use mandate_ledger.Ids.{ContextId, MerchantId}
use mandate_ledger.Money.{Money}

pub record PaymentExpectation (Decimal : Type 0) : Type 0 where
  pub ctx : ContextId
  pub cart_hash : Hash32
  pub amount : Money Decimal
  pub merchant : MerchantId
  pub recorded_reference : Option Text

pub record VerifiedProof (Decimal : Type 0) : Type 0 where
  pub reference : Text
  pub nonce : Text
  pub amount : Money Decimal
  pub bound_ctx : Option ContextId
  pub bound_cart : Option Hash32
  pub bound_merchant : Option MerchantId

pub record SettlementExpectation (Decimal : Type 0) : Type 0 where
  pub ctx : ContextId
  pub payment_reference : Text
  pub amount : Money Decimal
  pub merchant : MerchantId

pub data FinalityStatus : Type 0 where
  final_status : Text → FinalityStatus
  pending_status : Text → FinalityStatus
  failed_status : Text → FinalityStatus

pub data RailError : Type 0 where
  invalid_proof : Text → RailError
  unavailable : Text → RailError

-- `trait Rail`: its answers during one call of the engine.
pub record Rail (Decimal Proof Finality : Type 0) : Type 0 where
  pub id : Text
  pub verify_proof : Proof → PaymentExpectation Decimal → Result RailError (VerifiedProof Decimal)
  pub check_finality : Finality → SettlementExpectation Decimal → Result RailError FinalityStatus
