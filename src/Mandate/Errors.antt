-- ===== src/Mandate/Errors.antt =====
-- Errors of mandate construction and verification, and the text that a refusal carries
-- (crates/ml-core/src/mandate.rs). A message with values in it is kept as its format and arguments:
-- `Display` of a decimal or a key is third-party code, and nothing reads a message back.
use mandate_ledger.Prelude.{ℕ, Option}
use mandate_ledger.Text.{Text, Bytes}
use mandate_ledger.Hash.{CanonicalizeError}
use mandate_ledger.Time.{Timestamp}
use mandate_ledger.Ids.{MandateId, PrincipalId, MerchantId, Category, ContextId}
use mandate_ledger.Money.{Currency, Money, MoneyError}
use mandate_ledger.Cart.{AttestationLevel}
use mandate_ledger.State.{PaymentState}

pub data MandateError : Type 0 where
  invalid_merchant_pattern : Text → MandateError
  invalid_scope : Text → MandateError
  not_subset : MandateId → MandateError
  bad_signer_key signature_invalid : MandateError
  canonicalize : CanonicalizeError → MandateError

-- The `detail` of a denial, one constructor for each `format!` of the engine.
pub data Detail (Decimal : Type 0) : Type 0 where
  plain : Text → Detail Decimal
  mandate_error : MandateError → Detail Decimal
  key_not_trusted : Bytes → PrincipalId → Detail Decimal
  mandate_is_revoked : MandateId → Detail Decimal
  valid_from_now valid_until_now : Timestamp → Timestamp → Detail Decimal
  cart_attestation : AttestationLevel → AttestationLevel → Detail Decimal
  merchant_not_in_scope : MerchantId → Detail Decimal
  category_not_in_scope : Category → Detail Decimal
  currency_differs : Currency → Currency → Detail Decimal
  total_is_negative : Money Decimal → Detail Decimal
  money_error : MoneyError → Detail Decimal
  exceeds_txn_cap : Money Decimal → Money Decimal → Detail Decimal
  exceeds_budget : Money Decimal → Money Decimal → Detail Decimal
  velocity_count : ℕ → Detail Decimal
  chain_pruned : PaymentState → Detail Decimal
  no_context : ContextId → Detail Decimal
  different_payment : PaymentState → Detail Decimal
  context_is : PaymentState → Detail Decimal
  proof_amount : Money Decimal → Money Decimal → Detail Decimal
  proof_pays : MerchantId → MerchantId → Detail Decimal
  paid_via : Option Text → Text → Detail Decimal
