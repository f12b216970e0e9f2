-- ===== src/Error.antt =====
-- Error and denial types (crates/ml-core/src/error.rs).
use mandate_ledger.Prelude.{Bool, Option, none, some}
use mandate_ledger.Text.{Text}
use mandate_ledger.Hash.{CanonicalizeError}
use mandate_ledger.Ids.{ContextId}
use mandate_ledger.Money.{MoneyError}
use mandate_ledger.State.{PaymentState}
use mandate_ledger.Reason.{DenyReason, Stage}
use mandate_ledger.Mandate.Errors.{Detail}

pub record Denied (Decimal : Type 0) : Type 0 where
  pub ctx : ContextId
  pub stage : Stage
  pub reason : DenyReason
  pub detail : Detail Decimal
  pub recorded : Bool

pub data StoreError : Type 0 where
  illegal_transition : ContextId → Option PaymentState → PaymentState → StoreError
  corrupt : Text → StoreError
  backend : Text → StoreError
  store_canonicalize : CanonicalizeError → StoreError
  store_money : MoneyError → StoreError

pub data LedgerError (Decimal : Type 0) : Type 0 where
  denied : Denied Decimal → LedgerError Decimal
  store_error : StoreError → LedgerError Decimal
  rail_unavailable : Text → LedgerError Decimal
  ledger_canonicalize : CanonicalizeError → LedgerError Decimal

-- `LedgerError::reason`
unfoldable pub error_reason : {Decimal : Type 0} → LedgerError Decimal → Option DenyReason
error_reason (denied d) = some d.reason
error_reason (store_error e) = none
error_reason (rail_unavailable t) = none
error_reason (ledger_canonicalize e) = none
