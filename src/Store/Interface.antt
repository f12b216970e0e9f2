-- ===== src/Store/Interface.antt =====
-- The persistence boundary: `Record`, `AppendOutcome`, `RecordFilter` and `trait Store`
-- (crates/ml-core/src/store.rs). A method takes the state of the store and gives it back, reads too,
-- since another caller may have moved the store in between.
use mandate_ledger.Prelude.{
  ℕ, Bool, true, ◌&&◌, Option, none, some, List, Result, ◌==◌, list_eq, nat_eq,
}
use mandate_ledger.Text.{Text}
use mandate_ledger.Hash.{Hash32}
use mandate_ledger.Time.{Timestamp}
use mandate_ledger.Ids.{ContextId, MandateId, MerchantId}
use mandate_ledger.Money.{Money}
use mandate_ledger.State.{PaymentState, state_eq}
use mandate_ledger.Mandate.Body.{Mandate}
use mandate_ledger.Event.{Event, EventBody}
use mandate_ledger.Error.{StoreError}

pub record Record (Decimal : Type 0) : Type 0 where
  pub ctx : ContextId
  pub state : PaymentState
  pub mandate_id : MandateId
  pub cart_hash : Hash32
  pub merchant : MerchantId
  pub amount : Money Decimal
  pub rail : Option Text
  pub payment_reference : Option Text
  pub idempotency_key : Option Hash32
  pub settlement_reference : Option Text
  pub failure_reason : Option Text
  pub receipt_reference : Option Text

-- `DENIAL_CAP`
abbrev pub denial_cap : ℕ
denial_cap = 32

pub data AppendOutcome (Decimal : Type 0) : Type 0 where
  appended : Event Decimal → AppendOutcome Decimal
  budget_exceeded : Money Decimal → AppendOutcome Decimal
  velocity_exceeded : ℕ → AppendOutcome Decimal
  nonce_already_used revoked denials_capped : AppendOutcome Decimal

pub record RecordFilter : Type 0 where
  pub mandate : Option MandateId
  pub state : Option PaymentState

-- `RecordFilter::matches`
unfoldable pub filter_matches : {Decimal : Type 0} → RecordFilter → Record Decimal → Bool
filter_matches f r =
    elim f.mandate [ none ↦ true | some m ↦ m == r.mandate_id ]
    && elim f.state [ none ↦ true | some s ↦ s == r.state ]

abbrev pub Method : Type 0 → Type 0 → Type 0
Method S A = S → Result StoreError A × S

-- `trait Store`
pub record Store (Decimal S : Type 0) : Type 0 where
  pub get_record : ContextId → Method S (Option (Record Decimal))
  pub events : ContextId → Method S (List (Event Decimal))
  pub authorized_mandate : ContextId → Method S (Option (Mandate Decimal))
  pub append : ContextId → Timestamp → EventBody Decimal → Method S (AppendOutcome Decimal)
  pub events_after : ℕ → ℕ → Method S (List (Event Decimal))
  pub scan : RecordFilter → Option ContextId → ℕ → Method S (List (Record Decimal))
  pub last_seq : Method S ℕ
  pub reserved : MandateId → Method S (Option (Money Decimal))
  pub is_revoked : MandateId → Method S Bool
  pub revoke : MandateId → Method S (Unit {0})
