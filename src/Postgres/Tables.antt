-- ===== src/Postgres/Tables.antt =====
-- The tables of the database (crates/ml-store-postgres/src/migrations/0001_initial.sql) and what the
-- server and serde_json do. Columns are texts and numbers, as the statements write them; a NUMERIC
-- keeps the decimal that it is given. A table with a primary key is a map from the key.
use mandate_ledger.Prelude.{ℕ, List, [], Option, Result, ◌≡◌, ok}
use mandate_ledger.Prelude.Int.{ℤ}
use mandate_ledger.Prelude.Map.{Map}
use mandate_ledger.Text.{Text, codes}
use mandate_ledger.Event.{
  EventBody, authorized_event, denied_event, paid_event, settled_event, failed_event,
  compensated_event, delivered_event, expired_event,
}

-- `ml_events`; `Json` is a JSONB value.
pub record EventRow (Json : Type 0) : Type 0 where
  pub seq : ℤ
  pub ctx : Text
  pub at : ℤ
  pub prev_hash : Text
  pub hash : Text
  pub body : Json

-- `ml_contexts`
pub record ContextRow (Decimal : Type 0) : Type 0 where
  pub ctx : Text
  pub state : Text
  pub mandate_id : Text
  pub cart_hash : Text
  pub merchant : Text
  pub amount : Decimal
  pub currency : Text
  pub rail : Option Text
  pub payment_reference : Option Text
  pub idempotency_key : Option Text
  pub settlement_reference : Option Text
  pub failure_reason : Option Text
  pub receipt_reference : Option Text

-- `ml_reservations`
pub record ReservationRow (Decimal : Type 0) : Type 0 where
  pub amount : Decimal
  pub currency : Text

-- `ml_authorizations`, without its serial number, which nothing reads.
pub record AuthorizationRow : Type 0 where
  pub mandate_id : Text
  pub ctx : Text
  pub at : ℤ

-- The committed rows. `event_seq` is the last number drawn from the sequence `ml_event_seq`.
pub record Tables (Decimal Json : Type 0) : Type 0 where
  pub event_seq : ℕ
  pub events : List (EventRow Json)
  pub contexts : Map Text (ContextRow Decimal)
  pub reservations : Map Text (ReservationRow Decimal)
  pub authorizations : List AuthorizationRow
  pub nonces : Map (Text × Text) Text
  pub revocations : List Text

-- `truncate_all`
abbrev pub no_rows : {Decimal Json : Type 0} → Tables Decimal Json
no_rows = record {
  event_seq = 0;
  events = [];
  contexts = [];
  reservations = [];
  authorizations = [];
  nonces = [];
  revocations = [];
}

-- `serde_json::to_value` and `from_value` of a body, with the message of an error; the operator
-- `->>'type'`; and the message of a violated constraint, and that of a sequence at its end.
pub record Sql (Decimal Json : Type 0) : Type 0 where
  pub to_value : EventBody Decimal → Result Text Json
  pub from_value : Json → Result Text (EventBody Decimal)
  pub type_tag : Json → Text
  pub violation : Text → Text
  pub exhausted : Text

-- The tag of a body in JSON, by the `serde` attribute of `EventBody`.
unfoldable pub body_tag : {Decimal : Type 0} → EventBody Decimal → Text
body_tag (authorized_event mandate cart key) = codes "authorized"
body_tag (denied_event stage reason detail) = codes "denied"
body_tag (paid_event rail reference nonce amount key) = codes "paid"
body_tag (settled_event rail reference) = codes "settled"
body_tag (failed_event rail reason) = codes "settlement_failed"
body_tag (compensated_event reference) = codes "compensated"
body_tag (delivered_event receipt) = codes "delivered"
body_tag expired_event = codes "expired"

-- A body's JSON has the body's tag.
pub record SqlLaws (Decimal Json : Type 0) ⦃sql : Sql Decimal Json⦄ : Type 0 where
  pub tagged :
      (body : EventBody Decimal) (j : Json)
      → sql.to_value body ≡ ok j
      → sql.type_tag j ≡ body_tag body
