-- ===== src/Postgres/Rows.antt =====
-- What is written into a row is read back from it.
use mandate_ledger.Prelude.{◌≡◌, refl, ok, arith}
use mandate_ledger.Text.{Text}
use mandate_ledger.Text.Codec.{HexDecode, HexLaws}
use mandate_ledger.Hash.{Hash32}
use mandate_ledger.Hash.Display.{IsHash, display_hash, parse_hash-display_hash}
use mandate_ledger.Ids.{Hex, ContextId, MandateId, new_id, identity, lowercase_trimmed}
use mandate_ledger.Money.{Money, Currency, new_currency}
use mandate_ledger.State.{
  PaymentState, authorized, paid, settled, settlement_failed, compensated, delivered, expired,
}
use mandate_ledger.Event.{
  EventBody, authorized_event, denied_event, paid_event, settled_event, failed_event,
  compensated_event, delivered_event, expired_event,
}
use mandate_ledger.Store.Interface.{Record}
use mandate_ledger.Store.Commit.{update_record}
use mandate_ledger.Postgres.Tables.{ContextRow}
use mandate_ledger.Postgres.Convert.{
  state_to_sql, state_from_sql, hash_from_sql, money_from_sql, key_from_sql, record_from_row,
}
use mandate_ledger.Postgres.Write.{update_row, new_row}
use mandate_ledger.Postgres.Agreement.{record_for}

-- What the types of the source say of an identifier, a merchant and a currency.
abbrev pub IsId : Text → Type 0
IsId s = new_id identity s ≡ ok s

abbrev pub IsMerchant : Text → Type 0
IsMerchant s = new_id lowercase_trimmed s ≡ ok s

abbrev pub IsCurrency : Currency → Type 0
IsCurrency c = new_currency c ≡ ok c

-- What the types of the source say of the values that a body brings into the tables.
abbrev pub IsTyped : {Decimal : Type 0} → ContextId → EventBody Decimal → Type 0
IsTyped ctx (authorized_event mandate cart key) =
    IsId ctx
    × IsId mandate.body.id
    × IsHash cart.hash
    × IsMerchant cart.claims.merchant
    × IsCurrency cart.claims.total.currency
IsTyped ctx (paid_event rail reference nonce amount key) = IsHash key
IsTyped ctx _ = Unit {0}

pub state_from_sql-state_to_sql : (s : PaymentState) → state_from_sql (state_to_sql s) ≡ ok s
unfolding state_from_sql state_to_sql
state_from_sql-state_to_sql authorized = refl
state_from_sql-state_to_sql paid = refl
state_from_sql-state_to_sql settled = refl
state_from_sql-state_to_sql settlement_failed = refl
state_from_sql-state_to_sql compensated = refl
state_from_sql-state_to_sql delivered = refl
state_from_sql-state_to_sql expired = refl

-- A currency that was read is one.
pub money_from_sql-ok :
    {Decimal : Type 0} (amount : Decimal) (currency : Text) (m : Money Decimal)
    → money_from_sql amount currency ≡ ok m
    → (m.amount ≡ amount) × (m.currency ≡ currency) × IsCurrency currency
unfolding money_from_sql new_currency
money_from_sql-ok amount currency m h = ground arith

pub money_from_sql-money :
    {Decimal : Type 0} (m : Money Decimal)
    → IsCurrency m.currency
    → money_from_sql m.amount m.currency ≡ ok m
unfolding money_from_sql
money_from_sql-money m h = ground (arith, h)

module _ ⦃hex : Hex⦄ ⦃dec : HexDecode⦄ ⦃laws : HexLaws⦄ where
  pub hash_from_sql-display_hash :
      (hash : Hash32) → IsHash hash → hash_from_sql (display_hash hash) ≡ ok hash
  unfolding hash_from_sql
  hash_from_sql-display_hash hash h = rw (parse_hash-display_hash hash h) refl

  -- A new row is read as the record that it is made for.
  pub record_from_row-new_row :
      {Decimal : Type 0} (ctx : ContextId) (mandate : MandateId) (cart_hash : Hash32)
      (merchant : Text) (amount : Money Decimal)
      → IsId ctx
      → IsId mandate
      → IsHash cart_hash
      → IsMerchant merchant
      → IsCurrency amount.currency
      → record_from_row (new_row ctx (mandate, cart_hash, merchant, amount))
        ≡ ok (record_for ctx (mandate, cart_hash, merchant, amount))
  unfolding record_from_row new_row key_from_sql
  record_from_row-new_row ctx mandate cart_hash merchant amount c m h n u = ground (
    arith,
    c,
    m,
    n,
    hash_from_sql-display_hash cart_hash h,
    money_from_sql-money amount u,
    state_from_sql-state_to_sql authorized,
  )

  -- An update of the row is the update of the record that is read from it.
  pub record_from_row-update_row :
      {Decimal : Type 0} (ctx : ContextId) (body : EventBody Decimal) (row : ContextRow Decimal)
      (r : Record Decimal)
      → IsTyped ctx body
      → record_from_row row ≡ ok r
      → record_from_row (update_row body row) ≡ ok (update_record body r)
  unfolding record_from_row update_row update_record key_from_sql
  record_from_row-update_row ctx (authorized_event m c k) row r typed h = h
  record_from_row-update_row ctx (denied_event s w d) row r typed h = h
  record_from_row-update_row ctx (paid_event rail reference nonce amount key) row r typed h =
      ground (arith, hash_from_sql-display_hash key typed, state_from_sql-state_to_sql paid)
  record_from_row-update_row ctx (settled_event rail reference) row r typed h =
      ground (arith, state_from_sql-state_to_sql settled)
  record_from_row-update_row ctx (failed_event rail reason) row r typed h =
      ground (arith, state_from_sql-state_to_sql settlement_failed)
  record_from_row-update_row ctx (compensated_event reference) row r typed h =
      ground (arith, state_from_sql-state_to_sql compensated)
  record_from_row-update_row ctx (delivered_event receipt) row r typed h =
      ground (arith, state_from_sql-state_to_sql delivered)
  record_from_row-update_row ctx expired_event row r typed h =
      ground (arith, state_from_sql-state_to_sql expired)
