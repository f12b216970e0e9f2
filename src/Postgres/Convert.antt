-- ===== src/Postgres/Convert.antt =====
-- Mapping between the core's types and their columns (crates/ml-store-postgres/src/convert.rs).
use mandate_ledger.Prelude.{
  ℕ, Option, none, some, ◌++◌, Result, ok, err, ◌>>=◌, map_err, leb, if◌then◌else◌, ◌^◌, ◌-◌, ◌==◌,
  list_eq, nat_eq,
}
use mandate_ledger.Prelude.Int.{ℤ, pos, negsuc}
use mandate_ledger.Text.{Text, codes}
use mandate_ledger.Text.Codec.{HexDecode}
use mandate_ledger.Time.{i64_max}
use mandate_ledger.Hash.{Hash32}
use mandate_ledger.Hash.Display.{parse_hash}
use mandate_ledger.Ids.{IdError, new_id, identity, lowercase_trimmed}
use mandate_ledger.Money.{Money, new_currency}
use mandate_ledger.Cart.Messages.{display_id_error, display_money_error}
use mandate_ledger.State.{
  PaymentState, authorized, paid, settled, settlement_failed, compensated, delivered, expired,
}
use mandate_ledger.Event.{Event}
use mandate_ledger.Error.{StoreError, corrupt}
use mandate_ledger.Store.Interface.{Record}
use mandate_ledger.Postgres.Tables.{EventRow, ContextRow, Sql}

-- `bigint` of a number that is not negative
unfoldable pub bigint : ℕ → ℤ
bigint n = if leb n (2 ^ 63 - 1) then pos n else i64_max

-- `state_to_sql`
unfoldable pub state_to_sql : PaymentState → Text
state_to_sql authorized = codes "authorized"
state_to_sql paid = codes "paid"
state_to_sql settled = codes "settled"
state_to_sql settlement_failed = codes "settlement_failed"
state_to_sql compensated = codes "compensated"
state_to_sql delivered = codes "delivered"
state_to_sql expired = codes "expired"

-- `state_from_sql`
unfoldable pub state_from_sql : Text → Result StoreError PaymentState
state_from_sql value =
    if value == codes "authorized"
    then ok authorized
    else if value == codes "paid"
    then ok paid
    else if value == codes "settled"
    then ok settled
    else if value == codes "settlement_failed"
    then ok settlement_failed
    else if value == codes "compensated"
    then ok compensated
    else if value == codes "delivered"
    then ok delivered
    else if value == codes "expired"
    then ok expired
    else err (corrupt (codes "unknown payment state `" ++ (value ++ codes "`")))

-- `hash_from_sql`
unfoldable pub hash_from_sql : ⦃dec : HexDecode⦄ → Text → Result StoreError Hash32
unfolding parse_hash
hash_from_sql value =
    map_err (λ e. corrupt (codes "unparseable hash `" ++ (value ++ codes "`"))) (parse_hash value)

-- `money_from_sql`
unfoldable pub money_from_sql :
    {Decimal : Type 0} → Decimal → Text → Result StoreError (Money Decimal)
unfolding display_money_error new_currency
money_from_sql amount currency =
    map_err (λ e. corrupt (display_money_error e)) (new_currency currency) >>= λ c.
    ok (record { amount = amount; currency = c })

-- `.map_err(corrupt)` on an identifier
abbrev pub id_from_sql : Result IdError Text → Result StoreError Text
id_from_sql r = map_err (λ e. corrupt (display_id_error e)) r

-- `idempotency_key.as_deref().map(hash_from_sql).transpose()`
unfoldable pub key_from_sql : ⦃dec : HexDecode⦄ → Option Text → Result StoreError (Option Hash32)
unfolding hash_from_sql
key_from_sql none = ok none
key_from_sql (some value) = hash_from_sql value >>= λ hash. ok (some hash)

-- `record_from_row`
unfoldable pub record_from_row :
    {Decimal : Type 0} → ⦃dec : HexDecode⦄ → ContextRow Decimal → Result StoreError (Record Decimal)
unfolding state_from_sql hash_from_sql money_from_sql key_from_sql new_id display_id_error
record_from_row row = id_from_sql (new_id identity row.ctx) >>= λ ctx.
    state_from_sql row.state >>= λ state.
    id_from_sql (new_id identity row.mandate_id) >>= λ mandate_id.
    hash_from_sql row.cart_hash >>= λ cart_hash.
    id_from_sql (new_id lowercase_trimmed row.merchant) >>= λ merchant.
    money_from_sql row.amount row.currency >>= λ amount.
    key_from_sql row.idempotency_key >>= λ idempotency_key. ok (record {
      ctx = ctx;
      state = state;
      mandate_id = mandate_id;
      cart_hash = cart_hash;
      merchant = merchant;
      amount = amount;
      rail = row.rail;
      payment_reference = row.payment_reference;
      idempotency_key = idempotency_key;
      settlement_reference = row.settlement_reference;
      failure_reason = row.failure_reason;
      receipt_reference = row.receipt_reference;
    })

-- `u64::try_from(n).map_err(corrupt)`
unfoldable pub u64_from : ℤ → Result StoreError ℕ
u64_from (pos n) = ok n
u64_from (negsuc n) = err (corrupt (codes "out of range integral type conversion attempted"))

-- `event_from_row`
unfoldable pub event_from_row :
    {Decimal Json : Type 0}
    → ⦃sql : Sql Decimal Json⦄ → ⦃dec : HexDecode⦄ → EventRow Json
    → Result StoreError (Event Decimal)
unfolding hash_from_sql u64_from new_id display_id_error
event_from_row ⦃sql⦄ row = map_err corrupt (sql.from_value row.body) >>= λ body.
    u64_from row.seq >>= λ seq. id_from_sql (new_id identity row.ctx) >>= λ ctx.
    hash_from_sql row.prev_hash >>= λ prev_hash. hash_from_sql row.hash >>= λ hash.
    ok (record {
      seq = seq;
      ctx = ctx;
      at = row.at;
      prev_hash = prev_hash;
      hash = hash;
      body = body;
    })
