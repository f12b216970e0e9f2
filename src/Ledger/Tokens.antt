-- ===== src/Ledger/Tokens.antt =====
-- The tokens that a record has earned (crates/ml-core/src/ledger.rs, the functions below the engine).
use mandate_ledger.Prelude.{Option, none, some, ◌∷◌, ◌++◌, Result, ok, err, ◌>>=◌}
use mandate_ledger.Text.{Text, utf8, codes}
use mandate_ledger.Hash.{Hash32, Sha256, hash_of}
use mandate_ledger.Ids.{ContextId}
use mandate_ledger.State.{Authorized, Paid, Settled, SettlementFailed, Delivered}
use mandate_ledger.Error.{LedgerError, store_error, corrupt}
use mandate_ledger.Store.Interface.{Record}

-- `corrupt`
abbrev pub corrupted : {Decimal : Type 0} → Text → LedgerError Decimal
corrupted message = store_error (corrupt message)

-- `ok_or_else(|| corrupt(..))`
abbrev pub or_corrupt : {Decimal A : Type 0} → Option A → Text → Result (LedgerError Decimal) A
or_corrupt (some a) message = ok a
or_corrupt none message = err (corrupted message)

module _ {Decimal : Type 0} where
  unfoldable pub authorized_from : Record Decimal → Authorized Decimal
  authorized_from rec = record {
    ctx = rec.ctx;
    mandate_id = rec.mandate_id;
    cart_hash = rec.cart_hash;
    merchant = rec.merchant;
    amount = rec.amount;
  }

  unfoldable pub paid_from : Record Decimal → Result (LedgerError Decimal) Paid
  paid_from rec = or_corrupt rec.rail (codes "paid without rail") >>= λ rail.
      or_corrupt rec.payment_reference (codes "paid without reference") >>= λ reference.
      or_corrupt rec.idempotency_key (codes "paid without idempotency key") >>= λ key.
      ok (record { ctx = rec.ctx; rail = rail; reference = reference; idempotency_key = key })

  unfoldable pub settled_from : Record Decimal → Result (LedgerError Decimal) Settled
  settled_from rec =
      or_corrupt rec.settlement_reference (codes "settled without reference") >>= λ reference.
      ok (record { ctx = rec.ctx; reference = reference })

  unfoldable pub failed_from : Record Decimal → Result (LedgerError Decimal) SettlementFailed
  failed_from rec = or_corrupt rec.failure_reason (codes "failed without reason") >>= λ reason.
      ok (record { ctx = rec.ctx; reason = reason })

  unfoldable pub delivered_from : Record Decimal → Result (LedgerError Decimal) Delivered
  delivered_from rec =
      or_corrupt rec.receipt_reference (codes "delivered without receipt") >>= λ reference.
      ok (record { ctx = rec.ctx; receipt_reference = reference })

-- `idempotency_key`
unfoldable pub idempotency_key : ⦃sha : Sha256⦄ → ContextId → Text → Text → Hash32
idempotency_key ctx rail nonce = hash_of (utf8 ctx ++ (0x1f ∷ utf8 rail ++ (0x1f ∷ utf8 nonce)))
