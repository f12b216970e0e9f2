-- ===== src/Ledger/Finish.antt =====
-- `Ledger::compensate`, `Ledger::expire` and `Ledger::record_delivery` (crates/ml-core/src/ledger.rs).
use mandate_ledger.Prelude.{Option, none, some}
use mandate_ledger.Text.{Text, codes}
use mandate_ledger.Ids.{ContextId}
use mandate_ledger.State.{
  PaymentState, Authorized, Settled, SettlementFailed, Compensated, Delivered, authorized, settled,
  settlement_failed, compensated, delivered, expired,
}
use mandate_ledger.Reason.{compensation, delivery, expiry, context_not_found, invalid_state}
use mandate_ledger.Mandate.Errors.{no_context, context_is}
use mandate_ledger.Event.{DeliveryReceipt, compensated_event, delivered_event, expired_event}
use mandate_ledger.Store.Interface.{Record, Store}
use mandate_ledger.Ledger.Action.{Action, pure, call, lift, ◌>>=◌, ◌>>◌}
use mandate_ledger.Ledger.Tokens.{or_corrupt}
use mandate_ledger.Ledger.Engine.{Ledger, deny, append_plain, state}

module _ {Decimal S Proof Finality : Type 0} ⦃st : Store Decimal S⦄
    (self : Ledger Decimal Proof Finality) where
  abbrev pub compensate_in :
      ContextId → Option Text → Option PaymentState → Action Decimal S Compensated
  compensate_in ctx reference (some settlement_failed) =
      append_plain self.now ctx (compensated_event reference) >> pure (record { ctx = ctx })
  compensate_in ctx reference (some compensated) = pure (record { ctx = ctx })
  compensate_in ctx reference (some other) =
      deny self.now ctx compensation invalid_state (context_is other)
  compensate_in ctx reference none =
      deny self.now ctx compensation context_not_found (no_context ctx)

  -- `Ledger::compensate`
  unfoldable pub compensate : SettlementFailed → Option Text → Action Decimal S Compensated
  compensate token reference = state token.ctx >>= compensate_in token.ctx reference

  abbrev pub expire_in : ContextId → Option PaymentState → Action Decimal S (Unit {0})
  expire_in ctx (some authorized) = append_plain self.now ctx expired_event
  expire_in ctx (some expired) = pure tt
  expire_in ctx (some other) = deny self.now ctx expiry invalid_state (context_is other)
  expire_in ctx none = deny self.now ctx expiry context_not_found (no_context ctx)

  -- `Ledger::expire`
  unfoldable pub expire : Authorized Decimal → Action Decimal S (Unit {0})
  expire token = state token.ctx >>= expire_in token.ctx

  abbrev pub deliver_in :
      ContextId → DeliveryReceipt → Record Decimal → PaymentState → Action Decimal S Delivered
  deliver_in ctx receipt rec settled =
      append_plain self.now ctx (delivered_event receipt)
      >> pure (record { ctx = ctx; receipt_reference = receipt.reference })
  deliver_in ctx receipt rec delivered =
      lift (or_corrupt rec.receipt_reference (codes "delivered without receipt")) >>= λ reference.
      pure (record { ctx = ctx; receipt_reference = reference })
  deliver_in ctx receipt rec other = deny self.now ctx delivery invalid_state (context_is other)

  -- `Ledger::record_delivery`
  unfoldable pub record_delivery : Settled → DeliveryReceipt → Action Decimal S Delivered
  record_delivery token receipt = call (st.get_record token.ctx) >>= λ found. elim found [
    | none ↦ deny self.now token.ctx delivery context_not_found (no_context token.ctx)
    | some rec ↦ deliver_in token.ctx receipt rec rec.state
  ]
