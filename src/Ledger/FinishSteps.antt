-- ===== src/Ledger/FinishSteps.antt =====
-- The operations after the payment move the in-memory store by its steps, two appends at most.
use mandate_ledger.Prelude.{
  not, arith, Option, none, some, Result, ok, err, ◌==◌, list_eq, nat_eq, option_eq,
}
use mandate_ledger.Prelude.Map.{get}
use mandate_ledger.Text.{Text, codes}
use mandate_ledger.Hash.{Sha256, CanonicalJson}
use mandate_ledger.Ids.{ContextId, Hex}
use mandate_ledger.Money.{DecimalOps}
use mandate_ledger.State.{
  PaymentState, final, pending, failed, Authorized, Paid, Settled, SettlementFailed, authorized,
  paid, settled, settlement_failed, compensated, delivered, expired, state_eq,
}
use mandate_ledger.Reason.{
  settlement, compensation, expiry, delivery, context_not_found, finality_invalid, rail_mismatch,
  invalid_state,
}
use mandate_ledger.Mandate.Errors.{plain, no_context, context_is, paid_via}
use mandate_ledger.Mandate.Body.{Ed25519, MandateBody}
use mandate_ledger.Event.{
  Preimage, settled_event, failed_event, compensated_event, delivered_event, expired_event,
  DeliveryReceipt,
}
use mandate_ledger.Error.{rail_unavailable}
use mandate_ledger.Rail.{
  FinalityStatus, RailError, invalid_proof, unavailable, final_status, pending_status,
  failed_status,
}
use mandate_ledger.Store.Interface.{Record}
use mandate_ledger.Store.Memory.{memory_store}
use mandate_ledger.Ledger.Tokens.{or_corrupt, settled_from, failed_from}
use mandate_ledger.Ledger.Engine.{Ledger, option_state, state}
use mandate_ledger.Ledger.Settle.{
  replay_by_state, settlement_replay, after_finality, ask_finality, record_settlement,
}
use mandate_ledger.Ledger.Finish.{
  compensate_in, compensate, expire_in, expire, deliver_in, record_delivery,
}
use mandate_ledger.Ledger.Runs.{
  Runs, Runs-lift, Runs-weaken, Runs-read, Runs-bind, deny-Runs, append_plain-Runs, Runs-if,
  Runs-option,
}

module _ {Decimal Proof Finality : Type 0} ⦃ops : DecimalOps Decimal⦄ ⦃sha : Sha256⦄ ⦃hex : Hex⦄
    ⦃ed : Ed25519⦄ ⦃json : CanonicalJson (Preimage Decimal)⦄
    ⦃body_json : CanonicalJson (MandateBody Decimal)⦄ (self : Ledger Decimal Proof Finality) where
  settlement_replay-Runs :
      (ctx : ContextId) (rec : Record Decimal) (s : PaymentState)
      → Runs 1 (replay_by_state self ctx rec s)
  settlement_replay-Runs ctx rec paid = Runs-lift 1 (ok none)
  settlement_replay-Runs ctx rec settled =
      Runs-bind 0 1 (Runs-lift 0 (settled_from rec)) (λ t. Runs-lift 1 (ok (some (final t))))
  settlement_replay-Runs ctx rec delivered =
      Runs-bind 0 1 (Runs-lift 0 (settled_from rec)) (λ t. Runs-lift 1 (ok (some (final t))))
  settlement_replay-Runs ctx rec settlement_failed =
      Runs-bind 0 1 (Runs-lift 0 (failed_from rec)) (λ t. Runs-lift 1 (ok (some (failed t))))
  settlement_replay-Runs ctx rec compensated =
      Runs-bind 0 1 (Runs-lift 0 (failed_from rec)) (λ t. Runs-lift 1 (ok (some (failed t))))
  settlement_replay-Runs ctx rec authorized =
      deny-Runs self.now ctx settlement invalid_state (context_is authorized)
  settlement_replay-Runs ctx rec expired =
      deny-Runs self.now ctx settlement invalid_state (context_is expired)

  after_finality-Runs :
      (ctx : ContextId) (r : Result RailError FinalityStatus) → Runs 1 (after_finality self ctx r)
  after_finality-Runs ctx (err (invalid_proof detail)) =
      deny-Runs self.now ctx settlement finality_invalid (plain detail)
  after_finality-Runs ctx (err (unavailable detail)) = Runs-lift 1 (err (rail_unavailable detail))
  after_finality-Runs ctx (ok (final_status reference)) =
      Runs-bind 1 0 (append_plain-Runs self.now ctx (settled_event self.rail.id reference))
        (λ u. Runs-lift 0 (ok _))
  after_finality-Runs ctx (ok (pending_status reason)) = Runs-lift 1 (ok (pending reason))
  after_finality-Runs ctx (ok (failed_status reason)) =
      Runs-bind 1 0 (append_plain-Runs self.now ctx (failed_event self.rail.id reason))
        (λ u. Runs-lift 0 (ok _))

  ask_finality-Runs :
      (ctx : ContextId) (rec : Record Decimal) (finality : Finality)
      → Runs 1 (ask_finality self ctx rec finality)
  unfolding ask_finality
  ask_finality-Runs ctx rec finality =
      Runs-if 1 (not (rec.rail == some self.rail.id))
        (deny-Runs self.now ctx settlement rail_mismatch (paid_via rec.rail self.rail.id))
        (Runs-bind 0 1
          (Runs-lift 0 (or_corrupt rec.payment_reference (codes "paid without reference")))
          (λ reference. after_finality-Runs ctx _))

  pub record_settlement-Runs :
      (token : Paid) (finality : Finality) → Runs 2 (record_settlement self token finality)
  unfolding record_settlement settlement_replay
  record_settlement-Runs token finality =
      Runs-bind 0 2 (Runs-read 0 (λ g. ok (get g.records token.ctx))) (λ found.
        Runs-option 2 found
          (Runs-weaken 1 2 (omega arith)
            (deny-Runs self.now token.ctx settlement context_not_found (no_context token.ctx)))
          (λ rec. Runs-bind 1 1 (settlement_replay-Runs token.ctx rec rec.state) (λ replayed.
            Runs-option 1 replayed (ask_finality-Runs token.ctx rec finality)
              (λ outcome. Runs-lift 1 (ok outcome)))))

  compensate_in-Runs :
      (ctx : ContextId) (reference : Option Text) (s : Option PaymentState)
      → Runs 1 (compensate_in self ctx reference s)
  compensate_in-Runs ctx reference (some settlement_failed) =
      Runs-bind 1 0 (append_plain-Runs self.now ctx (compensated_event reference))
        (λ u. Runs-lift 0 (ok _))
  compensate_in-Runs ctx reference (some compensated) = Runs-lift 1 (ok _)
  compensate_in-Runs ctx reference (some other) =
      deny-Runs self.now ctx compensation invalid_state (context_is other)
  compensate_in-Runs ctx reference none =
      deny-Runs self.now ctx compensation context_not_found (no_context ctx)

  pub compensate-Runs :
      (token : SettlementFailed) (reference : Option Text)
      → Runs 1 (compensate self token reference)
  unfolding compensate state
  compensate-Runs token reference =
      Runs-bind 0 1
        (Runs-bind 0 0 (Runs-read 0 (λ g. ok (get g.records token.ctx)))
          (λ r. Runs-lift 0 (ok (option_state r))))
        (compensate_in-Runs token.ctx reference)

  expire_in-Runs : (ctx : ContextId) (s : Option PaymentState) → Runs 1 (expire_in self ctx s)
  expire_in-Runs ctx (some authorized) = append_plain-Runs self.now ctx expired_event
  expire_in-Runs ctx (some expired) = Runs-lift 1 (ok tt)
  expire_in-Runs ctx (some other) = deny-Runs self.now ctx expiry invalid_state (context_is other)
  expire_in-Runs ctx none = deny-Runs self.now ctx expiry context_not_found (no_context ctx)

  pub expire-Runs : (token : Authorized Decimal) → Runs 1 (expire self token)
  unfolding expire state
  expire-Runs token =
      Runs-bind 0 1
        (Runs-bind 0 0 (Runs-read 0 (λ g. ok (get g.records token.ctx)))
          (λ r. Runs-lift 0 (ok (option_state r))))
        (expire_in-Runs token.ctx)

  deliver_in-Runs :
      (ctx : ContextId) (receipt : DeliveryReceipt) (rec : Record Decimal) (s : PaymentState)
      → Runs 1 (deliver_in self ctx receipt rec s)
  deliver_in-Runs ctx receipt rec settled =
      Runs-bind 1 0 (append_plain-Runs self.now ctx (delivered_event receipt))
        (λ u. Runs-lift 0 (ok _))
  deliver_in-Runs ctx receipt rec delivered =
      Runs-bind 0 1
        (Runs-lift 0 (or_corrupt rec.receipt_reference (codes "delivered without receipt")))
        (λ reference. Runs-lift 1 (ok _))
  deliver_in-Runs ctx receipt rec other =
      deny-Runs self.now ctx delivery invalid_state (context_is other)

  pub record_delivery-Runs :
      (token : Settled) (receipt : DeliveryReceipt) → Runs 1 (record_delivery self token receipt)
  unfolding record_delivery
  record_delivery-Runs token receipt =
      Runs-bind 0 1 (Runs-read 0 (λ g. ok (get g.records token.ctx))) (λ found.
        Runs-option 1 found
          (deny-Runs self.now token.ctx delivery context_not_found (no_context token.ctx))
          (λ rec. deliver_in-Runs token.ctx receipt rec rec.state))
