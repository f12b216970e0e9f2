-- ===== src/Ledger/Settle.antt =====
-- `Ledger::record_settlement` and `settlement_replay` (crates/ml-core/src/ledger.rs).
use mandate_ledger.Prelude.{
  not, Option, none, some, if◌then◌else◌, Result, ok, err, ◌==◌, list_eq, nat_eq, option_eq,
}
use mandate_ledger.Text.{codes}
use mandate_ledger.Ids.{ContextId}
use mandate_ledger.State.{
  PaymentState, Paid, Settlement, final, pending, failed, authorized, paid, settled,
  settlement_failed, compensated, delivered, expired,
}
use mandate_ledger.Reason.{
  settlement, context_not_found, invalid_state, rail_mismatch, finality_invalid,
}
use mandate_ledger.Mandate.Errors.{plain, no_context, context_is, paid_via}
use mandate_ledger.Event.{settled_event, failed_event}
use mandate_ledger.Error.{rail_unavailable}
use mandate_ledger.Rail.{
  FinalityStatus, final_status, pending_status, failed_status, RailError, invalid_proof,
  unavailable,
}
use mandate_ledger.Store.Interface.{Record, Store}
use mandate_ledger.Ledger.Action.{Action, pure, throw, call, lift, ◌>>=◌, ◌>>◌}
use mandate_ledger.Ledger.Tokens.{or_corrupt, settled_from, failed_from}
use mandate_ledger.Ledger.Engine.{Ledger, deny, append_plain}

module _ {Decimal S Proof Finality : Type 0} ⦃st : Store Decimal S⦄
    (self : Ledger Decimal Proof Finality) where
  abbrev pub replay_by_state :
      ContextId → Record Decimal → PaymentState → Action Decimal S (Option Settlement)
  replay_by_state ctx rec paid = pure none
  replay_by_state ctx rec settled = lift (settled_from rec) >>= λ t. pure (some (final t))
  replay_by_state ctx rec delivered = lift (settled_from rec) >>= λ t. pure (some (final t))
  replay_by_state ctx rec settlement_failed = lift (failed_from rec) >>= λ t. pure (some (failed t))
  replay_by_state ctx rec compensated = lift (failed_from rec) >>= λ t. pure (some (failed t))
  replay_by_state ctx rec authorized =
      deny self.now ctx settlement invalid_state (context_is authorized)
  replay_by_state ctx rec expired = deny self.now ctx settlement invalid_state (context_is expired)

  -- `Ledger::settlement_replay`
  unfoldable pub settlement_replay :
      ContextId → Record Decimal → Action Decimal S (Option Settlement)
  settlement_replay ctx rec = replay_by_state ctx rec rec.state

  -- What the rail said of the finality evidence.
  abbrev pub after_finality :
      ContextId → Result RailError FinalityStatus → Action Decimal S Settlement
  after_finality ctx (err (invalid_proof detail)) =
      deny self.now ctx settlement finality_invalid (plain detail)
  after_finality ctx (err (unavailable detail)) = throw (rail_unavailable detail)
  after_finality ctx (ok (final_status reference)) =
      append_plain self.now ctx (settled_event self.rail.id reference)
      >> pure (final (record { ctx = ctx; reference = reference }))
  after_finality ctx (ok (pending_status reason)) = pure (pending reason)
  after_finality ctx (ok (failed_status reason)) =
      append_plain self.now ctx (failed_event self.rail.id reason)
      >> pure (failed (record { ctx = ctx; reason = reason }))

  -- A context that is `Paid`: the rail is asked.
  unfoldable pub ask_finality : ContextId → Record Decimal → Finality → Action Decimal S Settlement
  ask_finality ctx rec finality =
      if not (rec.rail == some self.rail.id)
      then deny self.now ctx settlement rail_mismatch (paid_via rec.rail self.rail.id)
      else (lift (or_corrupt rec.payment_reference (codes "paid without reference"))
          >>= λ reference. after_finality ctx (
              self.rail.check_finality finality (record {
                ctx = ctx;
                payment_reference = reference;
                amount = rec.amount;
                merchant = rec.merchant;
              })))

  -- `Ledger::record_settlement`
  unfoldable pub record_settlement : Paid → Finality → Action Decimal S Settlement
  record_settlement token finality =
      let ctx = token.ctx in
      call (st.get_record ctx) >>= λ found. elim found [
        | none ↦ deny self.now ctx settlement context_not_found (no_context ctx)
        | some rec ↦ settlement_replay ctx rec >>= λ replayed. elim replayed [
          | some outcome ↦ pure outcome
          | none ↦ ask_finality ctx rec finality
        ]
      ]
