-- ===== src/Ledger/PaymentSteps.antt =====
-- `record_payment` moves the in-memory store by its steps, three appends at most.
use mandate_ledger.Prelude.{
  not, ◌&&◌, arith, some, Result, ok, err, ◌==◌, list_eq, nat_eq, option_eq,
}
use mandate_ledger.Prelude.Map.{get}
use mandate_ledger.Text.{codes}
use mandate_ledger.Hash.{Hash32, Sha256, CanonicalJson}
use mandate_ledger.Ids.{ContextId, Hex}
use mandate_ledger.Money.{DecimalOps, money_eq}
use mandate_ledger.State.{Authorized, authorized, state_eq}
use mandate_ledger.Reason
use mandate_ledger.Reason.{
  DenyReason, payment, settlement, compensation, expiry, delivery, context_not_found, proof_invalid,
  finality_invalid, rail_mismatch, invalid_state, amount_mismatch, unbound_proof,
  context_binding_mismatch, cart_binding_mismatch, merchant_binding_mismatch,
}
use mandate_ledger.Mandate.Errors.{plain, no_context, different_payment, proof_amount, proof_pays}
use mandate_ledger.Mandate.Body.{Ed25519, MandateBody}
use mandate_ledger.Event.{Preimage, paid_event}
use mandate_ledger.Error.{rail_unavailable}
use mandate_ledger.Rail.{VerifiedProof, RailError, invalid_proof, unavailable}
use mandate_ledger.Store.Interface.{Record, AppendOutcome, appended, nonce_already_used}
use mandate_ledger.Store.Memory.{memory_store}
use mandate_ledger.Ledger.Tokens.{corrupted, or_corrupt, idempotency_key}
use mandate_ledger.Ledger.Engine.{Ledger}
use mandate_ledger.Ledger.Payment.{
  bound_to, binding_refusal, expectation, check_payee, check_proof_binding, repeat_payment,
  payment_outcome, bind_payment, after_verification, record_payment,
}
use mandate_ledger.Ledger.Runs.{
  Runs, Runs-lift, Runs-weaken, Runs-read, Runs-bind, Runs-append, deny-Runs, Runs-if, Runs-option,
}

module _ {Decimal Proof Finality : Type 0} ⦃ops : DecimalOps Decimal⦄ ⦃sha : Sha256⦄ ⦃hex : Hex⦄
    ⦃ed : Ed25519⦄ ⦃json : CanonicalJson (Preimage Decimal)⦄
    ⦃body_json : CanonicalJson (MandateBody Decimal)⦄ (self : Ledger Decimal Proof Finality) where
  check_payee-Runs :
      (ctx : ContextId) (rec : Record Decimal) (v : VerifiedProof Decimal)
      → Runs 1 (check_payee self ctx rec v)
  check_payee-Runs ctx rec v = Runs-option 1 v.bound_merchant (Runs-lift 1 (ok tt)) (λ payee.
      Runs-if 1 (not (payee == rec.merchant))
        (deny-Runs self.now ctx payment merchant_binding_mismatch (proof_pays payee rec.merchant))
        (Runs-lift 1 (ok tt)))

  check_proof_binding-Runs :
      (ctx : ContextId) (rec : Record Decimal) (v : VerifiedProof Decimal)
      → Runs 1 (check_proof_binding self ctx rec v)
  unfolding check_proof_binding
  check_proof_binding-Runs ctx rec v =
      Runs-if 1 (not (money_eq v.amount rec.amount))
        (deny-Runs self.now ctx payment amount_mismatch (proof_amount v.amount rec.amount))
        (Runs-option 1
          (binding_refusal (bound_to v.bound_ctx ctx) (bound_to v.bound_cart rec.cart_hash))
          (check_payee-Runs ctx rec v)
          (λ refusal. deny-Runs self.now ctx payment refusal.0 (plain refusal.1)))

  repeat_payment-Runs :
      (ctx : ContextId) (rec : Record Decimal) (v : VerifiedProof Decimal)
      → Runs 1 (repeat_payment self ctx rec v)
  unfolding repeat_payment
  repeat_payment-Runs ctx rec v =
      Runs-if 1 (rec.rail == some self.rail.id && rec.payment_reference == some v.reference)
        (Runs-bind 0 1
          (Runs-lift 0
            (or_corrupt rec.idempotency_key (codes "paid record without idempotency key")))
          (λ key. Runs-lift 1 (ok _)))
        (deny-Runs self.now ctx payment invalid_state (different_payment rec.state))

  payment_outcome-Runs :
      (ctx : ContextId) (v : VerifiedProof Decimal) (key : Hash32) (o : AppendOutcome Decimal)
      → Runs 1 (payment_outcome self ctx v key o)
  payment_outcome-Runs ctx v key (appended e) = Runs-lift 1 (ok _)
  payment_outcome-Runs ctx v key nonce_already_used =
      deny-Runs self.now ctx payment Reason.nonce_already_used
        (plain (codes "nonce already consumed by another context"))
  payment_outcome-Runs ctx v key o =
      Runs-lift 1 (err (corrupted (codes "another body's outcome returned for Paid")))

  bind_payment-Runs :
      (ctx : ContextId) (rec : Record Decimal) (v : VerifiedProof Decimal)
      → Runs 3 (bind_payment self ctx rec v)
  unfolding bind_payment
  bind_payment-Runs ctx rec v =
      let key = idempotency_key ctx self.rail.id v.nonce in
      Runs-bind 1 2 (check_proof_binding-Runs ctx rec v) (λ u.
        Runs-bind 1 1
          (Runs-append ctx self.now (paid_event self.rail.id v.reference v.nonce v.amount key))
          (payment_outcome-Runs ctx v key))

  after_verification-Runs :
      (ctx : ContextId) (rec : Record Decimal) (r : Result RailError (VerifiedProof Decimal))
      → Runs 3 (after_verification self ctx rec r)
  after_verification-Runs ctx rec (err (invalid_proof detail)) =
      Runs-weaken 1 3 (omega arith) (deny-Runs self.now ctx payment proof_invalid (plain detail))
  after_verification-Runs ctx rec (err (unavailable detail)) =
      Runs-lift 3 (err (rail_unavailable detail))
  after_verification-Runs ctx rec (ok v) =
      Runs-if 3 (not (rec.state == authorized))
        (Runs-weaken 1 3 (omega arith) (repeat_payment-Runs ctx rec v))
        (bind_payment-Runs ctx rec v)

  pub record_payment-Runs :
      (token : Authorized Decimal) (proof : Proof) → Runs 3 (record_payment self token proof)
  unfolding record_payment
  record_payment-Runs token proof =
      Runs-bind 0 3 (Runs-read 0 (λ g. ok (get g.records token.ctx))) (λ found.
        Runs-option 3 found
          (Runs-weaken 1 3 (omega arith)
            (deny-Runs self.now token.ctx payment context_not_found (no_context token.ctx)))
          (λ rec.
            after_verification-Runs token.ctx rec
              (self.rail.verify_proof proof (expectation token.ctx rec))))
