-- ===== src/Ledger/Payment.antt =====
-- `Ledger::record_payment` and `check_proof_binding` (crates/ml-core/src/ledger.rs).
use mandate_ledger.Prelude.{
  Bool, false, not, ◌&&◌, Option, none, some, if◌then◌else◌, Result, ok, err, ◌==◌, list_eq, nat_eq,
  option_eq,
}
use mandate_ledger.Text.{Text, codes}
use mandate_ledger.Hash.{Sha256, Hash32}
use mandate_ledger.Ids.{ContextId}
use mandate_ledger.Money.{DecimalOps, money_eq}
use mandate_ledger.State.{Authorized, Paid, authorized, state_eq}
use mandate_ledger.Reason.{
  DenyReason, payment, context_not_found, proof_invalid, invalid_state, amount_mismatch,
  unbound_proof, context_binding_mismatch, cart_binding_mismatch, merchant_binding_mismatch,
}
use mandate_ledger.Reason
use mandate_ledger.Mandate.Errors.{plain, no_context, different_payment, proof_amount, proof_pays}
use mandate_ledger.Event.{paid_event}
use mandate_ledger.Error.{rail_unavailable}
use mandate_ledger.Rail.{PaymentExpectation, VerifiedProof, RailError, invalid_proof, unavailable}
use mandate_ledger.Store.Interface.{Record, AppendOutcome, appended, nonce_already_used, Store}
use mandate_ledger.Ledger.Action.{Action, pure, throw, call, lift, ◌>>=◌, ◌>>◌}
use mandate_ledger.Ledger.Tokens.{corrupted, or_corrupt, idempotency_key}
use mandate_ledger.Ledger.Engine.{Ledger, deny}

-- `ctx_ok` and `cart_ok`: whether the proof names it, and rightly.
abbrev pub bound_to : Option Text → Text → Option Bool
bound_to none expected = none
bound_to (some b) expected = some (b == expected)

-- The match on `(ctx_ok, cart_ok)`.
unfoldable pub binding_refusal : Option Bool → Option Bool → Option (DenyReason × Text)
binding_refusal none none = some (unbound_proof, codes "proof binds to neither context nor cart")
binding_refusal (some false) _ =
    some (context_binding_mismatch, codes "proof binds to a different context")
binding_refusal _ (some false) =
    some (cart_binding_mismatch, codes "proof binds to a different cart")
binding_refusal _ _ = none

abbrev pub expectation :
    {Decimal : Type 0} → ContextId → Record Decimal → PaymentExpectation Decimal
expectation ctx rec = record {
  ctx = ctx;
  cart_hash = rec.cart_hash;
  amount = rec.amount;
  merchant = rec.merchant;
  recorded_reference = rec.payment_reference;
}

module _ {Decimal S Proof Finality : Type 0} ⦃st : Store Decimal S⦄ ⦃ops : DecimalOps Decimal⦄
    (self : Ledger Decimal Proof Finality) where
  abbrev pub check_payee :
      ContextId → Record Decimal → VerifiedProof Decimal → Action Decimal S (Unit {0})
  check_payee ctx rec verified = elim verified.bound_merchant [
    | none ↦ pure tt
    | some payee ↦
        if not (payee == rec.merchant)
        then deny self.now ctx payment merchant_binding_mismatch (proof_pays payee rec.merchant)
        else pure tt
  ]

  -- `Ledger::check_proof_binding`
  unfoldable pub check_proof_binding :
      ContextId → Record Decimal → VerifiedProof Decimal → Action Decimal S (Unit {0})
  unfolding binding_refusal
  check_proof_binding ctx rec verified =
      if not (money_eq verified.amount rec.amount)
      then deny self.now ctx payment amount_mismatch (proof_amount verified.amount rec.amount)
      else elim (binding_refusal (bound_to verified.bound_ctx ctx)
          (bound_to verified.bound_cart rec.cart_hash)) [
            | some (reason, detail) ↦ deny self.now ctx payment reason (plain detail)
            | none ↦ check_payee ctx rec verified
          ]

  -- A proof for a context that is past `Authorized`.
  unfoldable pub repeat_payment :
      ContextId → Record Decimal → VerifiedProof Decimal → Action Decimal S Paid
  repeat_payment ctx rec verified =
      if rec.rail == some self.rail.id && rec.payment_reference == some verified.reference
      then (lift (or_corrupt rec.idempotency_key (codes "paid record without idempotency key"))
          >>= λ key. pure (record {
            ctx = ctx;
            rail = self.rail.id;
            reference = verified.reference;
            idempotency_key = key;
          }))
      else deny self.now ctx payment invalid_state (different_payment rec.state)

  -- What the store said to the `Paid` append.
  abbrev pub payment_outcome :
      ContextId → VerifiedProof Decimal → Hash32 → AppendOutcome Decimal → Action Decimal S Paid
  payment_outcome ctx verified key (appended e) = pure (record {
    ctx = ctx;
    rail = self.rail.id;
    reference = verified.reference;
    idempotency_key = key;
  })
  payment_outcome ctx verified key nonce_already_used =
      deny self.now ctx payment Reason.nonce_already_used
        (plain (codes "nonce already consumed by another context"))
  payment_outcome ctx verified key _ =
      throw (corrupted (codes "another body's outcome returned for Paid"))

  module _ ⦃sha : Sha256⦄ where
    unfoldable pub bind_payment :
        ContextId → Record Decimal → VerifiedProof Decimal → Action Decimal S Paid
    bind_payment ctx rec verified =
        check_proof_binding ctx rec verified
        >> (let key = idempotency_key ctx self.rail.id verified.nonce in
            call (
              st.append ctx self.now
                (paid_event self.rail.id verified.reference verified.nonce verified.amount key))
            >>= payment_outcome ctx verified key)

    -- What the rail said of the proof.
    abbrev pub after_verification :
        ContextId
        → Record Decimal
        → Result RailError (VerifiedProof Decimal)
        → Action Decimal S Paid
    after_verification ctx rec (err (invalid_proof detail)) =
        deny self.now ctx payment proof_invalid (plain detail)
    after_verification ctx rec (err (unavailable detail)) = throw (rail_unavailable detail)
    after_verification ctx rec (ok verified) =
        if not (rec.state == authorized)
        then repeat_payment ctx rec verified
        else bind_payment ctx rec verified

    -- `Ledger::record_payment`
    unfoldable pub record_payment : Authorized Decimal → Proof → Action Decimal S Paid
    record_payment auth proof =
        let ctx = auth.ctx in
        call (st.get_record ctx) >>= λ found. elim found [
          | none ↦ deny self.now ctx payment context_not_found (no_context ctx)
          | some rec ↦
              after_verification ctx rec (self.rail.verify_proof proof (expectation ctx rec))
        ]
