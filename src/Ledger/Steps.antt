-- ===== src/Ledger/Steps.antt =====
-- `authorize` moves the in-memory store by its steps, two appends at most.
use mandate_ledger.Prelude.{
  not, arith, some, Result, ok, err, any, ◌==◌, list_eq, nat_eq, option_eq,
}
use mandate_ledger.Prelude.Map.{get}
use mandate_ledger.Text.{Text, codes}
use mandate_ledger.Hash.{Sha256, CanonicalJson}
use mandate_ledger.Ids.{ContextId, Hex, derive}
use mandate_ledger.Money.{DecimalOps}
use mandate_ledger.Cart.{Cart}
use mandate_ledger.State.{is_terminal, authorized, state_eq}
use mandate_ledger.Reason.{
  authorize, mandate_signature_invalid, mandate_signer_untrusted, mandate_revoked,
  scope_total_exceeded, velocity_exceeded, invalid_state,
}
use mandate_ledger.Mandate.Errors.{
  mandate_error, key_not_trusted, mandate_is_revoked, exceeds_budget, velocity_count, chain_pruned,
}
use mandate_ledger.Mandate.Scope.{admits}
use mandate_ledger.Mandate.Body.{Ed25519, MandateBody, Mandate, body_eq, verify}
use mandate_ledger.Event.{Preimage, authorized_event, snapshot}
use mandate_ledger.Error.{StoreError, store_error, illegal_transition}
use mandate_ledger.Store.Interface.{
  Record, AppendOutcome, appended, budget_exceeded, nonce_already_used, revoked, denials_capped,
}
use mandate_ledger.Store.Memory.{memory_store, stored_mandate}
use mandate_ledger.Ledger.Tokens.{corrupted}
use mandate_ledger.Ledger.Engine.{Ledger}
use mandate_ledger.Ledger.Authorize.{
  same_mandate, replay, authorization, retry, after_append, first_authorize, authorize_cart,
}
use mandate_ledger.Ledger.Runs.{
  Runs, Runs-lift, Runs-weaken, Runs-read, Runs-bind, Runs-attempt, Runs-append, deny-Runs, Runs-if,
  Runs-option, Runs-result,
}

module _ {Decimal Proof Finality : Type 0} ⦃ops : DecimalOps Decimal⦄ ⦃sha : Sha256⦄ ⦃hex : Hex⦄
    ⦃ed : Ed25519⦄ ⦃json : CanonicalJson (Preimage Decimal)⦄
    ⦃body_json : CanonicalJson (MandateBody Decimal)⦄ (self : Ledger Decimal Proof Finality) where
  same_mandate-Runs :
      (ctx : ContextId) (rec : Record Decimal) (mandate stored : Mandate Decimal)
      → Runs 1 (same_mandate self ctx rec mandate stored)
  same_mandate-Runs ctx rec mandate stored =
      Runs-if 1 (not (body_eq stored.body mandate.body)) (deny-Runs self.now ctx _ _ _) (
        Runs-if 1 (not (stored.signer == mandate.signer)) (deny-Runs self.now ctx _ _ _)
          (Runs-lift 1 _))

  replay-Runs :
      (ctx : ContextId) (rec : Record Decimal) (mandate : Mandate Decimal)
      → Runs 1 (replay self ctx rec mandate)
  unfolding replay
  replay-Runs ctx rec mandate =
      Runs-result 1 (verify mandate)
        (λ e. deny-Runs self.now ctx authorize mandate_signature_invalid (mandate_error e))
        (λ u. Runs-bind 0 1 (Runs-read 0 (λ g. ok (stored_mandate g ctx))) (λ stored.
          Runs-option 1 stored
            (Runs-if 1 (is_terminal rec.state)
              (deny-Runs self.now ctx authorize invalid_state (chain_pruned rec.state))
              (Runs-lift 1 (err (corrupted (codes "a record without an Authorized event")))))
            (same_mandate-Runs ctx rec mandate)))

  retry-Runs : (ctx : ContextId) (mandate : Mandate Decimal) → Runs 1 (retry self ctx mandate)
  retry-Runs ctx mandate = Runs-bind 0 1 (Runs-read 0 (λ g. ok (get g.records ctx))) (λ found.
      Runs-option 1 found
        (Runs-lift 1 (err (corrupted (codes "a context that refused Authorized has no record"))))
        (λ rec. replay-Runs ctx rec mandate))

  authorization-Runs :
      (ctx : ContextId) (mandate : Mandate Decimal) (cart : Cart Decimal)
      (o : AppendOutcome Decimal)
      → Runs 1 (authorization self ctx mandate cart o)
  unfolding authorization
  authorization-Runs ctx mandate cart (appended e) = Runs-lift 1 (ok _)
  authorization-Runs ctx mandate cart (budget_exceeded m) =
      deny-Runs self.now ctx authorize scope_total_exceeded (exceeds_budget cart.claims.total m)
  authorization-Runs ctx mandate cart (AppendOutcome.velocity_exceeded n) =
      deny-Runs self.now ctx authorize velocity_exceeded (velocity_count n)
  authorization-Runs ctx mandate cart nonce_already_used = Runs-lift 1 (err _)
  authorization-Runs ctx mandate cart revoked =
      deny-Runs self.now ctx authorize mandate_revoked (mandate_is_revoked mandate.body.id)
  authorization-Runs ctx mandate cart denials_capped = Runs-lift 1 (err _)

  after_append-Runs :
      (ctx : ContextId) (mandate : Mandate Decimal) (cart : Cart Decimal)
      (r : Result StoreError (AppendOutcome Decimal))
      → Runs 1 (after_append self ctx mandate cart r)
  after_append-Runs ctx mandate cart (ok o) = authorization-Runs ctx mandate cart o
  after_append-Runs ctx mandate cart (err (illegal_transition c (some from) authorized)) =
      retry-Runs ctx mandate
  after_append-Runs ctx mandate cart (err failure) = Runs-lift 1 (err (store_error failure))

  first_authorize-Runs :
      (ctx : ContextId) (mandate : Mandate Decimal) (cart : Cart Decimal) (key : Text)
      → Runs 2 (first_authorize self ctx mandate cart key)
  unfolding first_authorize
  first_authorize-Runs ctx mandate cart key =
      Runs-result 2 (verify mandate)
        (λ e.
          Runs-weaken 1 2 (omega arith)
            (deny-Runs self.now ctx authorize mandate_signature_invalid (mandate_error e)))
        (λ u.
          Runs-if 2 (not (self.signers.is_trusted mandate.body.principal mandate.signer))
            (Runs-weaken 1 2 (omega arith) (
              deny-Runs self.now ctx authorize mandate_signer_untrusted
                (key_not_trusted mandate.signer mandate.body.principal)))
            (Runs-bind 0 2 (Runs-read 0 (λ g. ok (any (λ m. m == mandate.body.id) g.revoked_ids)))
              (λ is_revoked.
                Runs-if 2 is_revoked
                  (Runs-weaken 1 2 (omega arith) (
                    deny-Runs self.now ctx authorize mandate_revoked
                      (mandate_is_revoked mandate.body.id)))
                  (Runs-result 2 (admits mandate.body.scope cart.claims cart.attestation self.now)
                    (λ denial.
                      Runs-weaken 1 2 (omega arith)
                        (deny-Runs self.now ctx authorize denial.0 denial.1))
                    (λ u.
                      Runs-attempt 1 1
                        (Runs-append ctx self.now (authorized_event mandate (snapshot cart) key))
                        (after_append-Runs ctx mandate cart))))))

  pub authorize-Runs :
      (mandate : Mandate Decimal) (cart : Cart Decimal) (key : Text)
      → Runs 2 (authorize_cart self mandate cart key)
  unfolding authorize_cart
  authorize-Runs mandate cart key =
      let ctx = derive mandate.body.id cart.hash key in
      Runs-bind 0 2 (Runs-read 0 (λ g. ok (get g.records ctx))) (λ found.
        Runs-option 2 found (first_authorize-Runs ctx mandate cart key)
          (λ rec. Runs-weaken 1 2 (omega arith) (replay-Runs ctx rec mandate)))
