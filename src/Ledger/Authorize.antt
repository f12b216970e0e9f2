-- ===== src/Ledger/Authorize.antt =====
-- `Ledger::authorize`, with `authorization` and `replay` (crates/ml-core/src/ledger.rs).
use mandate_ledger.Prelude.{not, none, some, if◌then◌else◌, Result, ok, err, ◌==◌, list_eq, nat_eq}
use mandate_ledger.Text.{Text, codes}
use mandate_ledger.Hash.{Sha256, CanonicalJson}
use mandate_ledger.Ids.{ContextId, Hex, derive}
use mandate_ledger.Money.{DecimalOps}
use mandate_ledger.Cart.{Cart}
use mandate_ledger.State.{Authorized, authorized, is_terminal}
use mandate_ledger.Reason.{
  authorize, mandate_signature_invalid, mandate_signer_untrusted, mandate_revoked,
  scope_total_exceeded, velocity_exceeded, invalid_state, context_mismatch,
}
use mandate_ledger.Mandate.Errors.{
  plain, mandate_error, key_not_trusted, mandate_is_revoked, exceeds_budget, velocity_count,
  chain_pruned,
}
use mandate_ledger.Mandate.Scope.{admits}
use mandate_ledger.Mandate.Body.{Mandate, MandateBody, Ed25519, verify, body_eq}
use mandate_ledger.Event.{authorized_event, snapshot}
use mandate_ledger.Error.{StoreError, illegal_transition, store_error}
use mandate_ledger.Store.Interface.{
  Record, AppendOutcome, appended, budget_exceeded, nonce_already_used, revoked, denials_capped,
  Store,
}
use mandate_ledger.Ledger.Action.{Action, pure, throw, attempt, call, ◌>>=◌}
use mandate_ledger.Ledger.Tokens.{corrupted, authorized_from}
use mandate_ledger.Ledger.Engine.{Ledger, deny}

module _ {Decimal S Proof Finality : Type 0} ⦃st : Store Decimal S⦄ ⦃ops : DecimalOps Decimal⦄
    ⦃ed : Ed25519⦄ ⦃body_json : CanonicalJson (MandateBody Decimal)⦄
    (self : Ledger Decimal Proof Finality) where
  -- The comparison at the end of `replay`.
  abbrev pub same_mandate :
      ContextId
      → Record Decimal
      → Mandate Decimal
      → Mandate Decimal
      → Action Decimal S (Authorized Decimal)
  same_mandate ctx rec mandate stored =
      if not (body_eq stored.body mandate.body)
      then deny self.now ctx authorize context_mismatch
          (plain (codes "a different mandate with the same id"))
      else if not (stored.signer == mandate.signer)
      then deny self.now ctx authorize context_mismatch
          (plain (codes "the same mandate signed by a different key"))
      else pure (authorized_from rec)

  -- `Ledger::replay`
  unfoldable pub replay :
      ContextId → Record Decimal → Mandate Decimal → Action Decimal S (Authorized Decimal)
  replay ctx rec mandate = elim (verify mandate) [
    | err e ↦ deny self.now ctx authorize mandate_signature_invalid (mandate_error e)
    | ok _ ↦ call (st.authorized_mandate ctx) >>= λ stored. elim stored [
      | none ↦
          if is_terminal rec.state
          then deny self.now ctx authorize invalid_state (chain_pruned rec.state)
          else throw (corrupted (codes "a record without an Authorized event"))
      | some m ↦ same_mandate ctx rec mandate m
    ]
  ]

  -- `Ledger::authorization`
  unfoldable pub authorization :
      ContextId
      → Mandate Decimal
      → Cart Decimal
      → AppendOutcome Decimal
      → Action Decimal S (Authorized Decimal)
  authorization ctx mandate cart (appended e) = pure (record {
    ctx = ctx;
    mandate_id = mandate.body.id;
    cart_hash = cart.hash;
    merchant = cart.claims.merchant;
    amount = cart.claims.total;
  })
  authorization ctx mandate cart (budget_exceeded remaining) =
      deny self.now ctx authorize scope_total_exceeded (exceeds_budget cart.claims.total remaining)
  authorization ctx mandate cart (AppendOutcome.velocity_exceeded count) =
      deny self.now ctx authorize velocity_exceeded (velocity_count count)
  authorization ctx mandate cart revoked =
      deny self.now ctx authorize mandate_revoked (mandate_is_revoked mandate.body.id)
  authorization ctx mandate cart nonce_already_used =
      throw (corrupted (codes "refusal outcome returned for Authorized"))
  authorization ctx mandate cart denials_capped =
      throw (corrupted (codes "refusal outcome returned for Authorized"))

  -- The retry after a lost race: the record must be there now.
  abbrev pub retry : ContextId → Mandate Decimal → Action Decimal S (Authorized Decimal)
  retry ctx mandate = call (st.get_record ctx) >>= λ found. elim found [
    | none ↦ throw (corrupted (codes "a context that refused Authorized has no record"))
    | some rec ↦ replay ctx rec mandate
  ]

  -- What the store said to the `Authorized` append.
  abbrev pub after_append :
      ContextId
      → Mandate Decimal
      → Cart Decimal
      → Result StoreError (AppendOutcome Decimal)
      → Action Decimal S (Authorized Decimal)
  after_append ctx mandate cart (ok outcome) = authorization ctx mandate cart outcome
  after_append ctx mandate cart (err (illegal_transition c (some from) authorized)) =
      retry ctx mandate
  after_append ctx mandate cart (err failure) = throw (store_error failure)

  -- The checks of a context that has no record yet.
  unfoldable pub first_authorize :
      ContextId → Mandate Decimal → Cart Decimal → Text → Action Decimal S (Authorized Decimal)
  first_authorize ctx mandate cart request_key = elim (verify mandate) [
    | err e ↦ deny self.now ctx authorize mandate_signature_invalid (mandate_error e)
    | ok _ ↦
        if not (self.signers.is_trusted mandate.body.principal mandate.signer)
        then deny self.now ctx authorize mandate_signer_untrusted
            (key_not_trusted mandate.signer mandate.body.principal)
        else call (st.is_revoked mandate.body.id) >>= λ is_revoked.
            if is_revoked
            then deny self.now ctx authorize mandate_revoked (mandate_is_revoked mandate.body.id)
            else elim (admits mandate.body.scope cart.claims cart.attestation self.now) [
              | err denial ↦ deny self.now ctx authorize denial.0 denial.1
              | ok _ ↦
                  attempt
                    (st.append ctx self.now (authorized_event mandate (snapshot cart) request_key))
                    (after_append ctx mandate cart)
            ]
  ]

  module _ ⦃sha : Sha256⦄ ⦃hex : Hex⦄ where
    -- `Ledger::authorize`
    unfoldable pub authorize_cart :
        Mandate Decimal → Cart Decimal → Text → Action Decimal S (Authorized Decimal)
    authorize_cart mandate cart request_key =
        let ctx = derive mandate.body.id cart.hash request_key in
        call (st.get_record ctx) >>= λ existing. elim existing [
          | some rec ↦ replay ctx rec mandate
          | none ↦ first_authorize ctx mandate cart request_key
        ]
