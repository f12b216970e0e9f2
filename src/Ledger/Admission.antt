-- ===== src/Ledger/Admission.antt =====
-- What `authorize` has checked when it returns a token.
use mandate_ledger.Prelude.{
  ◌≡◌, refl, true, false, arith, Option, none, some, inl, inr, Result, ok, err, Result-cases,
  Bool-cases, any, ◌==◌, ==_refl, list_eq, nat_eq, ◌∙◌, ap, subst,
}
use mandate_ledger.Prelude.Map.{get}
use mandate_ledger.Text.{Text}
use mandate_ledger.Hash.{Sha256, CanonicalJson}
use mandate_ledger.Ids.{ContextId, Hex, derive}
use mandate_ledger.Money.{DecimalOps}
use mandate_ledger.Cart.{Cart}
use mandate_ledger.State.{Authorized, authorized}
use mandate_ledger.Reason.{
  authorize, mandate_signature_invalid, mandate_signer_untrusted, mandate_revoked,
  scope_total_exceeded, velocity_exceeded,
}
use mandate_ledger.Mandate.Errors.{
  mandate_error, key_not_trusted, mandate_is_revoked, exceeds_budget, velocity_count,
}
use mandate_ledger.Mandate.Scope.{admits}
use mandate_ledger.Mandate.Body.{Ed25519, MandateBody, Mandate, verify}
use mandate_ledger.Event.{Event, Preimage, authorized_event, snapshot}
use mandate_ledger.Error.{StoreError, illegal_transition}
use mandate_ledger.Store.Interface.{
  Record, AppendOutcome, appended, budget_exceeded, nonce_already_used, revoked, denials_capped,
}
use mandate_ledger.Store.Inner.{Inner, authorized_record}
use mandate_ledger.Store.Commit.{append}
use mandate_ledger.Store.Memory.{memory_store}
use mandate_ledger.Store.Append.{append-cases, was_appended, Committed}
use mandate_ledger.Store.Projection.{records-append}
use mandate_ledger.Ledger.Tokens.{authorized_from}
use mandate_ledger.Ledger.Action.{Action}
use mandate_ledger.Ledger.Engine.{Ledger}
use mandate_ledger.Ledger.Authorize.{
  authorization, after_append, first_authorize, authorize_cart, replay,
}
use mandate_ledger.Ledger.Outcome.{deny-fails}

module _ {Decimal Proof Finality : Type 0} ⦃ops : DecimalOps Decimal⦄ ⦃sha : Sha256⦄ ⦃hex : Hex⦄
    ⦃ed : Ed25519⦄ ⦃json : CanonicalJson (Preimage Decimal)⦄
    ⦃body_json : CanonicalJson (MandateBody Decimal)⦄ (self : Ledger Decimal Proof Finality)
    (ctx : ContextId) (mandate : Mandate Decimal) (cart : Cart Decimal) where
  -- An append that was refused gives no token.
  refused-fails :
      (r : Result StoreError (AppendOutcome Decimal)) (g : Inner Decimal)
      {token : Authorized Decimal}
      → get g.records ctx ≡ none
      → was_appended r ≡ false
      → (after_append self ctx mandate cart r g).0 ≡ ok token
      → ⊥
  unfolding authorization
  refused-fails (ok (appended e)) g missing n h = cc
  refused-fails (ok (budget_exceeded m)) g missing n h =
      deny-fails self.now ctx authorize scope_total_exceeded (exceeds_budget cart.claims.total m) g
        h
  refused-fails (ok (AppendOutcome.velocity_exceeded k)) g missing n h =
      deny-fails self.now ctx authorize velocity_exceeded (velocity_count k) g h
  refused-fails (ok nonce_already_used) g missing n h = cc
  refused-fails (ok revoked) g missing n h =
      deny-fails self.now ctx authorize mandate_revoked (mandate_is_revoked mandate.body.id) g h
  refused-fails (ok denials_capped) g missing n h = cc
  refused-fails (err (illegal_transition c (some from) authorized)) g missing n h =
      absurd (ground arith)
  refused-fails (err failure) g missing n h = cc

  appended-token :
      (r : Result StoreError (AppendOutcome Decimal)) (e : Event Decimal) (s g : Inner Decimal)
      {token : Authorized Decimal}
      → r ≡ ok (appended e)
      → (after_append self ctx mandate cart r g).0 ≡ ok token
      → ((after_append self ctx mandate cart r s).1 ≡ s)
        × (token ≡ authorized_from (authorized_record ctx mandate.body.id (snapshot cart)))
  unfolding authorization authorized_from snapshot
  appended-token r e s g {token} done h =
      let made : (after_append self ctx mandate cart (ok (appended e)) g).0 ≡ ok token =
        subst (λ x. (after_append self ctx mandate cart x g).0 ≡ ok token) done h in
      (rw done refl, ground arith)

  -- The checks of `authorize` that have passed, and the record that it has made.
  pub record Admission (key : Text) (g : Inner Decimal) (token : Authorized Decimal) : Type 0 where
    pub verified : verify mandate ≡ ok tt
    pub trusted : self.signers.is_trusted mandate.body.principal mandate.signer ≡ true
    pub standing : any (λ m. m == mandate.body.id) g.revoked_ids ≡ false
    pub admitted : admits mandate.body.scope cart.claims cart.attestation self.now ≡ ok tt
    pub committed : Committed ctx self.now (authorized_event mandate (snapshot cart) key) g
    pub result :
        (first_authorize self ctx mandate cart key g).1
        ≡ (append ctx self.now (authorized_event mandate (snapshot cart) key) g).1
    pub token_made : token ≡ authorized_from (authorized_record ctx mandate.body.id (snapshot cart))

  pub first-Admission :
      (key : Text) (g : Inner Decimal) {token : Authorized Decimal}
      → get g.records ctx ≡ none
      → (first_authorize self ctx mandate cart key g).0 ≡ ok token
      → Admission key g token
  unfolding first_authorize
  first-Admission key g {token} missing h = elim (Result-cases (verify mandate)) [
    | inr (e, bad) ↦ absurd (
        deny-fails self.now ctx authorize mandate_signature_invalid (mandate_error e) g
          (rw (bad, first_authorize) at h))
    | inl (u, good) ↦
        elim (Bool-cases (self.signers.is_trusted mandate.body.principal mandate.signer)) [
          | inr stranger ↦ absurd (
              deny-fails self.now ctx authorize mandate_signer_untrusted
                (key_not_trusted mandate.signer mandate.body.principal) g
                (rw (good, stranger, first_authorize) at h))
          | inl trusted ↦ elim (Bool-cases (any (λ m. m == mandate.body.id) g.revoked_ids)) [
            | inl gone ↦ absurd (
                deny-fails self.now ctx authorize mandate_revoked
                  (mandate_is_revoked mandate.body.id) g
                  (rw (good, trusted, gone, first_authorize) at h))
            | inr standing ↦
                elim (Result-cases
                  (admits mandate.body.scope cart.claims cart.attestation self.now)) [
                    | inr (denial, refused) ↦ absurd (
                        deny-fails self.now ctx authorize denial.0 denial.1 g
                          (rw (good, trusted, standing, refused, first_authorize) at h))
                    | inl (v, admitted) ↦
                        let body = authorized_event mandate (snapshot cart) key in
                        let last : (after_append self ctx mandate cart
                              (append ctx self.now body g).0 (append ctx self.now body g).1).0
                            ≡ ok token =
                          rw (good, trusted, standing, admitted, first_authorize) at h in
                        elim (append-cases ctx self.now body g) [
                          | inl alone ↦ absurd (
                              refused-fails (append ctx self.now body g).0 g missing alone.0
                                (rw alone.1 at last))
                          | inr c ↦
                              let ends =
                                appended-token (append ctx self.now body g).0 c.event
                                  (append ctx self.now body g).1 (append ctx self.now body g).1
                                  (rw c.result refl) last in
                              record {
                                verified = good;
                                trusted = trusted;
                                standing = standing;
                                admitted = admitted;
                                committed = c;
                                result =
                                    rw (good, trusted, standing, admitted, first_authorize) ends.0;
                                token_made = ends.1;
                              }
                        ]
                  ]
          ]
        ]
  ]

module _ {Decimal Proof Finality : Type 0} ⦃ops : DecimalOps Decimal⦄ ⦃sha : Sha256⦄ ⦃hex : Hex⦄
    ⦃ed : Ed25519⦄ ⦃json : CanonicalJson (Preimage Decimal)⦄
    ⦃body_json : CanonicalJson (MandateBody Decimal)⦄ (self : Ledger Decimal Proof Finality) where
  abbrev pub opened :
      ContextId
      → Mandate Decimal
      → Cart Decimal
      → Text
      → Option (Record Decimal)
      → Action Decimal (Inner Decimal) (Authorized Decimal)
  opened ctx mandate cart key none = first_authorize self ctx mandate cart key
  opened ctx mandate cart key (some rec) = replay self ctx rec mandate

  pub authorize-opened :
      (mandate : Mandate Decimal) (cart : Cart Decimal) (key : Text) (g : Inner Decimal)
      → authorize_cart self mandate cart key g
        ≡ opened
            (derive mandate.body.id cart.hash key)
            mandate
            cart
            key
            (get g.records (derive mandate.body.id cart.hash key))
            g
  unfolding authorize_cart
  authorize-opened mandate cart key g = ground arith

  pub authorize-first :
      (mandate : Mandate Decimal) (cart : Cart Decimal) (key : Text) (g : Inner Decimal)
      → get g.records (derive mandate.body.id cart.hash key) ≡ none
      → authorize_cart self mandate cart key g
        ≡ first_authorize self (derive mandate.body.id cart.hash key) mandate cart key g
  authorize-first mandate cart key g missing =
      authorize-opened mandate cart key g
      ∙ ap (λ o. opened (derive mandate.body.id cart.hash key) mandate cart key o g) missing

  token_ctx :
      (ctx : ContextId) (mandate : Mandate Decimal) (cart : Cart Decimal)
      → (authorized_from (authorized_record ctx mandate.body.id (snapshot cart))).ctx ≡ ctx
  unfolding authorized_from
  token_ctx ctx mandate cart = refl

  -- When `authorize` returns a token for a context that has no record yet, the mandate's signature
  -- and scope verify, its signer is trusted for its principal, it is not revoked, its scope admits the
  -- cart at this moment, the token is for the context that the mandate's id, the cart's hash and the
  -- request key derive, and the store now holds the `Authorized` record of that cart under that
  -- mandate.
  pub authorized_is_admitted :
      (mandate : Mandate Decimal) (cart : Cart Decimal) (key : Text) (g : Inner Decimal)
      {token : Authorized Decimal}
      → get g.records (derive mandate.body.id cart.hash key) ≡ none
      → (authorize_cart self mandate cart key g).0 ≡ ok token
      → (verify mandate ≡ ok tt)
        × (self.signers.is_trusted mandate.body.principal mandate.signer ≡ true)
        × (any (λ m. m == mandate.body.id) g.revoked_ids ≡ false)
        × (admits mandate.body.scope cart.claims cart.attestation self.now ≡ ok tt)
        × (token.ctx ≡ derive mandate.body.id cart.hash key)
        × (get (authorize_cart self mandate cart key g).1.records token.ctx
            ≡ some (authorized_record token.ctx mandate.body.id (snapshot cart)))
  authorized_is_admitted mandate cart key g {token} missing h =
      let ctx = derive mandate.body.id cart.hash key in
      let same = authorize-first mandate cart key g missing in
      let a : Admission self ctx mandate cart key g token =
        first-Admission self ctx mandate cart key g missing (rw same at h) in
      let bound : token.ctx ≡ ctx =
        ap (λ (t : Authorized Decimal). t.ctx) a.token_made ∙ token_ctx ctx mandate cart in
      (
        a.verified,
        a.trusted,
        a.standing,
        a.admitted,
        bound,
        rw (bound, same, a.result, records-append a.committed ctx, ==_refl ctx) refl,
      )
