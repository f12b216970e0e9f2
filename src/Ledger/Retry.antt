-- ===== src/Ledger/Retry.antt =====
-- A retry of `authorize` returns the same token and writes nothing.
use mandate_ledger.Prelude.{
  ◌≡◌, refl, arith, Option, none, some, Result, ok, if◌then◌else◌, ==_refl, list_eq, nat_eq, sym,
  ◌∙◌, ap,
}
use mandate_ledger.Prelude.Map.{get}
use mandate_ledger.Text.{Text, codes}
use mandate_ledger.Hash.{Sha256, CanonicalJson}
use mandate_ledger.Ids.{ContextId, Hex, derive}
use mandate_ledger.Money.{DecimalOps, DecimalLaws}
use mandate_ledger.Cart.{Cart}
use mandate_ledger.State.{Authorized, is_terminal}
use mandate_ledger.Reason.{authorize, invalid_state}
use mandate_ledger.Mandate.Errors.{chain_pruned}
use mandate_ledger.Mandate.Body.{Ed25519, MandateBody, Mandate, verify}
use mandate_ledger.Mandate.Comparison.{body_eq_refl}
use mandate_ledger.Event.{Preimage, authorized_event, snapshot}
use mandate_ledger.Error.{LedgerError}
use mandate_ledger.Store.Interface.{Record}
use mandate_ledger.Store.Inner.{Inner, authorized_record}
use mandate_ledger.Store.Commit.{append}
use mandate_ledger.Store.Memory.{memory_store, empty_store, stored_mandate}
use mandate_ledger.Store.Reach.{Reach}
use mandate_ledger.Store.Stored.{stored_mandate-append}
use mandate_ledger.Store.Projection.{records-append}
use mandate_ledger.Ledger.Tokens.{authorized_from, corrupted}
use mandate_ledger.Ledger.Action.{Action, throw}
use mandate_ledger.Ledger.Engine.{Ledger, deny}
use mandate_ledger.Ledger.Authorize.{same_mandate, authorize_cart, replay}
use mandate_ledger.Ledger.Admission.{
  Admission, first-Admission, opened, authorize-opened, authorize-first,
}

module _ {Decimal Proof Finality : Type 0} ⦃ops : DecimalOps Decimal⦄ ⦃sha : Sha256⦄ ⦃hex : Hex⦄
    ⦃ed : Ed25519⦄ ⦃json : CanonicalJson (Preimage Decimal)⦄
    ⦃body_json : CanonicalJson (MandateBody Decimal)⦄ (laws : DecimalLaws Decimal) where
  -- A replay of a mandate that verifies, from the mandate that is stored.
  abbrev compared :
      Ledger Decimal Proof Finality
      → ContextId
      → Record Decimal
      → Mandate Decimal
      → Option (Mandate Decimal)
      → Action Decimal (Inner Decimal) (Authorized Decimal)
  compared self ctx rec mandate none =
      if is_terminal rec.state
      then deny self.now ctx authorize invalid_state (chain_pruned rec.state)
      else throw (corrupted (codes "a record without an Authorized event"))
  compared self ctx rec mandate (some m) = same_mandate self ctx rec mandate m

  replay-compared :
      (self : Ledger Decimal Proof Finality) (ctx : ContextId) (rec : Record Decimal)
      (mandate : Mandate Decimal) (g : Inner Decimal)
      → verify mandate ≡ ok tt
      → replay self ctx rec mandate g ≡ compared self ctx rec mandate (stored_mandate g ctx) g
  unfolding replay
  replay-compared self ctx rec mandate g good = ground (arith, good)

  same_token :
      (self : Ledger Decimal Proof Finality) (ctx : ContextId) (rec : Record Decimal)
      (mandate : Mandate Decimal) (g : Inner Decimal)
      → same_mandate self ctx rec mandate mandate g ≡ (ok (authorized_from rec), g)
  same_token self ctx rec mandate g =
      rw (body_eq_refl laws mandate.body, ==_refl mandate.signer) refl

  replay_stored :
      (self : Ledger Decimal Proof Finality) (ctx : ContextId) (rec : Record Decimal)
      (mandate : Mandate Decimal) (g : Inner Decimal)
      → verify mandate ≡ ok tt
      → stored_mandate g ctx ≡ some mandate
      → replay self ctx rec mandate g ≡ (ok (authorized_from rec), g)
  replay_stored self ctx rec mandate g good found =
      replay-compared self ctx rec mandate g good
      ∙ (ap (λ o. compared self ctx rec mandate o g) found ∙ same_token self ctx rec mandate g)

  -- When `authorize` has returned a token for a context that had no record, in a store that can be
  -- reached, then the same call on the store that it left, at any later time and by any engine on it,
  -- returns the same token and leaves the store as it was, where the decimals obey their laws.
  pub authorize_repeats :
      (self later : Ledger Decimal Proof Finality) (mandate : Mandate Decimal) (cart : Cart Decimal)
      (key : Text) {g : Inner Decimal} {token : Authorized Decimal}
      → Reach empty_store g
      → get g.records (derive mandate.body.id cart.hash key) ≡ none
      → (authorize_cart self mandate cart key g).0 ≡ ok token
      → authorize_cart later mandate cart key (authorize_cart self mandate cart key g).1
        ≡ (ok token, (authorize_cart self mandate cart key g).1)
  authorize_repeats self later mandate cart key {g} {token} t missing h =
      let ctx = derive mandate.body.id cart.hash key in
      let rec = authorized_record ctx mandate.body.id (snapshot cart) in
      let first = authorize-first self mandate cart key g missing in
      let a : Admission self ctx mandate cart key g token =
        first-Admission self ctx mandate cart key g missing (rw first at h) in
      let left : (authorize_cart self mandate cart key g).1
          ≡ (append ctx self.now (authorized_event mandate (snapshot cart) key) g).1 =
        ap (λ (o : Result (LedgerError Decimal) (Authorized Decimal) × Inner Decimal). o.1) first
        ∙ a.result in
      let s = (append ctx self.now (authorized_event mandate (snapshot cart) key) g).1 in
      let there : get s.records ctx ≡ some rec =
        records-append a.committed ctx ∙ rw (==_refl ctx) refl in
      let again : authorize_cart later mandate cart key s ≡ (ok token, s) =
        authorize-opened later mandate cart key s
        ∙ (ap (λ o. opened later ctx mandate cart key o s) there
            ∙ (replay_stored later ctx rec mandate s a.verified
                  (stored_mandate-append a.committed t missing)
                ∙ ap (λ (k : Authorized Decimal). (ok k, s)) (sym a.token_made))) in
      rw left again
