-- ===== src/X402/Recorded.antt =====
-- A payment that the engine records through the x402 rail.
use mandate_ledger.Prelude.{
  ◌≡◌, ap, ◌∙◌, subst, inl, inr, true, Option, none, some, ok, Bool-cases, ◌==◌, ==_eq, list_eq,
  nat_eq,
}
use mandate_ledger.Prelude.Map.{get}
use mandate_ledger.Text.{Bytes, Text}
use mandate_ledger.Text.Codec.{HexDecode, Keccak}
use mandate_ledger.Time.{Timestamp}
use mandate_ledger.Hash.{Sha256, CanonicalJson, Hash32}
use mandate_ledger.Ids.{Hex, ContextId, new_id, lowercase_trimmed}
use mandate_ledger.Money.{DecimalOps, Money, money_eq}
use mandate_ledger.State.{Authorized, Paid, authorized}
use mandate_ledger.Event.{Preimage}
use mandate_ledger.Mandate.Body.{SignerPolicy}
use mandate_ledger.Rail.{VerifiedProof}
use mandate_ledger.Store.Interface.{Record}
use mandate_ledger.Store.Inner.{Inner}
use mandate_ledger.Store.Memory.{memory_store}
use mandate_ledger.Ledger.Engine.{Ledger}
use mandate_ledger.Ledger.Payment.{expectation, record_payment}
use mandate_ledger.Ledger.Binding.{IsBound, IsFor, NamesNoOther, paid-IsBound}
use mandate_ledger.X402.Types.{account_id}
use mandate_ledger.X402.Fields.{DecimalUnits, money_of_units}
use mandate_ledger.X402.Eip3009.{Authorization, Secp256k1, binding_nonce}
use mandate_ledger.X402.Payment.{PaymentPayload}
use mandate_ledger.X402.CartTerms.{JsonOps, ExactTerms, terms}
use mandate_ledger.X402.Finality.{X402Finality}
use mandate_ledger.X402.Judge.{X402Rail}
use mandate_ledger.X402.Verify.{x402_rail, bound_context}
use mandate_ledger.X402.Payments.{IsSigned, IsPayment, verify_proof-IsPayment}

-- A proof that names one thing names this one.
names : (one this : Text) → NamesNoOther (some one) this → one ≡ this
names one this (inl unnamed) = cc
names one this (inr same) = cc

-- A proof that can bind only the context binds it.
binds_context :
    (nonce wanted : Bytes) (ctx : ContextId) (cart_hash : Hash32)
    → IsFor (bound_context (nonce == wanted) ctx) none ctx cart_hash
    → nonce ≡ wanted
binds_context nonce wanted ctx cart_hash (inr (_, no_cart)) = cc
binds_context nonce wanted ctx cart_hash (inl (here, _)) = elim (Bool-cases (nonce == wanted)) [
  | inl same ↦ ==_eq nonce wanted same
  | inr other ↦ absurd (none_bound (rw other at here))
]
  where
    none_bound : ◌≡◌ {A = Option ContextId} none (some ctx) → ⊥
    none_bound e = cc

module _ {Decimal Value : Type 0} ⦃ops : DecimalOps Decimal⦄ ⦃units : DecimalUnits Decimal⦄
    ⦃value_ops : JsonOps Value⦄ ⦃sha3 : Keccak⦄ ⦃dec : HexDecode⦄ ⦃hex : Hex⦄
    ⦃curve : Secp256k1⦄ where
  -- The engine on the x402 rail.
  abbrev pub x402_ledger :
      X402Rail
      → SignerPolicy
      → Timestamp
      → Ledger Decimal (PaymentPayload Value) (X402Finality Value)
  x402_ledger rail signers now = record { rail = x402_rail rail; signers = signers; now = now }

  -- A signed authorization that pays what a record has authorized.
  pub record PaysRecord (rail : X402Rail) (proof : PaymentPayload Value) (ctx : ContextId)
      (rec : Record Decimal) : Type 0 where
    pub agreed : ExactTerms Decimal
    pub auth : Authorization
    pub signature : Bytes
    pub amount : Money Decimal
    pub priced : terms rail.registry proof.accepted ≡ ok agreed
    pub signed : IsSigned agreed auth signature
    pub this_context : auth.nonce ≡ binding_nonce ctx
    pub this_merchant : new_id lowercase_trimmed (account_id agreed.chain auth.to) ≡ ok rec.merchant
    pub moved : money_of_units auth.value agreed.token ≡ ok amount
    pub this_amount : money_eq amount rec.amount ≡ true

  bound-PaysRecord :
      (rail : X402Rail) (proof : PaymentPayload Value) (ctx : ContextId) (rec : Record Decimal)
      (v : VerifiedProof Decimal)
      → IsPayment rail proof (expectation ctx rec) v
      → IsBound ctx rec v
      → PaysRecord rail proof ctx rec
  bound-PaysRecord rail proof ctx rec v p b =
      let r = p.reported in
      record {
        agreed = p.agreed;
        auth = p.auth;
        signature = p.signature;
        amount = v.amount;
        priced = p.priced;
        signed = p.signed;
        this_context = binds_context p.auth.nonce (binding_nonce ctx) ctx rec.cart_hash (
            subst (λ o. IsFor o none ctx rec.cart_hash) r.bound_ctx
              (subst (λ o. IsFor v.bound_ctx o ctx rec.cart_hash) r.bound_cart b.binding));
        this_merchant =
            r.account
            ∙ ap (λ m. ok m)
                (names r.merchant rec.merchant
                  (subst (λ o. NamesNoOther o rec.merchant) r.bound_merchant b.payee));
        moved = r.amount;
        this_amount = b.amount;
      }

  module _ ⦃sha : Sha256⦄ ⦃json : CanonicalJson (Preimage Decimal)⦄ where
    -- When the engine on the x402 rail returns a token for a context that is `Authorized`, the payer
    -- has signed, under the token's rules, an EIP-3009 authorization with the nonce that is derived
    -- from this very context, to the record's merchant on that chain, whose value in the token's
    -- money is the authorized amount.
    pub paid_is_signed :
        (rail : X402Rail) (signers : SignerPolicy) (now : Timestamp) (auth : Authorized Decimal)
        (proof : PaymentPayload Value) (g : Inner Decimal) (rec : Record Decimal) {token : Paid}
        → get g.records auth.ctx ≡ some rec
        → rec.state ≡ authorized
        → (record_payment (x402_ledger rail signers now) auth proof g).0 ≡ ok token
        → PaysRecord rail proof auth.ctx rec
    paid_is_signed rail signers now auth proof g rec here is_new h =
        let (v, verified, bound, _, _) =
          paid-IsBound (x402_ledger rail signers now) auth proof g rec here is_new h in
        bound-PaysRecord rail proof auth.ctx rec v
          (verify_proof-IsPayment rail proof (expectation auth.ctx rec) v verified) bound
