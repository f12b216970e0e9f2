-- ===== src/X402/Purchases.antt =====
-- The cart adapter, the rail and the engine together: one purchase priced, paid and recorded.
use mandate_ledger.Prelude.{
  ℕ, ◌≡◌, refl, sym, ap, ◌∙◌, subst, none, some, Result, ok, nat_beq, map_err, >>=-ok, map_err-ok,
  ok_injective, list_eq, nat_eq,
}
use mandate_ledger.Text.{Bytes}
use mandate_ledger.Text.Codec.{HexDecode, Keccak}
use mandate_ledger.Hash.{Sha256, CanonicalJson, hash_of}
use mandate_ledger.Ids.{Hex, MerchantId, new_id, lowercase_trimmed}
use mandate_ledger.Cart.{Cart, new_cart, unsigned, AdapterError, invalid_id, not_canonical}
use mandate_ledger.Rail.{PaymentExpectation, VerifiedProof}
use mandate_ledger.Store.Memory.{memory_store}
use mandate_ledger.X402.Types.{X402Cart, account_id}
use mandate_ledger.X402.Assets.{AssetRegistry}
use mandate_ledger.X402.Fields.{DecimalUnits, money_of_units}
use mandate_ledger.X402.Eip3009.{Secp256k1}
use mandate_ledger.X402.Payment.{PaymentPayload}
use mandate_ledger.X402.CartTerms.{
  JsonOps, ExactTerms, terms, require, check_resource, normalize_document, normalize,
}
use mandate_ledger.X402.Judge.{X402Rail}
use mandate_ledger.X402.Verify.{verify_proof}
use mandate_ledger.X402.Payments.{IsPayment, verify_proof-IsPayment}
use mandate_ledger.X402.Pricing.{terms-IsPriced}

same_cart :
    {D : Type 0} (a b : Cart D) → ◌≡◌ {A = Result AdapterError (Cart D)} (ok a) (ok b) → a ≡ b
same_cart a b h = ok_injective h

module _ {Decimal Value : Type 0} ⦃units : DecimalUnits Decimal⦄ ⦃value_ops : JsonOps Value⦄
    ⦃sha3 : Keccak⦄ ⦃dec : HexDecode⦄ ⦃hex : Hex⦄ where
  module _ ⦃sha : Sha256⦄ ⦃json : CanonicalJson Value⦄ where
    -- A cart that the adapter makes of a document.
    pub record IsCart (registry : AssetRegistry) (value : Value) (document : X402Cart Value)
        (cart : Cart Decimal) : Type 0 where
      pub agreed : ExactTerms Decimal
      pub priced : terms registry document.accepted ≡ ok agreed
      pub merchant :
          new_id lowercase_trimmed (account_id agreed.chain agreed.pay_to) ≡ ok cart.claims.merchant
      pub total : cart.claims.total ≡ agreed.total
      pub no_category : cart.claims.category ≡ none
      pub reported : cart.attestation ≡ unsigned
      pub raw : json.canonical_json value ≡ ok cart.raw
      pub hash : cart.hash ≡ hash_of cart.raw

    document-IsCart :
        (registry : AssetRegistry) (value : Value) (document : X402Cart Value) (cart : Cart Decimal)
        → normalize_document registry value document ≡ ok cart
        → IsCart registry value document cart
    unfolding normalize_document new_cart
    document-IsCart registry value document cart h =
        let a = >>=-ok (require (nat_beq document.x402_version 2) _) _ h in
        let b = >>=-ok (check_resource document.resource) _ a.2 in
        let c = >>=-ok (terms registry document.accepted) _ b.2 in
        let d =
          >>=-ok (map_err invalid_id (new_id lowercase_trimmed (account_id c.0.chain c.0.pay_to))) _
            c.2 in
        let e = >>=-ok (map_err not_canonical (json.canonical_json value)) _ d.2 in
        subst (λ x. IsCart registry value document x) (ok_injective e.2)
          (record {
            agreed = c.0;
            priced = c.1;
            merchant = map_err-ok invalid_id _ d.1;
            total = refl;
            no_category = refl;
            reported = refl;
            raw = map_err-ok not_canonical (json.canonical_json value) e.1;
            hash = refl;
          })

    normalized-IsCart :
        (registry : AssetRegistry) (bytes : Bytes) (value : Value) (document : X402Cart Value)
        (cart : Cart Decimal)
        → value_ops.from_slice bytes ≡ ok value
        → value_ops.deserialize_cart value ≡ ok document
        → normalize Value registry bytes ≡ ok cart
        → IsCart registry value document cart
    unfolding normalize
    normalized-IsCart registry bytes value document cart read typed h =
        document-IsCart registry value document cart
          (rw (typed, normalize) at (rw (read, normalize) at h))

  module _ ⦃curve : Secp256k1⦄ where
    -- What a payment of terms reports is what a cart of the same terms claims.
    report-terms :
        (self : X402Rail) (proof : PaymentPayload Value) (expected : PaymentExpectation Decimal)
        (v : VerifiedProof Decimal) (agreed : ExactTerms Decimal) (merchant : MerchantId)
        → IsPayment self proof expected v
        → terms self.registry proof.accepted ≡ ok agreed
        → new_id lowercase_trimmed (account_id agreed.chain agreed.pay_to) ≡ ok merchant
        → (v.amount ≡ agreed.total) × (v.bound_merchant ≡ some merchant)
    report-terms self proof expected v agreed merchant p priced account =
        let same : p.agreed ≡ agreed = ok_injective (sym p.priced ∙ priced) in
        let q = terms-IsPriced self.registry proof.accepted p.agreed p.priced in
        (
          ok_injective (
                sym p.reported.amount
                ∙ (ap (λ (n : ℕ). money_of_units n p.agreed.token) p.signed.value ∙ q.total))
              ∙ ap (λ (g : ExactTerms Decimal). g.total) same,
          p.reported.bound_merchant
              ∙ ap (λ m. some m)
                  (ok_injective (
                    sym p.reported.account
                    ∙ (ap (λ a. new_id lowercase_trimmed (account_id p.agreed.chain a))
                          p.signed.payee
                        ∙ (ap
                              (λ (g : ExactTerms Decimal).
                                new_id lowercase_trimmed (account_id g.chain g.pay_to))
                              same
                            ∙ account)))),
        )

    -- The rail and the cart adapter read one requirement alike: a payment that is made for the
    -- requirement of a cart, with the same registry, is reported with exactly the cart's total and
    -- merchant.
    pub payment_meets_cart :
        ⦃sha : Sha256⦄ ⦃json : CanonicalJson Value⦄ (self : X402Rail) (bytes : Bytes)
        (value : Value) (document : X402Cart Value) (cart : Cart Decimal)
        (proof : PaymentPayload Value) (expected : PaymentExpectation Decimal)
        (v : VerifiedProof Decimal)
        → value_ops.from_slice bytes ≡ ok value
        → value_ops.deserialize_cart value ≡ ok document
        → normalize Value self.registry bytes ≡ ok cart
        → proof.accepted ≡ document.accepted
        → verify_proof self proof expected ≡ ok v
        → (v.amount ≡ cart.claims.total) × (v.bound_merchant ≡ some cart.claims.merchant)
    payment_meets_cart self bytes value document cart proof expected v read typed made same paid =
        let c = normalized-IsCart self.registry bytes value document cart read typed made in
        let r =
          report-terms self proof expected v c.agreed cart.claims.merchant
            (verify_proof-IsPayment self proof expected v paid)
            (ap (terms self.registry) same ∙ c.priced) c.merchant in
        (r.0 ∙ sym c.total, r.1)
