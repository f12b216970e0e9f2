-- ===== src/X402/Payments.antt =====
-- What the x402 rail has checked when it reports a payment, and the payment that a context recorded.
use mandate_ledger.Prelude.{
  ◌≡◌, refl, sym, ap, ◌∙◌, ◌⊎◌, inl, inr, Bool, true, false, Option, none, some, Result, ok, err,
  nat_beq, nat_beq_iff, map_err, ◌>>◌, >>=-ok, ok->>=, map_err-ok, ok_injective, Bool-cases, ◌==◌,
  ==_eq, eq_==, list_eq, nat_eq, option_eq, arith,
}
use mandate_ledger.Prelude.Int.{pos, ◌+ℤ◌, ◌≤ℤ◌}
use mandate_ledger.Text.{Text, Bytes, codes}
use mandate_ledger.Text.Codec.{HexDecode, Keccak}
use mandate_ledger.Time.{Timestamp}
use mandate_ledger.Ids.{Hex, MerchantId, new_id, lowercase_trimmed}
use mandate_ledger.Cart.{invalid_id}
use mandate_ledger.Rail.{PaymentExpectation, VerifiedProof}
use mandate_ledger.X402.Types.{Address, account_id}
use mandate_ledger.X402.Fields.{DecimalUnits, money_of_units}
use mandate_ledger.X402.Eip3009.{Authorization, Secp256k1, signing_digest, recover, binding_nonce}
use mandate_ledger.X402.Payment.{PaymentPayload, parse_payload}
use mandate_ledger.X402.CartTerms.{JsonOps, ExactTerms, terms}
use mandate_ledger.X402.Reference.{AuthorizationRef, identity_of, display_reference}
use mandate_ledger.X402.Judge.{X402Rail, invalid, demand}
use mandate_ledger.X402.Verify.{
  payment_of, check_fresh, check_window, or_bad_signature, bound_context, check_signed, report,
  verify_proof,
}

pub demand-ok : (b : Bool) (why : Text) {u : Unit {0}} → demand b why ≡ ok u → b ≡ true
demand-ok true why h = refl
demand-ok false why h = cc

or_bad_signature-ok : (r : Result Text Address) {a : Address} → or_bad_signature r ≡ ok a → r ≡ ok a
or_bad_signature-ok (ok x) h = ground arith
or_bad_signature-ok (err why) h = cc

-- At `now` the authorization can be settled: six seconds are left, and it is already valid.
pub record IsFresh (auth : Authorization) (now : Timestamp) : Type 0 where
  pub before_expiry : (now +ℤ pos 6) ≤ℤ pos auth.valid_before
  pub after_start : pos auth.valid_after ≤ℤ now

check_fresh-IsFresh :
    (auth : Authorization) (now : Timestamp) → check_fresh auth now ≡ ok tt → IsFresh auth now
unfolding check_fresh
check_fresh-IsFresh auth now h = record { before_expiry = ground arith; after_start = ground arith }

window-ok :
    ⦃hex : Hex⦄ (now : Timestamp) (payment : AuthorizationRef) (auth : Authorization)
    (recorded : Option Text)
    → check_window now payment auth recorded ≡ ok tt
    → (recorded ≡ some (display_reference payment)) ⊎ IsFresh auth now
unfolding check_window
window-ok now payment auth recorded h =
    elim (Bool-cases (recorded == some (display_reference payment))) [
      | inl same ↦ inl (==_eq recorded (some (display_reference payment)) same)
      | inr other ↦ inr (check_fresh-IsFresh auth now (rw other at h))
    ]

module _ {Decimal : Type 0} ⦃sha3 : Keccak⦄ ⦃curve : Secp256k1⦄ where
  pub record IsSigned (agreed : ExactTerms Decimal) (auth : Authorization) (signature : Bytes)
      : Type 0 where
    pub payee : auth.to ≡ agreed.pay_to
    pub value : auth.value ≡ agreed.atomic_amount
    pub signed :
        recover (signing_digest agreed.chain agreed.asset agreed.token auth) signature
        ≡ ok auth.from

  check_signed-ok :
      (agreed : ExactTerms Decimal) (auth : Authorization) (signature : Bytes) {u : Unit {0}}
      → check_signed agreed auth signature ≡ ok u
      → IsSigned agreed auth signature
  unfolding check_signed
  check_signed-ok agreed auth signature h =
      let a = >>=-ok (demand (auth.to == agreed.pay_to) _) _ h in
      let b = >>=-ok (demand (nat_beq auth.value agreed.atomic_amount) _) _ a.2 in
      let c =
        >>=-ok
          (or_bad_signature
            (recover (signing_digest agreed.chain agreed.asset agreed.token auth) signature))
          _ b.2 in
      record {
        payee = ==_eq auth.to agreed.pay_to (demand-ok _ _ a.1);
        value = (nat_beq_iff auth.value agreed.atomic_amount).0 (demand-ok _ _ b.1);
        signed =
            or_bad_signature-ok _ c.1
            ∙ ap (λ (x : Address). ok x) (==_eq c.0 auth.from (demand-ok _ _ c.2));
      }

module _ {Decimal : Type 0} ⦃units : DecimalUnits Decimal⦄ ⦃sha3 : Keccak⦄ ⦃hex : Hex⦄ where
  -- The report of an authorization under the terms it pays.
  pub record IsReport (agreed : ExactTerms Decimal) (auth : Authorization)
      (expected : PaymentExpectation Decimal) (v : VerifiedProof Decimal) : Type 0 where
    pub merchant : MerchantId
    pub amount : money_of_units auth.value agreed.token ≡ ok v.amount
    pub account : new_id lowercase_trimmed (account_id agreed.chain auth.to) ≡ ok merchant
    pub reference : v.reference ≡ display_reference (payment_of agreed auth)
    pub nonce : v.nonce ≡ identity_of (payment_of agreed auth)
    pub bound_ctx :
        v.bound_ctx ≡ bound_context (auth.nonce == binding_nonce expected.ctx) expected.ctx
    pub bound_cart : v.bound_cart ≡ none
    pub bound_merchant : v.bound_merchant ≡ some merchant

  report-ok :
      (agreed : ExactTerms Decimal) (auth : Authorization) (expected : PaymentExpectation Decimal)
      (v : VerifiedProof Decimal)
      → report agreed auth expected ≡ ok v
      → IsReport agreed auth expected v
  unfolding report
  report-ok agreed auth expected v h =
      let a = >>=-ok (map_err invalid (money_of_units auth.value agreed.token)) _ h in
      let b =
        >>=-ok
          (map_err (λ x. invalid (invalid_id x))
            (new_id lowercase_trimmed (account_id agreed.chain auth.to)))
          _ a.2 in
      let shown = ok_injective b.2 in
      record {
        merchant = b.0;
        amount =
            map_err-ok invalid (money_of_units auth.value agreed.token) a.1
            ∙ ap (λ (x : VerifiedProof Decimal). ok x.amount) shown;
        account =
            map_err-ok (λ x. invalid (invalid_id x))
              (new_id lowercase_trimmed (account_id agreed.chain auth.to)) b.1;
        reference = sym (ap (λ (x : VerifiedProof Decimal). x.reference) shown);
        nonce = sym (ap (λ (x : VerifiedProof Decimal). x.nonce) shown);
        bound_ctx = sym (ap (λ (x : VerifiedProof Decimal). x.bound_ctx) shown);
        bound_cart = sym (ap (λ (x : VerifiedProof Decimal). x.bound_cart) shown);
        bound_merchant = sym (ap (λ (x : VerifiedProof Decimal). x.bound_merchant) shown);
      }

module _ {Decimal : Type 0} ⦃units : DecimalUnits Decimal⦄ ⦃sha3 : Keccak⦄ ⦃hex : Hex⦄
    ⦃curve : Secp256k1⦄ where
  -- Behind the terms and the authorization.
  after_parsing :
      (self : X402Rail) (agreed : ExactTerms Decimal) (signed : Authorization × Bytes)
      (expected : PaymentExpectation Decimal) (v : VerifiedProof Decimal)
      → (check_signed agreed signed.0 signed.1
          >> (check_window self.now
                (payment_of agreed signed.0)
                signed.0
                expected.recorded_reference
              >> report agreed signed.0 expected))
        ≡ ok v
      → IsSigned agreed signed.0 signed.1
        × ((expected.recorded_reference ≡ some v.reference) ⊎ IsFresh signed.0 self.now)
        × IsReport agreed signed.0 expected v
  after_parsing self agreed (auth, signature) expected v h =
      let a = >>=-ok (check_signed agreed auth signature) _ h in
      let b =
        >>=-ok (check_window self.now (payment_of agreed auth) auth expected.recorded_reference) _
          a.2 in
      let reported = report-ok agreed auth expected v b.2 in
      (
        check_signed-ok agreed auth signature a.1,
        elim (window-ok self.now (payment_of agreed auth) auth expected.recorded_reference b.1) [
          | inl same ↦ inl (same ∙ ap (λ (t : Text). some t) (sym reported.reference))
          | inr fresh ↦ inr fresh
        ],
        reported,
      )

  -- The same payment, at any other time, when the context has recorded it.
  after_parsing_again :
      (self : X402Rail) (now : Timestamp) (agreed : ExactTerms Decimal)
      (signed : Authorization × Bytes) (expected : PaymentExpectation Decimal)
      (v : VerifiedProof Decimal)
      → (check_signed agreed signed.0 signed.1
          >> (check_window self.now
                (payment_of agreed signed.0)
                signed.0
                expected.recorded_reference
              >> report agreed signed.0 expected))
        ≡ ok v
      → (check_signed agreed signed.0 signed.1
          >> (check_window now (payment_of agreed signed.0) signed.0 (some v.reference)
              >> report agreed signed.0
                  (record expected { recorded_reference = some v.reference })))
        ≡ ok v
  unfolding check_window report
  after_parsing_again self now agreed (auth, signature) expected v h =
      let a = >>=-ok (check_signed agreed auth signature) _ h in
      let b =
        >>=-ok (check_window self.now (payment_of agreed auth) auth expected.recorded_reference) _
          a.2 in
      let reported = report-ok agreed auth expected v b.2 in
      let known : (some v.reference == some (display_reference (payment_of agreed auth))) ≡ true =
        eq_== (some v.reference) (some (display_reference (payment_of agreed auth)))
          (ap (λ (t : Text). some t) reported.reference) in
      ok->>= (check_signed agreed auth signature) _ tt a.1 (rw known b.2)

module _ {Decimal Value : Type 0} ⦃units : DecimalUnits Decimal⦄ ⦃value_ops : JsonOps Value⦄
    ⦃sha3 : Keccak⦄ ⦃dec : HexDecode⦄ ⦃hex : Hex⦄ ⦃curve : Secp256k1⦄ where
  -- What a reported payment is: an authorization that its payer signed for the token of the terms,
  -- to their payee and of their amount, that is fresh or recorded; and the report of it.
  pub record IsPayment (self : X402Rail) (proof : PaymentPayload Value)
      (expected : PaymentExpectation Decimal) (v : VerifiedProof Decimal) : Type 0 where
    pub agreed : ExactTerms Decimal
    pub auth : Authorization
    pub signature : Bytes
    pub version : proof.x402_version ≡ 2
    pub priced : terms self.registry proof.accepted ≡ ok agreed
    pub parsed : parse_payload proof.payload ≡ ok (auth, signature)
    pub signed : IsSigned agreed auth signature
    pub window : (expected.recorded_reference ≡ some v.reference) ⊎ IsFresh auth self.now
    pub reported : IsReport agreed auth expected v

  -- Whatever the rail reports of a payment, the payer signed, under the token's own rules, an
  -- authorization for the payee and amount of terms that the rail's registry prices, which can still
  -- be settled or is the payment that the context recorded; and the report gives the authorization's
  -- amount, its payee's account on that chain, and the context only for the nonce derived from it.
  pub verify_proof-IsPayment :
      (self : X402Rail) (proof : PaymentPayload Value) (expected : PaymentExpectation Decimal)
      (v : VerifiedProof Decimal)
      → verify_proof self proof expected ≡ ok v
      → IsPayment self proof expected v
  unfolding verify_proof
  verify_proof-IsPayment self proof expected v h =
      let a = >>=-ok (demand (nat_beq proof.x402_version 2) (codes "x402Version: only 2")) _ h in
      let b = >>=-ok (map_err invalid (terms self.registry proof.accepted)) _ a.2 in
      let c = >>=-ok (map_err invalid (parse_payload proof.payload)) _ b.2 in
      let d = after_parsing self b.0 c.0 expected v c.2 in
      record {
        agreed = b.0;
        auth = c.0.0;
        signature = c.0.1;
        version = (nat_beq_iff proof.x402_version 2).0 (demand-ok _ _ a.1);
        priced = map_err-ok invalid (terms self.registry proof.accepted) b.1;
        parsed = map_err-ok invalid (parse_payload proof.payload) c.1;
        signed = d.0;
        window = d.1;
        reported = d.2;
      }

  -- The payment that a context recorded is answered again, with the same report, whenever it is
  -- presented for that context: its window is not looked at any more.
  pub recorded_payment_again :
      (self : X402Rail) (proof : PaymentPayload Value) (expected : PaymentExpectation Decimal)
      (v : VerifiedProof Decimal) (now : Timestamp)
      → verify_proof self proof expected ≡ ok v
      → verify_proof
          (record self { now = now })
          proof
          (record expected { recorded_reference = some v.reference })
        ≡ ok v
  unfolding verify_proof
  recorded_payment_again self proof expected v now h =
      let a = >>=-ok (demand (nat_beq proof.x402_version 2) (codes "x402Version: only 2")) _ h in
      let b = >>=-ok (map_err invalid (terms self.registry proof.accepted)) _ a.2 in
      let c = >>=-ok (map_err invalid (parse_payload proof.payload)) _ b.2 in
      ok->>= (demand (nat_beq proof.x402_version 2) (codes "x402Version: only 2")) _ tt a.1 (
        ok->>= (map_err invalid (terms self.registry proof.accepted)) _ b.0 b.1 (
          ok->>= (map_err invalid (parse_payload proof.payload)) _ c.0 c.1
            (after_parsing_again self now b.0 c.0 expected v c.2)))
