-- ===== src/X402/Verify.antt =====
-- The x402 rail's check of a payment, and the rail (crates/ml-adapters/src/x402/rail.rs).
use mandate_ledger.Prelude.{
  Bool, not, Option, none, some, Result, ok, err, nat_beq, if◌then◌else◌, map_err, ◌>>=◌, ◌>>◌,
  ◌++◌, ◌==◌, list_eq, nat_eq, option_eq,
}
use mandate_ledger.Prelude.Int.{pos, ◌+ℤ◌, ltb_ℤ}
use mandate_ledger.Text.{Text, Bytes, codes}
use mandate_ledger.Text.Codec.{HexDecode, Keccak}
use mandate_ledger.Time.{Timestamp}
use mandate_ledger.Ids.{Hex, ContextId, new_id, lowercase_trimmed}
use mandate_ledger.Money.{DecimalOps}
use mandate_ledger.Cart.{invalid_id}
use mandate_ledger.Rail.{PaymentExpectation, VerifiedProof, RailError, invalid_proof, Rail}
use mandate_ledger.X402.Types.{Address, account_id}
use mandate_ledger.X402.Fields.{DecimalUnits, money_of_units}
use mandate_ledger.X402.Eip3009.{Authorization, Secp256k1, signing_digest, recover, binding_nonce}
use mandate_ledger.X402.Payment.{PaymentPayload, parse_payload}
use mandate_ledger.X402.CartTerms.{JsonOps, ExactTerms, terms}
use mandate_ledger.X402.Finality.{X402Finality}
use mandate_ledger.X402.Reference.{AuthorizationRef, identity_of, display_reference}
use mandate_ledger.X402.Judge.{X402Rail, invalid, demand, check_finality}

-- The authorization as the chain keys it, under the terms it pays.
abbrev pub payment_of : {Decimal : Type 0} → ExactTerms Decimal → Authorization → AuthorizationRef
payment_of agreed auth = record {
  chain = agreed.chain;
  token = agreed.asset;
  from = auth.from;
  nonce = auth.nonce;
  valid_before = auth.valid_before;
}

-- The window, at `now`, with the facilitator's margin of six seconds.
unfoldable pub check_fresh : Authorization → Timestamp → Result RailError (Unit {0})
check_fresh auth now =
    demand (not (ltb_ℤ (pos auth.valid_before) (now +ℤ pos 6))) (
      codes
        "invalid_exact_evm_payload_authorization_valid_before: expired, or too close to expiry to settle")
    >> demand (not (ltb_ℤ now (pos auth.valid_after)))
        (codes "invalid_exact_evm_payload_authorization_valid_after: not yet valid")

-- `recover`, with its refusal in the facilitator's words.
abbrev pub or_bad_signature : Result Text Address → Result RailError Address
or_bad_signature (ok signer) = ok signer
or_bad_signature (err why) =
    err (invalid_proof (codes "invalid_exact_evm_payload_signature: " ++ why))

-- Freshness is for a payment that is not the one this context recorded.
unfoldable pub check_window :
    ⦃hex : Hex⦄
    → Timestamp
    → AuthorizationRef
    → Authorization
    → Option Text
    → Result RailError (Unit {0})
unfolding display_reference check_fresh
check_window now payment auth recorded =
    if recorded == some (display_reference payment) then ok tt else check_fresh auth now

abbrev pub bound_context : Bool → ContextId → Option ContextId
bound_context bound ctx = if bound then some ctx else none

module _ {Decimal : Type 0} ⦃sha3 : Keccak⦄ where
  -- What the reference facilitator checks of the signed authorization.
  unfoldable pub check_signed :
      ⦃curve : Secp256k1⦄ → ExactTerms Decimal → Authorization → Bytes → Result RailError (Unit {0})
  unfolding signing_digest recover
  check_signed agreed auth signature = do
    demand (auth.to == agreed.pay_to) (
        codes
          "invalid_exact_evm_payload_recipient_mismatch: authorization.to is not accepted.payTo")
    demand (nat_beq auth.value agreed.atomic_amount) (
        codes
          "invalid_exact_evm_payload_authorization_value_mismatch: authorization.value is not accepted.amount")
    signer ←
        or_bad_signature
          (recover (signing_digest agreed.chain agreed.asset agreed.token auth) signature)
    demand (signer == auth.from)
        (codes "invalid_exact_evm_payload_signature: not signed by authorization.from")

  -- The proof that the authorization is.
  unfoldable pub report :
      ⦃units : DecimalUnits Decimal⦄ ⦃hex : Hex⦄
      → ExactTerms Decimal
      → Authorization
      → PaymentExpectation Decimal
      → Result RailError (VerifiedProof Decimal)
  unfolding identity_of display_reference money_of_units binding_nonce account_id new_id
  report agreed auth expected = do
    amount ← map_err invalid (money_of_units auth.value agreed.token)
    merchant ←
        map_err (λ e. invalid (invalid_id e))
          (new_id lowercase_trimmed (account_id agreed.chain auth.to))
    ok (record {
      reference = display_reference (payment_of agreed auth);
      nonce = identity_of (payment_of agreed auth);
      amount = amount;
      bound_ctx = bound_context (auth.nonce == binding_nonce expected.ctx) expected.ctx;
      bound_cart = none;
      bound_merchant = some merchant;
    })

module _ {Decimal Value : Type 0} ⦃units : DecimalUnits Decimal⦄ ⦃value_ops : JsonOps Value⦄
    ⦃sha3 : Keccak⦄ ⦃dec : HexDecode⦄ ⦃hex : Hex⦄ ⦃curve : Secp256k1⦄ (self : X402Rail) where
  -- `verify_proof` of the rail
  unfoldable pub verify_proof :
      PaymentPayload Value → PaymentExpectation Decimal → Result RailError (VerifiedProof Decimal)
  unfolding terms parse_payload check_signed check_window report
  verify_proof proof expected = do
    demand (nat_beq proof.x402_version 2) (codes "x402Version: only 2")
    agreed ← map_err invalid (terms self.registry proof.accepted)
    signed ← map_err invalid (parse_payload proof.payload)
    check_signed agreed signed.0 signed.1
    check_window self.now (payment_of agreed signed.0) signed.0 expected.recorded_reference
    report agreed signed.0 expected

-- `Rail for X402Rail`
abbrev pub x402_rail :
    {Decimal Value : Type 0} ⦃ops : DecimalOps Decimal⦄ ⦃units : DecimalUnits Decimal⦄
    ⦃value_ops : JsonOps Value⦄ ⦃sha3 : Keccak⦄ ⦃dec : HexDecode⦄ ⦃hex : Hex⦄ ⦃curve : Secp256k1⦄
    → X402Rail
    → Rail Decimal (PaymentPayload Value) (X402Finality Value)
x402_rail self = record {
  id = self.rail_id;
  verify_proof = verify_proof self;
  check_finality = check_finality self;
}
