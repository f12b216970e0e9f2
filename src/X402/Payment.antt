-- ===== src/X402/Payment.antt =====
-- The payment payload of the `exact` scheme on EVM (crates/ml-adapters/src/x402/payment.rs).
use mandate_ledger.Prelude.{ℕ, ◌^◌, ◌++◌, Option, Result, ok, err, ltb, if◌then◌else◌, ◌>>=◌}
use mandate_ledger.Text.{Text, Bytes, codes}
use mandate_ledger.Text.Codec.{HexDecode, Keccak}
use mandate_ledger.Cart.{AdapterError, malformed_payload}
use mandate_ledger.X402.Types.{PaymentRequirements, ResourceInfo}
use mandate_ledger.X402.Fields.{address_field, uint, bytes_field}
use mandate_ledger.X402.Eip3009.{Authorization}

pub record AuthorizationBody : Type 0 where
  pub from : Text
  pub to : Text
  pub value : Text
  pub valid_after : Text
  pub valid_before : Text
  pub nonce : Text

pub record ExactEvmPayload : Type 0 where
  pub signature : Text
  pub authorization : AuthorizationBody

pub record PaymentPayload (Value : Type 0) : Type 0 where
  pub x402_version : ℕ
  pub resource : Option ResourceInfo
  pub accepted : PaymentRequirements Value
  pub payload : ExactEvmPayload
  pub extensions : Option Value

-- The closure `time`: a `uint` that is a `u64`.
unfoldable pub time_field : Text → Text → Result AdapterError ℕ
unfolding uint
time_field field value = uint field value >>= λ n.
    if ltb n (2 ^ 64) then ok n else err (malformed_payload (field ++ codes ": not a Unix time"))

-- The signature, with a refusal of its own.
unfoldable pub signature_field : ⦃dec : HexDecode⦄ → Text → Result AdapterError Bytes
unfolding bytes_field
signature_field value = elim (bytes_field 65 (codes "signature") value) [
  | err _ ↦ err (
      malformed_payload
        (codes "signature: 0x and 130 hex digits; contract-wallet signatures are not accepted"))
  | ok bytes ↦ ok bytes
]

module _ ⦃sha3 : Keccak⦄ ⦃dec : HexDecode⦄ where
  -- `authorization` of `parse`
  unfoldable pub parse_authorization : AuthorizationBody → Result AdapterError Authorization
  unfolding address_field uint time_field bytes_field
  parse_authorization body = do
    from ← address_field (codes "authorization.from") body.from
    to ← address_field (codes "authorization.to") body.to
    value ← uint (codes "authorization.value") body.value
    valid_after ← time_field (codes "authorization.validAfter") body.valid_after
    valid_before ← time_field (codes "authorization.validBefore") body.valid_before
    nonce ← bytes_field 32 (codes "authorization.nonce") body.nonce
    ok (record {
      from = from;
      to = to;
      value = value;
      valid_after = valid_after;
      valid_before = valid_before;
      nonce = nonce;
    })

  -- `ExactEvmPayload::parse`
  unfoldable pub parse_payload : ExactEvmPayload → Result AdapterError (Authorization × Bytes)
  unfolding parse_authorization signature_field
  parse_payload self = do
    authorization ← parse_authorization self.authorization
    signature ← signature_field self.signature
    ok (authorization, signature)
