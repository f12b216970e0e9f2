-- ===== src/Cart.antt =====
-- The cart as the engine sees it (crates/ml-core/src/cart.rs).
pub mod Messages
use mandate_ledger.Prelude.{ℕ, Option, Result}
use mandate_ledger.Text.{Text, Bytes}
use mandate_ledger.Hash.{Hash32, Sha256, hash_of, CanonicalizeError}
use mandate_ledger.Ids.{MerchantId, Category, IdError}
use mandate_ledger.Money.{Money, MoneyError}

pub record ScopeClaims (Decimal : Type 0) : Type 0 where
  pub merchant : MerchantId
  pub total : Money Decimal
  pub category : Option Category
  pub line_count : Option ℕ

pub data AttestationLevel : Type 0 where
  agent_reported merchant_signed : AttestationLevel

-- The derived order goes by the discriminants.
abbrev pub rank : AttestationLevel → ℕ
rank agent_reported = 0
rank merchant_signed = 1

pub data Attestation : Type 0 where
  signed_by : Text → Attestation
  unsigned : Attestation

-- `Attestation::level`
unfoldable pub level : Attestation → AttestationLevel
level (signed_by key_id) = merchant_signed
level unsigned = agent_reported

pub record Cart (Decimal : Type 0) : Type 0 where
  pub hash : Hash32
  pub claims : ScopeClaims Decimal
  pub attestation : Attestation
  pub raw : Bytes

-- `Cart::new`
unfoldable pub new_cart :
    {Decimal : Type 0} ⦃sha : Sha256⦄ → Bytes → ScopeClaims Decimal → Attestation → Cart Decimal
unfolding hash_of
new_cart raw claims attestation = record {
  hash = hash_of raw;
  claims = claims;
  attestation = attestation;
  raw = raw;
}

-- `AdapterError`
pub data AdapterError : Type 0 where
  malformed_payload : Text → AdapterError
  adapter_signature : Text → AdapterError
  unsupported_payload : Text → AdapterError
  invalid_id : IdError → AdapterError
  invalid_money : MoneyError → AdapterError
  not_canonical : CanonicalizeError → AdapterError

-- `trait CartAdapter`
pub record CartAdapter (Decimal : Type 0) : Type 0 where
  pub normalize : Bytes → Result AdapterError (Cart Decimal)
