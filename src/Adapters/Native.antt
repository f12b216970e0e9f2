-- ===== src/Adapters/Native.antt =====
-- A plain JSON cart with an optional merchant signature (crates/ml-adapters/src/native.rs). serde's
-- reading of a document is a parameter.
use mandate_ledger.Prelude.{
  ℕ, ◌^◌, ◌++◌, List, Option, none, some, Result, ok, err, ltb, length, if◌then◌else◌, map_err,
  ◌>>=◌, list_eq, nat_eq,
}
use mandate_ledger.Prelude.Map.{Map, get, insert}
use mandate_ledger.Text.{Text, Bytes, codes}
use mandate_ledger.Hash.{Sha256, CanonicalJson}
use mandate_ledger.Ids.{Category, new_id, lowercase_trimmed}
use mandate_ledger.Money.{Money}
use mandate_ledger.Mandate.Body.{Ed25519}
use mandate_ledger.Cart.{
  Cart, Attestation, signed_by, unsigned, new_cart, AdapterError, malformed_payload,
  adapter_signature, invalid_id, not_canonical, CartAdapter,
}

pub record NativeAttestation : Type 0 where
  pub key_id : Text
  pub signature : Bytes

pub record NativeCart (Decimal Value : Type 0) : Type 0 where
  pub merchant : Text
  pub total : Money Decimal
  pub category : Option Text
  pub items : List Value
  pub attestation : Option NativeAttestation

-- `serde_json::from_slice::<NativeCart>`
pub record NativeJson (Decimal Value : Type 0) : Type 0 where
  pub read_native : Bytes → Result Text (NativeCart Decimal Value)

-- `NativeCartAdapter`: the merchants' verifying keys.
abbrev pub NativeCartAdapter : Type 0
NativeCartAdapter = Map Text Bytes

-- `NativeCartAdapter::with_merchant_key`
unfoldable pub with_merchant_key : NativeCartAdapter → Text → Bytes → NativeCartAdapter
unfolding insert
with_merchant_key self key_id key = insert self key_id key

abbrev pub unsigned_cart :
    {Decimal Value : Type 0} → NativeCart Decimal Value → NativeCart Decimal Value
unsigned_cart cart = record cart { attestation = none }

-- `u32::try_from(len).ok()`
unfoldable pub line_count_of : ℕ → Option ℕ
line_count_of n = if ltb n (2 ^ 32) then some n else none

abbrev pub new_category : Option Text → Result AdapterError (Option Category)
new_category none = ok none
new_category (some c) = map_err invalid_id (new_id lowercase_trimmed c) >>= λ id. ok (some id)

module _ {Decimal Value : Type 0} ⦃json : CanonicalJson (NativeCart Decimal Value)⦄ where
  -- `NativeCart::signing_bytes`
  unfoldable pub cart_signing_bytes : NativeCart Decimal Value → Result AdapterError Bytes
  cart_signing_bytes self = map_err not_canonical (json.canonical_json (unsigned_cart self))

  -- `NativeCart::canonical_bytes`
  unfoldable pub canonical_bytes : NativeCart Decimal Value → Result AdapterError Bytes
  canonical_bytes self = map_err not_canonical (json.canonical_json self)

  module _ ⦃ed : Ed25519⦄ where
    -- `NativeCart::sign`, with the merchant's seed
    unfoldable pub sign_cart :
        NativeCart Decimal Value → Text → Bytes → Result AdapterError (NativeCart Decimal Value)
    unfolding cart_signing_bytes
    sign_cart self key_id key = cart_signing_bytes (unsigned_cart self) >>= λ bytes.
        ok (record self {
          attestation = some (record { key_id = key_id; signature = ed.sign_bytes key bytes });
        })

    abbrev pub check_signature :
        NativeCart Decimal Value
        → NativeAttestation
        → Option Bytes
        → Result AdapterError Attestation
    check_signature cart a none =
        err (adapter_signature (codes "unknown merchant key `" ++ (a.key_id ++ codes "`")))
    check_signature cart a (some key) = cart_signing_bytes cart >>= λ bytes.
        if ed.verify_strict key bytes a.signature
        then ok (signed_by a.key_id)
        else err (adapter_signature (codes "bad signature for key `" ++ (a.key_id ++ codes "`")))

    -- The match on `cart.attestation`.
    unfoldable pub check_attestation :
        NativeCartAdapter
        → NativeCart Decimal Value
        → Option NativeAttestation
        → Result AdapterError Attestation
    unfolding get cart_signing_bytes
    check_attestation self cart none = ok unsigned
    check_attestation self cart (some a) = check_signature cart a (get self a.key_id)

    module _ ⦃sha : Sha256⦄ where
      -- `NativeCartAdapter::normalize_cart`
      unfoldable pub normalize_cart :
          NativeCartAdapter → NativeCart Decimal Value → Result AdapterError (Cart Decimal)
      unfolding new_id check_attestation line_count_of canonical_bytes new_cart
      normalize_cart self cart = do
        merchant ← map_err invalid_id (new_id lowercase_trimmed cart.merchant)
        attestation ← check_attestation self cart cart.attestation
        category ← new_category cart.category
        raw ← canonical_bytes cart
        ok (
            new_cart raw
              (record {
                merchant = merchant;
                total = cart.total;
                category = category;
                line_count = line_count_of (length cart.items);
              })
              attestation)

module _ {Decimal : Type 0} (Value : Type 0) ⦃json : CanonicalJson (NativeCart Decimal Value)⦄
    ⦃serde : NativeJson Decimal Value⦄ ⦃ed : Ed25519⦄ ⦃sha : Sha256⦄
    (self : NativeCartAdapter) where
  -- `normalize` of the native adapter
  unfoldable pub normalize_native : Bytes → Result AdapterError (Cart Decimal)
  unfolding normalize_cart
  normalize_native raw = elim (serde.read_native raw) [
    | err e ↦ err (malformed_payload e)
    | ok cart ↦ normalize_cart self cart
  ]

  abbrev pub native_cart_adapter : CartAdapter Decimal
  native_cart_adapter = record { normalize = normalize_native }
