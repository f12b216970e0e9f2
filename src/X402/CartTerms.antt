-- ===== src/X402/CartTerms.antt =====
-- From an x402 cart document to a cart (crates/ml-adapters/src/x402/cart.rs). `serde_json` is
-- third-party code: what the adapter reads of a value is a parameter.
use mandate_ledger.Prelude.{
  ℕ, ◌+◌, Bool, false, not, ◌&&◌, ◌||◌, List, [], ◌∷◌, ◌++◌, Option, none, some, Result, ok, err,
  ltb, leb, nat_beq, length, all, is_empty, if◌then◌else◌, map_err, ◌>>=◌, ◌>>◌, ◌==◌, list_eq,
  nat_eq, option_eq,
}
use mandate_ledger.Text.{Text, Bytes, codes, utf8, len}
use mandate_ledger.Text.Codec.{HexDecode, Keccak}
use mandate_ledger.Hash.{Sha256, CanonicalJson}
use mandate_ledger.Ids.{Hex, new_id, lowercase_trimmed}
use mandate_ledger.Money.{Money}
use mandate_ledger.Cart.{
  Cart, new_cart, unsigned, AdapterError, malformed_payload, unsupported_payload, invalid_id,
  not_canonical, CartAdapter,
}
use mandate_ledger.X402.Types.{
  ChainId, Address, zero_address, parse_chain, account_id, ResourceInfo, PaymentRequirements,
  X402Cart,
}
use mandate_ledger.X402.Assets.{Asset, AssetRegistry, get_asset}
use mandate_ledger.X402.Fields.{DecimalUnits, address_field, uint, money_of_units}

-- `serde_json::Value`: an object's `get`, `is_null`, `as_str`, and the two readings of a document.
pub record JsonOps (Value : Type 0) : Type 0 where
  pub as_object : Value → Option (Text → Option Value)
  pub is_null : Value → Bool
  pub as_str : Value → Option Text
  pub from_slice : Bytes → Result Text Value
  pub deserialize_cart : Value → Result Text (X402Cart Value)

pub record ExactTerms (Decimal : Type 0) : Type 0 where
  pub chain : ChainId
  pub asset : Address
  pub token : Asset
  pub pay_to : Address
  pub atomic_amount : ℕ
  pub total : Money Decimal
  pub max_timeout_seconds : ℕ

abbrev pub require : Bool → AdapterError → Result AdapterError (Unit {0})
require test e = if test then ok tt else err e

-- `encode_utf16().count()`
unfoldable pub utf16_len : Text → ℕ
utf16_len [] = 0
utf16_len (c ∷ s) = (if ltb c 0x10000 then 1 else 2) + utf16_len s

-- `printable` of `label`
abbrev pub is_printable : ℕ → Bool
is_printable b = leb 0x20 b && leb b 0x7E

-- `label`
unfoldable pub label : Text → Text → Result AdapterError (Unit {0})
unfolding utf8 len
label field value =
    require (not (is_empty value || ltb 32 (len value) || not (all is_printable (utf8 value))))
      (malformed_payload (field ++ codes ": 1 to 32 printable ASCII characters"))

-- `for tag in tags`
unfoldable pub check_tags : List Text → Result AdapterError (Unit {0})
unfolding label
check_tags [] = ok tt
check_tags (tag ∷ tags) = label (codes "resource.tags") tag >> check_tags tags

abbrev pub when_some :
    {A : Type 0} → (A → Result AdapterError (Unit {0})) → Option A → Result AdapterError (Unit {0})
when_some check none = ok tt
when_some check (some a) = check a

-- `resource`
unfoldable pub check_resource : ResourceInfo → Result AdapterError (Unit {0})
unfolding label check_tags utf16_len
check_resource info =
    require (not (is_empty info.url)) (malformed_payload (codes "resource.url: required"))
    >> (when_some (label (codes "resource.serviceName")) info.service_name
        >> (when_some
              (λ tags.
                require (leb (length tags) 5) (malformed_payload (codes "resource.tags: at most 5"))
                >> check_tags tags)
              info.tags
            >> when_some
                (λ icon.
                  require (leb (utf16_len icon) 2048)
                    (malformed_payload (codes "resource.iconUrl: at most 2048 characters")))
                info.icon_url))

-- The match on `(string("name"), string("version"))`.
unfoldable pub check_domain : Asset → Option Text → Option Text → Result AdapterError (Unit {0})
check_domain token (some name) (some version) =
    require (name == token.domain_name && version == token.domain_version)
      (unsupported_payload (codes "extra.name and extra.version: not the asset's EIP-712 domain"))
check_domain token (some name) none =
    err (malformed_payload (codes "extra: name and version are required for eip3009"))
check_domain token none version =
    err (malformed_payload (codes "extra: name and version are required for eip3009"))

module _ {Value : Type 0} ⦃value_ops : JsonOps Value⦄ where
  -- `reserved(key).is_some_and(|v| v.as_str() != Some(expected))`
  abbrev pub not_the_default : Text → Option Value → Bool
  not_the_default expected none = false
  not_the_default expected (some v) =
      not (value_ops.is_null v) && not (value_ops.as_str v == some expected)

  -- `string(key)`
  abbrev pub string_of : Option Value → Option Text
  string_of none = none
  string_of (some v) = value_ops.as_str v

  abbrev pub check_extra_fields : Asset → (Text → Option Value) → Result AdapterError (Unit {0})
  check_extra_fields token fields =
      require (not (not_the_default (codes "eip3009") (fields (codes "assetTransferMethod"))))
        (unsupported_payload (codes "extra.assetTransferMethod: only eip3009"))
      >> (require (not (not_the_default (codes "authorization") (fields (codes "paymentFlow"))))
            (unsupported_payload (codes "extra.paymentFlow: only authorization"))
          >> check_domain token (string_of (fields (codes "name")))
              (string_of (fields (codes "version"))))

  -- `extra`
  unfoldable pub check_extra : Option Value → Asset → Result AdapterError (Unit {0})
  unfolding check_domain
  check_extra none token =
      err (malformed_payload (codes "extra: name and version are required for eip3009"))
  check_extra (some value) token = elim (value_ops.as_object value) [
    | none ↦ err (malformed_payload (codes "extra: not an object"))
    | some fields ↦ check_extra_fields token fields
  ]

abbrev pub known_token : Option Asset → Result AdapterError Asset
known_token none =
    err (unsupported_payload (codes "asset: not a token this adapter knows on this chain"))
known_token (some token) = ok token

module _ {Decimal Value : Type 0} ⦃units : DecimalUnits Decimal⦄ ⦃value_ops : JsonOps Value⦄
    ⦃sha3 : Keccak⦄ ⦃dec : HexDecode⦄ (registry : AssetRegistry) where
  -- `X402CartAdapter::terms`
  unfoldable pub terms : PaymentRequirements Value → Result AdapterError (ExactTerms Decimal)
  unfolding parse_chain address_field get_asset zero_address uint money_of_units check_extra
  terms accepted = do
    require (accepted.scheme == codes "exact") (unsupported_payload (codes "scheme: only exact"))
    chain ← parse_chain accepted.network
    asset ← address_field (codes "asset") accepted.asset
    token ← known_token (get_asset registry chain asset)
    pay_to ← address_field (codes "payTo") accepted.pay_to
    require (not (pay_to == zero_address)) (malformed_payload (codes "payTo: the zero address"))
    require (not (pay_to == asset)) (malformed_payload (codes "payTo: the token contract itself"))
    atomic ← uint (codes "amount") accepted.amount
    total ← money_of_units atomic token
    require (not (nat_beq accepted.max_timeout_seconds 0))
        (malformed_payload (codes "maxTimeoutSeconds: at least 1"))
    check_extra accepted.extra token
    ok (record {
      chain = chain;
      asset = asset;
      token = token;
      pay_to = pay_to;
      atomic_amount = atomic;
      total = total;
      max_timeout_seconds = accepted.max_timeout_seconds;
    })

  module _ ⦃hex : Hex⦄ ⦃sha : Sha256⦄ ⦃json : CanonicalJson Value⦄ where
    -- A document that is an x402 cart, with the value it was read from.
    unfoldable pub normalize_document : Value → X402Cart Value → Result AdapterError (Cart Decimal)
    unfolding terms check_resource account_id new_id new_cart
    normalize_document value document = do
      require (nat_beq document.x402_version 2) (unsupported_payload (codes "x402Version: only 2"))
      check_resource document.resource
      agreed ← terms document.accepted
      merchant ←
          map_err invalid_id (new_id lowercase_trimmed (account_id agreed.chain agreed.pay_to))
      raw ← map_err not_canonical (json.canonical_json value)
      ok (
          new_cart raw
            (record {
              merchant = merchant;
              total = agreed.total;
              category = none;
              line_count = none;
            })
            unsigned)

module _ {Decimal : Type 0} (Value : Type 0) ⦃units : DecimalUnits Decimal⦄
    ⦃value_ops : JsonOps Value⦄ ⦃sha3 : Keccak⦄ ⦃dec : HexDecode⦄ ⦃hex : Hex⦄ ⦃sha : Sha256⦄
    ⦃json : CanonicalJson Value⦄ (registry : AssetRegistry) where
  -- `X402CartAdapter::normalize`
  unfoldable pub normalize : Bytes → Result AdapterError (Cart Decimal)
  unfolding normalize_document
  normalize raw = elim (value_ops.from_slice raw) [
    | err e ↦ err (malformed_payload (codes "not JSON: " ++ e))
    | ok value ↦ elim (value_ops.deserialize_cart value) [
      | err e ↦ err (malformed_payload (codes "not an x402 cart: " ++ e))
      | ok document ↦ normalize_document registry value document
    ]
  ]

  abbrev pub x402_cart_adapter : CartAdapter Decimal
  x402_cart_adapter = record { normalize = normalize }
