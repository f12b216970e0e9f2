-- ===== src/X402/Types.antt =====
-- Addresses, chains and the wire types (crates/ml-adapters/src/x402/types.rs). serde's reading and
-- writing of them is generated code; `serde_json::Value` is a parameter.
use mandate_ledger.Prelude.{
  ℕ, ◌+◌, ◌/◌, ◌%◌, ◌^◌, Bool, true, not, ◌&&◌, ◌||◌, List, [], ◌∷◌, ◌++◌, Option, none, some,
  Result, ok, err, leb, nat_beq, get_elem?, any, all, if◌then◌else◌, map,
}
use mandate_ledger.Prelude.Map.{get_or}
use mandate_ledger.Text.{Text, Bytes, codes, strip_prefix, len, lower}
use mandate_ledger.Text.Decimal.{display_nat, parse_uint, is_ascii_digit}
use mandate_ledger.Text.Codec.{HexDecode, Keccak, of_length, is_ascii_lowercase, is_ascii_uppercase}
use mandate_ledger.Ids.{Hex}
use mandate_ledger.Hash.{zeros}
use mandate_ledger.Cart.{AdapterError, unsupported_payload}

-- `[u8; 20]`
abbrev pub Address : Type 0
Address = Bytes

-- `Address::ZERO`
unfoldable pub zero_address : Address
zero_address = zeros 20

-- The high nibble of a byte for an even position, the low one for an odd.
unfoldable pub nibble : Bytes → ℕ → ℕ
nibble hash i =
    let byte = get_or 0 (get_elem? hash (i / 2)) in
    if nat_beq (i % 2) 0 then byte / 16 else byte % 16

-- The closure of `checksummed` at the characters from position `i` on.
unfoldable pub checksummed_from : Bytes → ℕ → Text → Bool
unfolding nibble is_ascii_lowercase is_ascii_uppercase
checksummed_from hash i [] = true
checksummed_from hash i (c ∷ s) =
    (not (is_ascii_lowercase c || is_ascii_uppercase c)
      || (if is_ascii_uppercase c then leb 8 (nibble hash i) else not (leb 8 (nibble hash i))))
    && checksummed_from hash (i + 1) s

module _ ⦃sha3 : Keccak⦄ where
  -- `checksummed`
  unfoldable pub checksummed : Text → Bool
  unfolding lower
  checksummed hex = checksummed_from (sha3.keccak (map lower hex)) 0 hex

  -- The checks of `Address::parse` on the text after `0x`.
  unfoldable pub parse_hex_address : ⦃dec : HexDecode⦄ → Text → Result Text Address
  unfolding checksummed is_ascii_lowercase is_ascii_uppercase
  parse_hex_address ⦃dec⦄ hex =
      if not (nat_beq (len hex) 40)
      then err (codes "not 0x and 40 hex digits")
      else elim (of_length 20 (dec.decode_hex hex)) [
        | none ↦ err (codes "not 0x and 40 hex digits")
        | some bytes ↦
            if any is_ascii_lowercase hex && any is_ascii_uppercase hex && not (checksummed hex)
            then err (codes "mixed case, but not its EIP-55 checksum")
            else ok bytes
      ]

  -- `Address::parse`
  unfoldable pub parse_address : ⦃dec : HexDecode⦄ → Text → Result Text Address
  unfolding parse_hex_address strip_prefix
  parse_address s = elim (strip_prefix s (codes "0x")) [
    | none ↦ err (codes "not 0x and 40 hex digits")
    | some hex ↦ parse_hex_address hex
  ]

module _ ⦃hex : Hex⦄ where
  -- `Display for Address`
  unfoldable pub display_address : Address → Text
  display_address address = codes "0x" ++ hex.encode_hex address

-- `u64`
abbrev pub ChainId : Type 0
ChainId = ℕ

-- `FromStr for ChainId`, for the text after `eip155:`.
unfoldable pub parse_chain_number : Text → Result AdapterError ChainId
unfolding is_ascii_digit parse_uint
parse_chain_number [] = err (unsupported_payload (codes "network is not an eip155 chain id"))
parse_chain_number (c ∷ s) =
    if all is_ascii_digit (c ∷ s) && not (nat_beq c b'0')
    then elim (parse_uint (2 ^ 64) (c ∷ s)) [
      | none ↦ err (unsupported_payload (codes "network is not an eip155 chain id"))
      | some id ↦ ok id
    ]
    else err (unsupported_payload (codes "network is not an eip155 chain id"))

-- `FromStr for ChainId`
unfoldable pub parse_chain : Text → Result AdapterError ChainId
unfolding parse_chain_number strip_prefix
parse_chain s = elim (strip_prefix s (codes "eip155:")) [
  | none ↦ err (unsupported_payload (codes "network is not an eip155 chain id"))
  | some id ↦ parse_chain_number id
]

-- `Display for ChainId`
unfoldable pub display_chain : ChainId → Text
unfolding display_nat
display_chain id = codes "eip155:" ++ display_nat id

-- `account_id`
unfoldable pub account_id : ⦃hex : Hex⦄ → ChainId → Address → Text
unfolding display_chain display_address
account_id chain address = display_chain chain ++ (b':' ∷ display_address address)

pub record ResourceInfo : Type 0 where
  pub url : Text
  pub description : Option Text
  pub mime_type : Option Text
  pub service_name : Option Text
  pub tags : Option (List Text)
  pub icon_url : Option Text

pub record PaymentRequirements (Value : Type 0) : Type 0 where
  pub scheme : Text
  pub network : Text
  pub amount : Text
  pub asset : Text
  pub pay_to : Text
  pub max_timeout_seconds : ℕ
  pub extra : Option Value

pub record X402Cart (Value : Type 0) : Type 0 where
  pub x402_version : ℕ
  pub resource : ResourceInfo
  pub accepted : PaymentRequirements Value
  pub extensions : Option Value
