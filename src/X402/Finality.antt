-- ===== src/X402/Finality.antt =====
-- What shows that an x402 payment settled (crates/ml-adapters/src/x402/finality.rs): the
-- facilitator's answer, or the transaction's receipt with its logs.
use mandate_ledger.Prelude.{
  ℕ, ◌+◌, ◌-◌, ◌*◌, Bool, false, not, ◌&&◌, ◌||◌, List, [], ◌∷◌, Option, none, some, ok, err, ltb,
  leb, nat_beq, length, take, all, is_empty, get_elem?, if◌then◌else◌, ◌==◌, list_eq, nat_eq,
}
use mandate_ledger.Prelude.Map.{get_or}
use mandate_ledger.Text.{Text, Bytes, codes, utf8, len, strip_prefix}
use mandate_ledger.Text.Codec.{HexDecode, Keccak, of_length, drop}
use mandate_ledger.X402.Types.{Address, parse_address}

pub record SettlementResponse (Value : Type 0) : Type 0 where
  pub success : Bool
  pub error_reason : Option Text
  pub payer : Option Text
  pub transaction : Text
  pub network : Text
  pub amount : Option Text
  pub extensions : Option Value

pub record Log : Type 0 where
  pub address : Text
  pub topics : List Text
  pub log_data : Text

pub record TransactionReceipt : Type 0 where
  pub transaction_hash : Text
  pub block_number : Text
  pub status : Text
  pub logs : List Log

pub data X402Finality (Value : Type 0) : Type 0 where
  facilitator : SettlementResponse Value → X402Finality Value
  receipt : Text → ℕ → TransactionReceipt → X402Finality Value

-- `char::to_digit(16)`
unfoldable pub hex_digit : ℕ → Option ℕ
hex_digit c =
    if leb 48 c && leb c 57
    then some (c - 48)
    else if leb 97 c && leb c 102
    then some (c - 87)
    else if leb 65 c && leb c 70
    then some (c - 55)
    else none

-- The digits of `u64::from_str_radix(_, 16)`: sixteen of them never overflow.
unfoldable pub scan_hex : Text → ℕ → Option ℕ
unfolding hex_digit
scan_hex [] n = some n
scan_hex (c ∷ s) n = elim (hex_digit c) [ none ↦ none | some d ↦ scan_hex s (n * 16 + d) ]

-- `u64::from_str_radix(_, 16)` on at most sixteen bytes: one `+` may lead.
unfoldable pub from_hex : Text → Option ℕ
unfolding scan_hex
from_hex [] = none
from_hex (c ∷ []) = scan_hex (c ∷ []) 0
from_hex (c ∷ d ∷ s) = scan_hex (if nat_beq c b'+' then d ∷ s else c ∷ d ∷ s) 0

-- `quantity`
unfoldable pub quantity : Text → Option ℕ
unfolding from_hex strip_prefix len
quantity value = elim (strip_prefix value (codes "0x")) [
  | none ↦ none
  | some hex ↦ if is_empty hex || ltb 16 (len hex) then none else from_hex hex
]

-- `u128::from_be_bytes`, continued from `n`
abbrev pub from_be_bytes : Bytes → ℕ → ℕ
from_be_bytes [] n = n
from_be_bytes (b ∷ bytes) n = from_be_bytes bytes (n * 256 + b)

abbrev pub is_zero_byte : ℕ → Bool
is_zero_byte b = nat_beq b 0

-- `contract.iter().any(|b| b != 0)` is false
abbrev pub all_zero : Bytes → Bool
all_zero bytes = all is_zero_byte bytes

module _ ⦃dec : HexDecode⦄ where
  -- `word`
  unfoldable pub word : Text → Option Bytes
  unfolding strip_prefix
  word value = elim (strip_prefix value (codes "0x")) [
    | none ↦ none
    | some hex ↦ of_length 32 (dec.decode_hex hex)
  ]

  -- `topic_address`
  unfoldable pub topic_address : Text → Option Address
  unfolding word
  topic_address topic = elim (word topic) [
    | none ↦ none
    | some bytes ↦ if all_zero (take 12 bytes) then some (drop 12 bytes) else none
  ]

  -- The value of a `Transfer`, when it fits a `u128`.
  unfoldable pub transfer_value : Text → Option ℕ
  unfolding word
  transfer_value text = elim (word text) [
    | none ↦ none
    | some bytes ↦ if all_zero (take 16 bytes) then some (from_be_bytes (drop 16 bytes) 0) else none
  ]

  module _ ⦃sha3 : Keccak⦄ where
    -- `event`
    unfoldable pub event_topic : Text → Bytes
    unfolding utf8
    event_topic signature = sha3.keccak (utf8 signature)

    -- `Log::emitted_by`
    unfoldable pub emitted_by : Log → Address → Bool
    unfolding parse_address
    emitted_by self contract = elim (parse_address self.address) [
      | err why ↦ false
      | ok a ↦ a == contract
    ]

    -- `Log::is`
    unfoldable pub log_is : Log → Text → ℕ → Bool
    unfolding word event_topic
    log_is self signature arguments =
        nat_beq (length self.topics) (1 + arguments)
        && elim (word (get_or [] (get_elem? self.topics 0))) [
          | none ↦ false
          | some t ↦ t == event_topic signature
        ]

    -- `Log::authorization_used`
    unfoldable pub authorization_used : Address → Log → Option (Address × Bytes)
    unfolding emitted_by log_is topic_address word
    authorization_used token self =
        if not (emitted_by self token)
          || not (log_is self (codes "AuthorizationUsed(address,bytes32)") 2)
        then none
        else elim (topic_address (get_or [] (get_elem? self.topics 1))) [
          | none ↦ none
          | some authorizer ↦ elim (word (get_or [] (get_elem? self.topics 2))) [
            | none ↦ none
            | some nonce ↦ some (authorizer, nonce)
          ]
        ]

    -- `Log::transfer`
    unfoldable pub transfer : Address → Log → Option (Address × Address × ℕ)
    unfolding emitted_by log_is topic_address transfer_value
    transfer token self =
        if not (emitted_by self token)
          || not (log_is self (codes "Transfer(address,address,uint256)") 2)
        then none
        else elim (transfer_value self.log_data) [
          | none ↦ none
          | some value ↦ elim (topic_address (get_or [] (get_elem? self.topics 1))) [
            | none ↦ none
            | some from ↦ elim (topic_address (get_or [] (get_elem? self.topics 2))) [
              | none ↦ none
              | some to ↦ some (from, to, value)
            ]
          ]
        ]
