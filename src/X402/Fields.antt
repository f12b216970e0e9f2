-- ===== src/X402/Fields.antt =====
-- The strings on the wire (crates/ml-adapters/src/x402/fields.rs). `rust_decimal`'s reading of units
-- at a scale is a parameter.
use mandate_ledger.Prelude.{
  ℕ, ◌*◌, ◌^◌, Bool, not, ◌&&◌, ◌||◌, ◌++◌, Option, none, some, Result, ok, err, ltb, leb, nat_beq,
  all, is_empty, if◌then◌else◌, ◌==◌, list_eq, nat_eq,
}
use mandate_ledger.Prelude.Int.{ℤ, pos}
use mandate_ledger.Text.{Text, Bytes, codes, strip_prefix, len}
use mandate_ledger.Text.Decimal.{display_nat, parse_uint, is_ascii_digit}
use mandate_ledger.Text.Codec.{HexDecode, Keccak, of_length}
use mandate_ledger.Money.{Money}
use mandate_ledger.Cart.{AdapterError, malformed_payload, unsupported_payload}
use mandate_ledger.X402.Types.{Address, parse_address}
use mandate_ledger.X402.Assets.{Asset}

-- `Decimal::try_from_i128_with_scale`
pub record DecimalUnits (Decimal : Type 0) : Type 0 where
  pub from_units : ℤ → ℕ → Option Decimal

-- `starts_with`, for a text
abbrev pub starts_with : Text → Text → Bool
starts_with s p = elim (strip_prefix s p) [ none ↦ Bool.false | some rest ↦ Bool.true ]

-- `address`
unfoldable pub address_field :
    ⦃sha3 : Keccak⦄ ⦃dec : HexDecode⦄ → Text → Text → Result AdapterError Address
unfolding parse_address strip_prefix
address_field field value =
    if not (starts_with value (codes "0x"))
    then err (unsupported_payload (field ++ codes ": only an EVM address"))
    else elim (parse_address value) [
      | err why ↦ err (malformed_payload (field ++ (codes ": " ++ why)))
      | ok address ↦ ok address
    ]

-- `canonical` of `uint`
unfoldable pub is_canonical_uint : Text → Bool
unfolding is_ascii_digit len strip_prefix
is_canonical_uint value =
    not (is_empty value)
    && leb (len value) 78
    && all is_ascii_digit value
    && (value == codes "0" || not (starts_with value (codes "0")))

-- `uint`
unfoldable pub uint : Text → Text → Result AdapterError ℕ
unfolding is_canonical_uint parse_uint
uint field value =
    if not (is_canonical_uint value)
    then err (malformed_payload (field ++ codes ": a whole number, without leading zeros"))
    else elim (parse_uint (2 ^ 128) value) [
      | none ↦ err (unsupported_payload (field ++ codes ": beyond the range this adapter handles"))
      | some n ↦ ok n
    ]

-- `money`: `i128::try_from`, then the decimal of that many units at the token's scale.
unfoldable pub money_of_units :
    {Decimal : Type 0} ⦃units : DecimalUnits Decimal⦄
    → ℕ
    → Asset
    → Result AdapterError (Money Decimal)
money_of_units ⦃units⦄ atomic token =
    elim (if ltb atomic (2 ^ 127) then units.from_units (pos atomic) token.decimals else none) [
      | none ↦ err (unsupported_payload (codes "amount: beyond the range this adapter prices"))
      | some amount ↦ ok (record { amount = amount; currency = token.symbol })
    ]

-- `bytes::<N>`
unfoldable pub bytes_field : ⦃dec : HexDecode⦄ → ℕ → Text → Text → Result AdapterError Bytes
unfolding strip_prefix len
bytes_field ⦃dec⦄ n field value =
    let refused =
      malformed_payload
        (field ++ (codes ": 0x and " ++ (display_nat (2 * n) ++ codes " hex digits"))) in
    elim (strip_prefix value (codes "0x")) [
      | none ↦ err refused
      | some hex ↦
          if nat_beq (len hex) (2 * n)
          then elim (of_length n (dec.decode_hex hex)) [ none ↦ err refused | some out ↦ ok out ]
          else err refused
    ]
