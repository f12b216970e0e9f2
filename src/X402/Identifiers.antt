-- ===== src/X402/Identifiers.antt =====
-- Printing an address or a chain and reading it back, and accounts on chains.
use mandate_ledger.Prelude.{
  ℕ, ◌*◌, ◌^◌, ◌<◌, ◌≡◌, sym, ap, ◌∙◌, true, false, [], ◌∷◌, ◌++◌, some, ok, length, all, arith,
}
use mandate_ledger.Text.{Text, Bytes, codes, strip_prefix, len, contains_char}
use mandate_ledger.Text.Decimal.{
  display_nat, parse_uint, is_ascii_digit, parse_uint-display_nat, display_nat_digits,
  display_nat_canonical, display_nat_lead, is_canonical, leads_zero,
}
use mandate_ledger.Text.Codec.{HexDecode, HexLaws, Keccak, of_length, is_byte}
use mandate_ledger.Text.Ascii.{hex-colon, len-hex, hex-uppercase}
use mandate_ledger.Ids.{Hex}
use mandate_ledger.X402.Types.{
  Address, ChainId, parse_hex_address, parse_address, display_address, parse_chain_number,
  parse_chain,
}
use mandate_ledger.X402.Fields.{bytes_field}

-- A value of `[u8; n]`.
pub record IsArray (n : ℕ) (bytes : Bytes) : Type 0 where
  pub of_size : length bytes ≡ n
  pub of_bytes : all is_byte bytes ≡ true

module _ ⦃hex : Hex⦄ ⦃dec : HexDecode⦄ (laws : HexLaws) where
  pub len-encode : (n : ℕ) (bytes : Bytes) → IsArray n bytes → len (hex.encode_hex bytes) ≡ 2 * n
  len-encode n bytes h =
      omega
        (arith, len-hex (hex.encode_hex bytes) (laws.encode_digits bytes), laws.length-encode bytes)

  of_length-encode :
      (n : ℕ) (bytes : Bytes)
      → IsArray n bytes
      → of_length n (dec.decode_hex (hex.encode_hex bytes)) ≡ some bytes
  of_length-encode n bytes h = ground (arith, laws.decode-encode bytes h.of_bytes)

  pub parse_address-display_address :
      ⦃sha3 : Keccak⦄ (address : Address)
      → IsArray 20 address
      → parse_address (display_address address) ≡ ok address
  unfolding parse_address display_address strip_prefix parse_hex_address
  parse_address-display_address address h = ground (
    arith,
    len-encode 20 address h,
    of_length-encode 20 address h,
    hex-uppercase (hex.encode_hex address) (laws.encode_digits address),
  )

  pub bytes_field-encode :
      (n : ℕ) (field : Text) (bytes : Bytes)
      → IsArray n bytes
      → bytes_field n field (codes "0x" ++ hex.encode_hex bytes) ≡ ok bytes
  unfolding bytes_field strip_prefix
  bytes_field-encode n field bytes h =
      ground (arith, len-encode n bytes h, of_length-encode n bytes h)

  pub display_address-colon :
      (address : Address) → contains_char (display_address address) b':' ≡ false
  unfolding display_address contains_char
  display_address-colon address =
      ground (arith, hex-colon (hex.encode_hex address) (laws.encode_digits address))

  pub display_address_injective :
      (a b : Address) → IsArray 20 a → IsArray 20 b → display_address a ≡ display_address b → a ≡ b
  unfolding display_address strip_prefix
  display_address_injective a b ha hb h = some_same_bytes a b (
      sym (laws.decode-encode a ha.of_bytes)
      ∙ (ap dec.decode_hex (same_rest (hex.encode_hex a) (hex.encode_hex b) h)
          ∙ laws.decode-encode b hb.of_bytes))
    where
      some_same_bytes : (x y : Bytes) → some x ≡ some y → x ≡ y
      some_same_bytes x y e = ground arith

      same_rest : (x y : Text) → codes "0x" ++ x ≡ codes "0x" ++ y → x ≡ y
      same_rest x y e = ground arith

number_of_digits :
    (s : Text) (n : ℕ)
    → all is_ascii_digit s ≡ true
    → is_canonical s ≡ true
    → leads_zero s ≡ false
    → parse_uint (2 ^ 64) s ≡ some n
    → parse_chain_number s ≡ ok n
unfolding parse_chain_number
number_of_digits [] n d c z p = cc
number_of_digits (c ∷ s) n d k z p = ground arith

pub parse_chain-display_nat :
    (chain : ChainId)
    → 0 < chain
    → chain < 2 ^ 64
    → parse_chain (codes "eip155:" ++ display_nat chain) ≡ ok chain
unfolding parse_chain strip_prefix
parse_chain-display_nat chain h k =
    number_of_digits (display_nat chain) chain (display_nat_digits chain)
      (display_nat_canonical chain) (display_nat_lead chain h)
      (parse_uint-display_nat (2 ^ 64) chain k)
