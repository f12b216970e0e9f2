-- ===== src/Text/Codec.antt =====
-- Hexadecimal (the `hex` crate) and Keccak-256 (`sha3`), third-party code: parameters with the laws
-- that the code relies on. Case tests on ASCII letters.
use mandate_ledger.Prelude.{
  ℕ, zero, suc, [], ◌∷◌, ◌*◌, ◌≡◌, Bool, true, ◌&&◌, ◌||◌, Option, none, some, ltb, leb, nat_beq,
  length, all, if◌then◌else◌,
}
use mandate_ledger.Text.{Text, Bytes}
use mandate_ledger.Ids.{Hex}

abbrev pub is_byte : ℕ → Bool
is_byte b = ltb b 256

unfoldable pub is_ascii_lowercase : ℕ → Bool
is_ascii_lowercase c = leb 97 c && leb c 122

unfoldable pub is_ascii_uppercase : ℕ → Bool
is_ascii_uppercase c = leb 65 c && leb c 90

-- What `encode` writes: digits and the letters `a` to `f`.
unfoldable pub is_lower_hex : ℕ → Bool
is_lower_hex c = (leb 48 c && leb c 57) || (leb 97 c && leb c 102)

-- `hex::decode_to_slice`, for the slice that the text fills: two digits a byte.
pub record HexDecode : Type 0 where
  pub decode_hex : Text → Option Bytes

-- Into a slice of `n` bytes: another length is refused.
abbrev pub of_length : ℕ → Option Bytes → Option Bytes
of_length n none = none
of_length n (some bytes) = if nat_beq (length bytes) n then some bytes else none

-- `encode` writes two lower-case digits for each byte, and `decode` reads them back; a text that
-- decodes has two characters for each byte, all of them in ASCII.
pub record HexLaws ⦃hex : Hex⦄ ⦃dec : HexDecode⦄ : Type 0 where
  pub decode-encode :
      (bytes : Bytes)
      → all is_byte bytes ≡ true
      → dec.decode_hex (hex.encode_hex bytes) ≡ some bytes
  pub encode_digits : (bytes : Bytes) → all is_lower_hex (hex.encode_hex bytes) ≡ true
  pub length-encode : (bytes : Bytes) → length (hex.encode_hex bytes) ≡ 2 * length bytes

-- `Keccak256::digest`
pub record Keccak : Type 0 where
  pub keccak : Bytes → Bytes

-- `[n..]`
abbrev pub drop : ℕ → Bytes → Bytes
drop zero bytes = bytes
drop (suc n) [] = []
drop (suc n) (b ∷ bytes) = drop n bytes
