-- ===== src/Hash/Display.antt =====
-- The text of a hash, `sha256:` and its digits (crates/ml-core/src/hash.rs).
use mandate_ledger.Prelude.{
  ◌≡◌, refl, true, ◌++◌, Option, none, some, Result, ok, err, all, length, ap, ◌∙◌,
}
use mandate_ledger.Text.{Text, Bytes, codes, strip_prefix}
use mandate_ledger.Text.Codec.{HexDecode, HexLaws, of_length, is_byte}
use mandate_ledger.Hash.{Hash32}
use mandate_ledger.Ids.{Hex}

-- `HashParseError`
pub record HashParseError : Type 0 where

-- `Display for Hash32`, with `to_hex`
unfoldable pub display_hash : ⦃hex : Hex⦄ → Hash32 → Text
display_hash ⦃hex⦄ hash = codes "sha256:" ++ hex.encode_hex hash

-- `strip_prefix("sha256:").unwrap_or(s)`
abbrev hash_digits : Text → Text
hash_digits s = elim (strip_prefix s (codes "sha256:")) [ none ↦ s | some digits ↦ digits ]

abbrev hash_or_error : Option Bytes → Result HashParseError Hash32
hash_or_error decoded = elim (of_length 32 decoded) [ none ↦ err (record {}) | some b ↦ ok b ]

-- `FromStr for Hash32`
unfoldable pub parse_hash : ⦃dec : HexDecode⦄ → Text → Result HashParseError Hash32
unfolding strip_prefix
parse_hash ⦃dec⦄ s = hash_or_error (dec.decode_hex (hash_digits s))

-- Thirty-two bytes, the values of `Hash32`.
abbrev pub IsHash : Hash32 → Type 0
IsHash hash = (length hash ≡ 32) × (all is_byte hash ≡ true)

module _ ⦃hex : Hex⦄ ⦃dec : HexDecode⦄ ⦃laws : HexLaws⦄ where
  -- A hash that is written is read back.
  pub parse_hash-display_hash :
      (hash : Hash32) → IsHash hash → parse_hash (display_hash hash) ≡ ok hash
  unfolding parse_hash display_hash strip_prefix
  parse_hash-display_hash hash (size, bytes) =
      ap hash_or_error (laws.decode-encode hash bytes) ∙ of_size hash size
    where
      of_size : (b : Bytes) → length b ≡ 32 → hash_or_error (some b) ≡ ok b
      of_size b h = rw (hash_or_error, h) refl
