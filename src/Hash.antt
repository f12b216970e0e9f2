-- ===== src/Hash.antt =====
-- Content hashing (crates/ml-core/src/hash.rs). SHA-256 (`sha2`) and RFC 8785 canonical JSON
-- (`serde_jcs`) are third-party code and enter as parameters.
pub mod Display
use mandate_ledger.Prelude.{ℕ, [], ◌∷◌, ◌++◌, Result, zero, suc}
use mandate_ledger.Text.{Text, Bytes}

-- `Sha256::digest`; feeding a hasher twice digests the two inputs one after the other.
pub record Sha256 : Type 0 where
  pub digest : Bytes → Bytes

-- A SHA-256 digest, 32 bytes.
abbrev pub Hash32 : Type 0
Hash32 = Bytes

abbrev pub zeros : ℕ → Bytes
zeros zero = []
zeros (suc n) = 0 ∷ zeros n

-- `Hash32::ZERO`
unfoldable pub zero_hash : Hash32
zero_hash = zeros 32

module _ ⦃sha : Sha256⦄ where
  -- `Hash32::of`
  unfoldable pub hash_of : Bytes → Hash32
  hash_of bytes = sha.digest bytes

  -- `Hash32::chain`
  unfoldable pub chain : Hash32 → Bytes → Hash32
  chain prev bytes = sha.digest (prev ++ bytes)

-- `CanonicalizeError`
pub record CanonicalizeError : Type 0 where
  pub message : Text

-- `canonical_json` at one type: `serde_jcs::to_vec`, which may refuse a value.
pub record CanonicalJson (T : Type 0) : Type 0 where
  pub canonical_json : T → Result CanonicalizeError Bytes
