-- ===== src/X402/Eip3009.antt =====
-- EIP-3009 `transferWithAuthorization` (crates/ml-adapters/src/x402/eip3009.rs): the EIP-712 digest,
-- the signer that a signature recovers to, and the binding nonce. The curve (`k256`) is third-party
-- code: a parameter.
use mandate_ledger.Prelude.{
  ℕ, zero, suc, ◌-◌, ◌/◌, ◌%◌, Bool, not, List, [], ◌∷◌, ◌++◌, Option, none, some, Result, ok, err,
  nat_beq, length, take, get_elem?, if◌then◌else◌,
}
use mandate_ledger.Prelude.Map.{get_or}
use mandate_ledger.Text.{Text, Bytes, codes, utf8}
use mandate_ledger.Text.Codec.{Keccak, drop}
use mandate_ledger.Hash.{zeros}
use mandate_ledger.Ids.{ContextId}
use mandate_ledger.X402.Types.{ChainId, Address}
use mandate_ledger.X402.Assets.{Asset}

-- `Authorization`, what a payer signs.
pub record Authorization : Type 0 where
  pub from : Address
  pub to : Address
  pub value : ℕ
  pub valid_after : ℕ
  pub valid_before : ℕ
  pub nonce : Bytes

-- `to_be_bytes()` of a number of `n` bytes, before `out`.
abbrev pub be_bytes : ℕ → ℕ → Bytes → Bytes
be_bytes zero value out = out
be_bytes (suc n) value out = be_bytes n (value / 256) ((value % 256) ∷ out)

-- `word`: one ABI word, right-aligned in 32 bytes.
unfoldable pub abi_word : Bytes → Bytes
abi_word value = zeros (32 - length value) ++ value

-- `concat()`
abbrev pub concat : List Bytes → Bytes
concat [] = []
concat (bytes ∷ rest) = bytes ++ concat rest

abbrev pub domain_type : Text
domain_type =
    codes "EIP712Domain(string name,string version,uint256 chainId,address verifyingContract)"

abbrev pub transfer_type : Text
transfer_type =
    codes
      "TransferWithAuthorization(address from,address to,uint256 value,uint256 validAfter,uint256 validBefore,bytes32 nonce)"

abbrev pub nonce_tag : Text
nonce_tag = codes "mandate-ledger:x402-nonce:v1:"

-- `Signature::from_slice`, `IsHigh` of its `s`, `RecoveryId::from_byte`, and
-- `VerifyingKey::recover_from_prehash` as an uncompressed point.
pub record Secp256k1 : Type 0 where
  pub is_signature : Bytes → Bool
  pub is_high : Bytes → Bool
  pub recovery_id : ℕ → Option ℕ
  pub recover_from_prehash : Bytes → Bytes → ℕ → Option Bytes

module _ ⦃sha3 : Keccak⦄ where
  -- `domain` of `digest`
  unfoldable pub domain_separator : ChainId → Address → Asset → Bytes
  unfolding abi_word utf8
  domain_separator chain contract token = concat (
      sha3.keccak (utf8 domain_type)
      ∷ sha3.keccak (utf8 token.domain_name)
      ∷ sha3.keccak (utf8 token.domain_version)
      ∷ abi_word (be_bytes 8 chain [])
      ∷ abi_word contract
      ∷ [])

  -- `message` of `digest`
  unfoldable pub transfer_message : Authorization → Bytes
  unfolding abi_word utf8
  transfer_message auth = concat (
      sha3.keccak (utf8 transfer_type)
      ∷ abi_word auth.from
      ∷ abi_word auth.to
      ∷ abi_word (be_bytes 16 auth.value [])
      ∷ abi_word (be_bytes 8 auth.valid_after [])
      ∷ abi_word (be_bytes 8 auth.valid_before [])
      ∷ auth.nonce
      ∷ [])

  -- `digest`
  unfoldable pub signing_digest : ChainId → Address → Asset → Authorization → Bytes
  unfolding domain_separator transfer_message
  signing_digest chain contract token auth = sha3.keccak (
      0x19
      ∷ 0x01
      ∷ (sha3.keccak (domain_separator chain contract token)
          ++ sha3.keccak (transfer_message auth)))

  -- `binding_nonce`
  unfoldable pub binding_nonce : ContextId → Bytes
  unfolding utf8
  binding_nonce ctx = sha3.keccak (utf8 (nonce_tag ++ ctx))

  -- The match on the byte `v`.
  unfoldable pub recovery_of : ℕ → Option ℕ
  recovery_of v = if nat_beq v 27 then some 0 else if nat_beq v 28 then some 1 else none

  -- The address of an uncompressed point: the last twenty bytes of the hash of its coordinates.
  unfoldable pub address_of_point : Bytes → Address
  address_of_point point = drop 12 (sha3.keccak (drop 1 point))

  -- `recover`
  unfoldable pub recover : ⦃curve : Secp256k1⦄ → Bytes → Bytes → Result Text Address
  unfolding recovery_of address_of_point
  recover ⦃curve⦄ digest signature = elim (recovery_of (get_or 0 (get_elem? signature 64))) [
    | none ↦ err (codes "signature v must be 27 or 28")
    | some recovery ↦
        let rs = take 64 signature in
        if not (curve.is_signature rs)
        then err (codes "signature r or s is out of range")
        else if curve.is_high rs
        then err (codes "signature s is not in the lower half of the curve order")
        else elim (curve.recovery_id recovery) [
          | none ↦ err (codes "signature v must be 27 or 28")
          | some id ↦ elim (curve.recover_from_prehash digest rs id) [
            | none ↦ err (codes "signature does not recover to a key")
            | some point ↦ ok (address_of_point point)
          ]
        ]
  ]
