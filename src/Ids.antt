-- ===== src/Ids.antt =====
-- Opaque string identifiers (crates/ml-core/src/ids.rs). Each newtype is its text; `new` is the only
-- way to make one from outside.
pub mod Plain
use mandate_ledger.Prelude.{
  ℕ, ◌∷◌, ◌++◌, ◌||◌, ltb, if◌then◌else◌, Result, ok, err, map, is_empty, take,
}
use mandate_ledger.Text.{Text, Bytes, codes, utf8, len, lower, trim_start, trim_end}
use mandate_ledger.Hash.{Hash32, Sha256, hash_of}

abbrev pub MandateId : Type 0
MandateId = Text

abbrev pub PrincipalId : Type 0
PrincipalId = Text

abbrev pub AgentId : Type 0
AgentId = Text

abbrev pub MerchantId : Type 0
MerchantId = Text

abbrev pub Category : Type 0
Category = Text

abbrev pub ContextId : Type 0
ContextId = Text

-- `IdError`, with the length in bytes.
pub record IdError : Type 0 where
  pub got : ℕ

abbrev pub identity : Text → Text
identity s = s

-- The normal form of merchants and categories.
unfoldable pub lowercase_trimmed : Text → Text
lowercase_trimmed s = trim_start (trim_end (map lower s))

-- `$name::new`, for the normalization `norm` of the identifier.
unfoldable pub new_id : (Text → Text) → Text → Result IdError Text
new_id norm value =
    let s = norm value in
    if is_empty s || ltb 256 (len s) then err (record { got = len s }) else ok s

-- `hex::encode` is third-party code: a parameter. `ContextId::derive` takes it of 16 bytes.
pub record Hex : Type 0 where
  pub encode_hex : Bytes → Text

module _ ⦃sha : Sha256⦄ ⦃hex : Hex⦄ where
  -- `ContextId::derive`
  unfoldable pub derive : MandateId → Hash32 → Text → ContextId
  unfolding hash_of
  derive mandate cart request_key =
      let digest = hash_of (utf8 mandate ++ (0x1f ∷ cart ++ (0x1f ∷ utf8 request_key))) in
      codes "ctx_" ++ hex.encode_hex (take 16 digest)
