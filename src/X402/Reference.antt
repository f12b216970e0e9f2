-- ===== src/X402/Reference.antt =====
-- The rail's payment reference, `AuthorizationRef` (crates/ml-adapters/src/x402/rail.rs).
use mandate_ledger.Prelude.{
  ℕ, ◌^◌, List, [], ◌∷◌, ◌++◌, Option, none, some, Result, ok, err, if◌then◌else◌, ◌>>=◌, ◌==◌,
  list_eq, nat_eq,
}
use mandate_ledger.Text.{Text, Bytes, codes}
use mandate_ledger.Text.Decimal.{display_nat, parse_uint}
use mandate_ledger.Text.Split.{split}
use mandate_ledger.Text.Codec.{HexDecode, Keccak}
use mandate_ledger.Ids.{Hex}
use mandate_ledger.X402.Types.{
  ChainId, Address, parse_chain, display_chain, parse_address, display_address,
}
use mandate_ledger.X402.Fields.{bytes_field}

pub record AuthorizationRef : Type 0 where
  pub chain : ChainId
  pub token : Address
  pub from : Address
  pub nonce : Bytes
  pub valid_before : ℕ

-- `x402 payment reference` refused, with the text in the message.
abbrev pub not_a_reference : Text → Text
not_a_reference s = codes "`" ++ (s ++ codes "` is not an x402 payment reference")

-- `.map_err(|_| wrong())`
abbrev pub or_wrong : {E A : Type 0} → Text → Result E A → Result Text A
or_wrong s (ok a) = ok a
or_wrong s (err e) = err (not_a_reference s)

abbrev pub ok_or_wrong : {A : Type 0} → Text → Option A → Result Text A
ok_or_wrong s (some a) = ok a
ok_or_wrong s none = err (not_a_reference s)

module _ ⦃hex : Hex⦄ where
  -- `AuthorizationRef::identity`
  unfoldable pub identity_of : AuthorizationRef → Text
  unfolding display_chain display_address
  identity_of r =
      display_chain r.chain
      ++ (b':'
          ∷ (display_address r.token
              ++ (b':'
                  ∷ (display_address r.from ++ (b':' ∷ (codes "0x" ++ hex.encode_hex r.nonce))))))

  -- `Display for AuthorizationRef`
  unfoldable pub display_reference : AuthorizationRef → Text
  unfolding identity_of display_nat
  display_reference r = identity_of r ++ (b':' ∷ display_nat r.valid_before)

  module _ ⦃dec : HexDecode⦄ ⦃sha3 : Keccak⦄ where
    -- The six parts, read; `s` is the whole text.
    unfoldable pub parse_parts : Text → List Text → Result Text AuthorizationRef
    unfolding parse_chain parse_address bytes_field parse_uint
    parse_parts s (eip155 ∷ chain ∷ token ∷ from ∷ nonce ∷ valid_before ∷ []) =
        if eip155 == codes "eip155"
        then (do
          chain' ← or_wrong s (parse_chain (codes "eip155:" ++ chain))
          token' ← or_wrong s (parse_address token)
          from' ← or_wrong s (parse_address from)
          nonce' ← or_wrong s (bytes_field 32 (codes "nonce") nonce)
          valid_before' ← ok_or_wrong s (parse_uint (2 ^ 64) valid_before)
          ok (record {
            chain = chain';
            token = token';
            from = from';
            nonce = nonce';
            valid_before = valid_before';
          }))
        else err (not_a_reference s)
    parse_parts s _ = err (not_a_reference s)

    -- `FromStr for AuthorizationRef`: one payment, one spelling.
    unfoldable pub parse_reference : Text → Result Text AuthorizationRef
    unfolding parse_parts split display_reference
    parse_reference s = parse_parts s (split b':' s) >>= λ parsed.
        if display_reference parsed == s then ok parsed else err (not_a_reference s)
