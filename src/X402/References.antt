-- ===== src/X402/References.antt =====
-- The payment reference is read back as it was written, and names one authorization.
use mandate_ledger.Prelude.{
  ℕ, ◌^◌, ◌<◌, ◌≡◌, refl, sym, ap, ◌∙◌, false, List, [], ◌∷◌, ◌++◌, Result, ok, ==_refl, list_eq,
  nat_eq, append_assoc, arith,
}
use mandate_ledger.Text.{Text, Bytes, codes, contains_char}
use mandate_ledger.Text.Decimal.{display_nat, parse_uint-display_nat, display_nat_digits}
use mandate_ledger.Text.Split.{split, split-part, split-last}
use mandate_ledger.Text.Codec.{HexDecode, HexLaws, Keccak}
use mandate_ledger.Text.Ascii.{hex-colon, digit-colon}
use mandate_ledger.Ids.{Hex}
use mandate_ledger.X402.Types.{display_address, display_chain}
use mandate_ledger.X402.Identifiers.{
  IsArray, parse_address-display_address, bytes_field-encode, display_address-colon,
  parse_chain-display_nat,
}
use mandate_ledger.X402.Reference.{
  AuthorizationRef, identity_of, display_reference, parse_parts, parse_reference,
}

-- What the types of the fields say, and a chain id that has a name.
pub record IsReference (r : AuthorizationRef) : Type 0 where
  pub named_chain : 0 < r.chain
  pub chain_u64 : r.chain < 2 ^ 64
  pub token_bytes : IsArray 20 r.token
  pub from_bytes : IsArray 20 r.from
  pub nonce_bytes : IsArray 32 r.nonce
  pub expiry_u64 : r.valid_before < 2 ^ 64

same_ref : (a b : AuthorizationRef) → ◌≡◌ {A = Result Text AuthorizationRef} (ok a) (ok b) → a ≡ b
same_ref a b h = ground arith

eip155-colon : contains_char (codes "eip155") b':' ≡ false
unfolding contains_char
eip155-colon = refl

module _ ⦃hex : Hex⦄ ⦃dec : HexDecode⦄ (laws : HexLaws) where
  abbrev parts_of : AuthorizationRef → List Text
  parts_of r =
      codes "eip155"
      ∷ display_nat r.chain
      ∷ display_address r.token
      ∷ display_address r.from
      ∷ (codes "0x" ++ hex.encode_hex r.nonce)
      ∷ display_nat r.valid_before
      ∷ []

  nonce-colon : (nonce : Bytes) → contains_char (codes "0x" ++ hex.encode_hex nonce) b':' ≡ false
  unfolding contains_char
  nonce-colon nonce = ground (arith, hex-colon (hex.encode_hex nonce) (laws.encode_digits nonce))

  number-colon : (n : ℕ) → contains_char (display_nat n) b':' ≡ false
  number-colon n = digit-colon (display_nat n) (display_nat_digits n)

  display_reference_lem :
      (r : AuthorizationRef)
      → display_reference r
        ≡ codes "eip155"
          ++ (b':'
              ∷ (display_nat r.chain
                  ++ (b':'
                      ∷ (display_address r.token
                          ++ (b':'
                              ∷ (display_address r.from
                                  ++ (b':'
                                      ∷ ((codes "0x" ++ hex.encode_hex r.nonce)
                                          ++ (b':' ∷ display_nat r.valid_before)))))))))
  unfolding display_reference identity_of display_chain
  display_reference_lem r = simp append_assoc

  split-display : (r : AuthorizationRef) → split b':' (display_reference r) ≡ parts_of r
  split-display r = rw (display_reference_lem r) (
      rw
        (
          split-part b':' (codes "eip155") _ eip155-colon,
          split-part b':' (display_nat r.chain) _ (number-colon r.chain),
          split-part b':' (display_address r.token) _ (display_address-colon laws r.token),
          split-part b':' (display_address r.from) _ (display_address-colon laws r.from),
          split-part b':' (codes "0x" ++ hex.encode_hex r.nonce) _ (nonce-colon r.nonce),
          split-last b':' (display_nat r.valid_before) (number-colon r.valid_before),
        )
        refl)

  module _ ⦃sha3 : Keccak⦄ where
    parse_parts-parts :
        (s : Text) (r : AuthorizationRef) → IsReference r → parse_parts s (parts_of r) ≡ ok r
    unfolding parse_parts
    parse_parts-parts s r h =
        rw
          (
            parse_chain-display_nat r.chain h.named_chain h.chain_u64,
            parse_address-display_address laws r.token h.token_bytes,
            parse_address-display_address laws r.from h.from_bytes,
            bytes_field-encode laws 32 (codes "nonce") r.nonce h.nonce_bytes,
            parse_uint-display_nat (2 ^ 64) r.valid_before h.expiry_u64,
          )
          refl

    -- A reference is read back as it was written, for every authorization whose chain has a name
    -- and whose fields are what their types say.
    pub parse_reference-display_reference :
        (r : AuthorizationRef) → IsReference r → parse_reference (display_reference r) ≡ ok r
    unfolding parse_reference
    parse_reference-display_reference r h =
        rw (split-display r) (
          rw (parse_parts-parts (display_reference r) r h)
            (rw (==_refl (display_reference r)) refl))

    abbrev unexpired : AuthorizationRef → AuthorizationRef
    unexpired r = record r { valid_before = 0 }

    unexpired-IsReference : {r : AuthorizationRef} → IsReference r → IsReference (unexpired r)
    unexpired-IsReference h = record {
      named_chain = h.named_chain;
      chain_u64 = h.chain_u64;
      token_bytes = h.token_bytes;
      from_bytes = h.from_bytes;
      nonce_bytes = h.nonce_bytes;
      expiry_u64 = omega arith;
    }

    display-unexpired :
        (r : AuthorizationRef)
        → display_reference (unexpired r) ≡ identity_of r ++ (b':' ∷ display_nat 0)
    unfolding display_reference identity_of
    display-unexpired r = refl

    -- What a payment spends once names the authorization as the chain keys it: two authorizations
    -- with the same identity are on the same chain and token, from the same payer, with the same
    -- nonce, whatever their expiry.
    pub identity_of_once :
        (r s : AuthorizationRef)
        → IsReference r
        → IsReference s
        → identity_of r ≡ identity_of s
        → (r.chain ≡ s.chain) × (r.token ≡ s.token) × (r.from ≡ s.from) × (r.nonce ≡ s.nonce)
    identity_of_once r s hr hs same =
        let e : unexpired r ≡ unexpired s = same_ref (unexpired r) (unexpired s) (
          sym (parse_reference-display_reference (unexpired r) (unexpired-IsReference hr))
          ∙ (ap parse_reference (
                display-unexpired r
                ∙ (ap (λ (t : Text). t ++ (b':' ∷ display_nat 0)) same ∙ sym (display-unexpired s)))
              ∙ parse_reference-display_reference (unexpired s) (unexpired-IsReference hs))) in
        (
          ap (λ (x : AuthorizationRef). x.chain) e,
          ap (λ (x : AuthorizationRef). x.token) e,
          ap (λ (x : AuthorizationRef). x.from) e,
          ap (λ (x : AuthorizationRef). x.nonce) e,
        )
