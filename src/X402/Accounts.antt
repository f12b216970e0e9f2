-- ===== src/X402/Accounts.antt =====
-- The merchant id of an account names its chain and its address.
use mandate_ledger.Prelude.{
  ℕ, ◌≡◌, refl, sym, ap, ◌∙◌, true, false, [], ◌∷◌, ◌++◌, Result, ok, err, ltb, all, is_empty, ◌||◌,
  Bool-cases, inl, inr, ok_injective, arith,
}
use mandate_ledger.Text.{Text, codes, len, contains_char}
use mandate_ledger.Text.Decimal.{
  display_nat, display_nat_digits, display_nat_injective, is_ascii_digit,
}
use mandate_ledger.Text.Split.{split, split-part, split-last}
use mandate_ledger.Text.Codec.{HexDecode, HexLaws, is_lower_hex}
use mandate_ledger.Text.Ascii.{digit-colon}
use mandate_ledger.Ids.{Hex, MerchantId, IdError, new_id, lowercase_trimmed}
use mandate_ledger.Ids.Plain.{is_plain, lowercase_trimmed-plain, all-append, all-weaken}
use mandate_ledger.X402.Types.{ChainId, Address, display_chain, display_address, account_id}
use mandate_ledger.X402.Identifiers.{IsArray, display_address-colon, display_address_injective}

digit-plain : (c : ℕ) → is_ascii_digit c ≡ true → is_plain c ≡ true
unfolding is_ascii_digit is_plain
digit-plain c h = ground arith

hex-plain : (c : ℕ) → is_lower_hex c ≡ true → is_plain c ≡ true
unfolding is_lower_hex is_plain
hex-plain c h = ground arith

eip155-colon : contains_char (codes "eip155") b':' ≡ false
unfolding contains_char
eip155-colon = refl

-- `new` gives the normal form.
new_id-ok :
    (norm : Text → Text) (value : Text) {id : Text} → new_id norm value ≡ ok id → norm value ≡ id
unfolding new_id
new_id-ok norm value h = elim (Bool-cases (is_empty (norm value) || ltb 256 (len (norm value)))) [
  | inl bad ↦ absurd (refused (rw bad at h))
  | inr good ↦ ok_injective (rw good at h)
]
  where
    refused : {a : Text} {e : IdError} → ◌≡◌ {A = Result IdError Text} (err e) (ok a) → ⊥
    refused x = cc

module _ ⦃hex : Hex⦄ ⦃dec : HexDecode⦄ (laws : HexLaws) where
  account-plain :
      (chain : ChainId) (address : Address) → all is_plain (account_id chain address) ≡ true
  unfolding account_id display_chain display_address is_plain
  account-plain chain address =
      all-append is_plain (display_nat chain) (b':' ∷ (codes "0x" ++ hex.encode_hex address))
        (all-weaken is_ascii_digit is_plain (display_nat chain) digit-plain
          (display_nat_digits chain))
        (all-weaken is_lower_hex is_plain (hex.encode_hex address) hex-plain
          (laws.encode_digits address))

  split-account :
      (chain : ChainId) (address : Address)
      → split b':' (account_id chain address)
        ≡ codes "eip155" ∷ display_nat chain ∷ display_address address ∷ []
  unfolding account_id display_chain
  split-account chain address =
      rw
        (
          split-part b':' (codes "eip155") (display_nat chain ++ (b':' ∷ display_address address))
              eip155-colon,
          split-part b':' (display_nat chain) (display_address address)
              (digit-colon (display_nat chain) (display_nat_digits chain)),
          split-last b':' (display_address address) (display_address-colon laws address),
        )
        refl

  two_parts :
      (a b c d : Text)
      → codes "eip155" ∷ a ∷ b ∷ [] ≡ codes "eip155" ∷ c ∷ d ∷ []
      → (a ≡ c) × (b ≡ d)
  two_parts a b c d h = ground arith

  -- Two accounts have the same merchant id only if they are the same address on the same chain.
  pub merchant_names_account :
      (chain chain' : ChainId) (address address' : Address) (merchant : MerchantId)
      → IsArray 20 address
      → IsArray 20 address'
      → new_id lowercase_trimmed (account_id chain address) ≡ ok merchant
      → new_id lowercase_trimmed (account_id chain' address') ≡ ok merchant
      → (chain ≡ chain') × (address ≡ address')
  merchant_names_account chain chain' address address' merchant ha hb h k =
      let same : account_id chain address ≡ account_id chain' address' =
        sym (lowercase_trimmed-plain (account_id chain address) (account-plain chain address))
        ∙ (new_id-ok lowercase_trimmed (account_id chain address) h
            ∙ (sym (new_id-ok lowercase_trimmed (account_id chain' address') k)
                ∙ lowercase_trimmed-plain (account_id chain' address')
                    (account-plain chain' address'))) in
      let parts =
        two_parts (display_nat chain) (display_address address) (display_nat chain')
          (display_address address')
          (sym (split-account chain address)
            ∙ (ap (split b':') same ∙ split-account chain' address')) in
      (
        display_nat_injective chain chain' parts.0,
        display_address_injective laws address address' ha hb parts.1,
      )
