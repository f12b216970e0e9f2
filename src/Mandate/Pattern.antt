-- ===== src/Mandate/Pattern.antt =====
-- Merchant patterns (crates/ml-core/src/mandate.rs).
use mandate_ledger.Prelude.{
  Bool, true, false, ◌&&◌, ◌||◌, ◌∷◌, map, none, some, ltb, if◌then◌else◌, is_empty, Result, ok,
  err, ◌==◌, list_eq, nat_eq,
}
use mandate_ledger.Text.{Text, codes, len, lower, trim, ends_with, strip_prefix, contains_char}
use mandate_ledger.Ids.{MerchantId}
use mandate_ledger.Mandate.Errors.{MandateError, invalid_merchant_pattern}

pub data MerchantPattern : Type 0 where
  any_merchant : MerchantPattern
  exact suffix : Text → MerchantPattern

-- The derived `PartialEq`.
abbrev pub pattern_eq : MerchantPattern → MerchantPattern → Bool
pattern_eq any_merchant any_merchant = true
pattern_eq (exact a) (exact b) = a == b
pattern_eq (suffix a) (suffix b) = a == b
pattern_eq _ _ = false

-- `MerchantPattern::parse`, after the trimming: `s` is the trimmed text and `pattern` the original.
abbrev pub parse_trimmed : Text → Text → Result MandateError MerchantPattern
parse_trimmed pattern s =
    if is_empty s
    then err (invalid_merchant_pattern pattern)
    else if s == codes "*"
    then ok any_merchant
    else elim (strip_prefix s (codes "*.")) [
      | some rest ↦
          if is_empty rest || contains_char rest b'*'
          then err (invalid_merchant_pattern pattern)
          else ok (suffix (b'.' ∷ rest))
      | none ↦ if contains_char s b'*' then err (invalid_merchant_pattern pattern) else ok (exact s)
    ]

unfoldable pub parse_pattern : Text → Result MandateError MerchantPattern
parse_pattern pattern = parse_trimmed pattern (map lower (trim pattern))

-- `MerchantPattern::matches`
unfoldable pub pattern_matches : MerchantPattern → MerchantId → Bool
pattern_matches any_merchant m = true
pattern_matches (exact e) m = e == m
pattern_matches (suffix s) m = ltb (len s) (len m) && ends_with m s

-- `MerchantPattern::is_subset_of`
unfoldable pub pattern_subset : MerchantPattern → MerchantPattern → Bool
pattern_subset any_merchant any_merchant = true
pattern_subset (exact a) any_merchant = true
pattern_subset (suffix a) any_merchant = true
pattern_subset any_merchant (exact b) = false
pattern_subset any_merchant (suffix b) = false
pattern_subset (suffix a) (exact b) = false
pattern_subset (exact a) (exact b) = a == b
pattern_subset (exact a) (suffix s) = ltb (len s) (len a) && ends_with a s
pattern_subset (suffix a) (suffix b) = ends_with a b

-- `Display for MerchantPattern`
unfoldable pub display_pattern : MerchantPattern → Text
display_pattern any_merchant = codes "*"
display_pattern (exact e) = map lower (trim e)
display_pattern (suffix s) = b'*' ∷ map lower (trim s)
