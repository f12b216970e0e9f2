-- ===== src/Cart/Messages.antt =====
-- `Display` of the errors that an adapter can produce (the `#[error]` lines of
-- crates/ml-core/src/cart.rs, ids.rs, money.rs and hash.rs).
use mandate_ledger.Prelude.{◌++◌}
use mandate_ledger.Text.{Text, codes}
use mandate_ledger.Text.Decimal.{display_nat}
use mandate_ledger.Ids.{IdError}
use mandate_ledger.Money.{MoneyError, invalid_currency, invalid_amount, currency_mismatch, overflow}
use mandate_ledger.Cart.{
  AdapterError, malformed_payload, adapter_signature, unsupported_payload, invalid_id,
  invalid_money, not_canonical,
}

unfoldable pub display_id_error : IdError → Text
unfolding display_nat
display_id_error e = codes "identifier must be 1..=256 bytes, got " ++ display_nat e.got

unfoldable pub display_money_error : MoneyError → Text
display_money_error (invalid_currency c) = codes "invalid currency `" ++ (c ++ codes "`")
display_money_error (invalid_amount a) = codes "invalid amount `" ++ (a ++ codes "`")
display_money_error (currency_mismatch a b) =
    codes "currency mismatch: " ++ (a ++ (codes " vs " ++ b))
display_money_error overflow = codes "arithmetic overflow"

unfoldable pub display_adapter_error : AdapterError → Text
unfolding display_id_error display_money_error
display_adapter_error (malformed_payload why) = codes "malformed payload: " ++ why
display_adapter_error (adapter_signature why) = codes "signature invalid: " ++ why
display_adapter_error (unsupported_payload why) = codes "unsupported: " ++ why
display_adapter_error (invalid_id e) = display_id_error e
display_adapter_error (invalid_money e) = display_money_error e
display_adapter_error (not_canonical e) = codes "canonicalization failed: " ++ e.message
