-- ===== src/Money.antt =====
-- Exact decimal money with a currency tag (crates/ml-core/src/money.rs). `rust_decimal::Decimal` is
-- third-party code: its type, operations and laws are parameters.
use mandate_ledger.Prelude.{
  ℕ, ◌-◌, ◌*◌, ◌^◌, ◌≤◌, ◌≡◌, Bool, not, ◌&&◌, ◌||◌, Option, none, some, Ordering, ◌∷◌, ◌++◌, leb,
  all, if◌then◌else◌, Result, ok, err, ◌>>=◌, ◌>>◌, ◌==◌, list_eq, nat_eq,
}
use mandate_ledger.Prelude.Int.{ℤ, pos, abs_ℤ, ◌+ℤ◌, ◌-ℤ◌, compare_ℤ, beq_ℤ, ltb_ℤ}
use mandate_ledger.Text.{Text, len}

-- The operations of `rust_decimal::Decimal` that the code calls.
pub record DecimalOps (Decimal : Type 0) : Type 0 where
  pub dec_zero : Decimal
  pub dec_eq : Decimal → Decimal → Bool
  pub dec_cmp : Decimal → Decimal → Ordering
  pub checked_add : Decimal → Decimal → Option Decimal
  pub checked_sub : Decimal → Decimal → Option Decimal
  pub is_sign_negative : Decimal → Bool
  pub is_zero : Decimal → Bool
  pub from_str_exact : Text → Option Decimal
  pub to_text : Decimal → Text

-- What the code relies on. `value` is the number that a decimal stands for, counted in units of
-- 10^-28: `cmp` and `==` compare numbers.
pub record DecimalLaws (Decimal : Type 0) ⦃ops : DecimalOps Decimal⦄ : Type 0 where
  pub value : Decimal → ℤ
  pub value_zero : value ops.dec_zero ≡ pos 0
  pub cmp_value : (a b : Decimal) → ops.dec_cmp a b ≡ compare_ℤ (value a) (value b)
  pub eq_value : (a b : Decimal) → ops.dec_eq a b ≡ beq_ℤ (value a) (value b)
  pub negative_value :
      (a : Decimal) → (ops.is_sign_negative a && not (ops.is_zero a)) ≡ ltb_ℤ (value a) (pos 0)

-- A decimal is a mantissa of 96 bits and a scale, and `checked_add` and `checked_sub` round where the
-- mantissa of the result does not fit. Two decimals of at most `p` digits after the point, and of at
-- most 2^94 units in the last of these digits, have a sum and a difference that fit, so that these are
-- exact.
pub record DecimalSums (Decimal : Type 0) ⦃ops : DecimalOps Decimal⦄ (laws : DecimalLaws Decimal)
    : Type 0 where
  pub scale : Decimal → ℕ
  pub scale_zero : scale ops.dec_zero ≡ 0
  pub add_value :
      (p : ℕ) (a b c : Decimal)
      → p ≤ 28
      → (scale a ≤ p) × (abs_ℤ (laws.value a) ≤ 2 ^ 94 * 10 ^ (28 - p))
      → (scale b ≤ p) × (abs_ℤ (laws.value b) ≤ 2 ^ 94 * 10 ^ (28 - p))
      → ops.checked_add a b ≡ some c
      → laws.value c ≡ laws.value a +ℤ laws.value b
  pub sub_value :
      (p : ℕ) (a b c : Decimal)
      → p ≤ 28
      → (scale a ≤ p) × (abs_ℤ (laws.value a) ≤ 2 ^ 94 * 10 ^ (28 - p))
      → (scale b ≤ p) × (abs_ℤ (laws.value b) ≤ 2 ^ 94 * 10 ^ (28 - p))
      → ops.checked_sub a b ≡ some c
      → laws.value c ≡ laws.value a -ℤ laws.value b

abbrev pub Currency : Type 0
Currency = Text

pub data MoneyError : Type 0 where
  invalid_currency : Text → MoneyError
  invalid_amount : Text → MoneyError
  currency_mismatch : Currency → Currency → MoneyError
  overflow : MoneyError

is_currency_char : ℕ → Bool
is_currency_char ch = (leb 65 ch && leb ch 90) || (leb 48 ch && leb ch 57)

-- `Currency::new`
unfoldable pub new_currency : Text → Result MoneyError Currency
unfolding is_currency_char
new_currency c =
    if leb 2 (len c) && leb (len c) 10 && all is_currency_char c
    then ok c
    else err (invalid_currency c)

pub record Money (Decimal : Type 0) : Type 0 where
  pub amount : Decimal
  pub currency : Currency

module _ {Decimal : Type 0} ⦃ops : DecimalOps Decimal⦄ where
  abbrev pub money_zero : Currency → Money Decimal
  money_zero currency = record { amount = ops.dec_zero; currency = currency }

  -- `Money::parse`
  unfoldable pub parse_money : Text → Text → Result MoneyError (Money Decimal)
  unfolding new_currency
  parse_money amount currency = elim (ops.from_str_exact amount) [
    | none ↦ err (invalid_amount amount)
    | some value ↦ new_currency currency >>= λ c. ok (record { amount = value; currency = c })
  ]

  -- The derived `PartialEq`.
  unfoldable pub money_eq : Money Decimal → Money Decimal → Bool
  money_eq a b = ops.dec_eq a.amount b.amount && a.currency == b.currency

  unfoldable pub is_negative : Money Decimal → Bool
  is_negative m = ops.is_sign_negative m.amount && not (ops.is_zero m.amount)

  unfoldable pub ensure_same_currency : Money Decimal → Money Decimal → Result MoneyError (Unit {0})
  ensure_same_currency a b =
      if a.currency == b.currency then ok tt else err (currency_mismatch a.currency b.currency)

  abbrev pub or_overflow : Currency → Option Decimal → Result MoneyError (Money Decimal)
  or_overflow currency none = err overflow
  or_overflow currency (some amount) = ok (record { amount = amount; currency = currency })

  -- `Money::checked_add`
  unfoldable pub money_add : Money Decimal → Money Decimal → Result MoneyError (Money Decimal)
  unfolding ensure_same_currency
  money_add a b =
      ensure_same_currency a b >> or_overflow a.currency (ops.checked_add a.amount b.amount)

  -- `Money::checked_sub`
  unfoldable pub money_sub : Money Decimal → Money Decimal → Result MoneyError (Money Decimal)
  unfolding ensure_same_currency
  money_sub a b =
      ensure_same_currency a b >> or_overflow a.currency (ops.checked_sub a.amount b.amount)

  unfoldable pub cmp_same_currency : Money Decimal → Money Decimal → Result MoneyError Ordering
  unfolding ensure_same_currency
  cmp_same_currency a b = ensure_same_currency a b >> ok (ops.dec_cmp a.amount b.amount)

  -- `Display for Money`
  unfoldable pub display_money : Money Decimal → Text
  display_money m = ops.to_text m.amount ++ (b' ' ∷ m.currency)
