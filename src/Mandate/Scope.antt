-- ===== src/Mandate/Scope.antt =====
-- Scopes and what they admit (crates/ml-core/src/mandate.rs).
use mandate_ledger.Prelude.{
  ℕ, Bool, true, false, not, ◌&&◌, ◌||◌, List, ◌++◌, Option, none, some, Ordering, leb, ltb,
  nat_beq, if◌then◌else◌, any, all, Result, ok, err, ◌>>=◌, ◌>>◌, map_err, ◌==◌, list_eq, nat_eq,
  option_eq, int_eq,
}
use mandate_ledger.Prelude.Int.{ℤ, pos, ltb_ℤ, leb_ℤ}
use mandate_ledger.Text.{Text, codes}
use mandate_ledger.Time.{Timestamp}
use mandate_ledger.Ids.{Category}
use mandate_ledger.Money.{DecimalOps, Currency, Money, is_negative, cmp_same_currency}
use mandate_ledger.Cart.{ScopeClaims, AttestationLevel, rank, Attestation, level}
use mandate_ledger.Reason.{
  DenyReason, mandate_not_yet_valid, mandate_expired, attestation_insufficient,
  scope_merchant_mismatch, unverifiable_scope, scope_category_mismatch, currency_mismatch,
  amount_invalid, scope_per_txn_exceeded,
}
use mandate_ledger.Mandate.Errors.{
  MandateError, invalid_scope, Detail, plain, valid_from_now, valid_until_now, cart_attestation,
  merchant_not_in_scope, category_not_in_scope, currency_differs, total_is_negative, money_error,
  exceeds_txn_cap,
}
use mandate_ledger.Mandate.Pattern.{MerchantPattern, pattern_matches, pattern_subset}

pub record Velocity : Type 0 where
  pub max_count : ℕ
  pub window_secs : ℤ

pub record Scope (Decimal : Type 0) : Type 0 where
  pub merchants : List MerchantPattern
  pub categories : Option (List Category)
  pub currency : Currency
  pub max_per_txn : Option (Money Decimal)
  pub max_total : Option (Money Decimal)
  pub valid_from : Timestamp
  pub valid_until : Timestamp
  pub velocity : Option Velocity
  pub min_attestation : AttestationLevel

abbrev pub Denial : Type 0 → Type 0
Denial Decimal = DenyReason × Detail Decimal

abbrev pub refuse_if : {E : Type 0} → Bool → E → Result E (Unit {0})
refuse_if true e = err e
refuse_if false e = ok tt

abbrev pub is_greater : Ordering → Bool
is_greater o = elim o [ Ordering.gt ↦ true | _ ↦ false ]

unfoldable pub validate_velocity : Option Velocity → Result MandateError (Unit {0})
validate_velocity none = ok tt
validate_velocity (some v) =
    refuse_if (nat_beq v.max_count 0 || leb_ℤ v.window_secs (pos 0))
      (invalid_scope (codes "velocity must have max_count > 0 and window_secs > 0"))

abbrev pub categories_within : Option (List Category) → Option (List Category) → Bool
categories_within _ none = true
categories_within none (some p) = false
categories_within (some c) (some p) = all (λ x. any (λ a. a == x) p) c

abbrev pub velocity_within : Option Velocity → Option Velocity → Bool
velocity_within _ none = true
velocity_within none (some p) = false
velocity_within (some c) (some p) = leb c.max_count p.max_count && leb_ℤ p.window_secs c.window_secs

module _ {Decimal : Type 0} ⦃ops : DecimalOps Decimal⦄ where
  -- One round of the loop of `validate` over the two caps.
  unfoldable pub validate_cap :
      Currency → Text → Option (Money Decimal) → Result MandateError (Unit {0})
  validate_cap currency name none = ok tt
  validate_cap currency name (some cap) =
      refuse_if (not (cap.currency == currency))
        (invalid_scope (name ++ codes " currency differs from scope currency"))
      >> refuse_if (is_negative cap) (invalid_scope (name ++ codes " is negative"))

  -- `Scope::validate`
  unfoldable pub validate : Scope Decimal → Result MandateError (Unit {0})
  unfolding validate_cap validate_velocity
  validate s =
      refuse_if (ltb_ℤ s.valid_until s.valid_from)
        (invalid_scope (codes "valid_from is after valid_until"))
      >> (validate_cap s.currency (codes "max_per_txn") s.max_per_txn
          >> (validate_cap s.currency (codes "max_total") s.max_total
              >> validate_velocity s.velocity))

  -- The category check of `admits`.
  unfoldable pub admits_category :
      Option (List Category) → Option Category → Result (Denial Decimal) (Unit {0})
  admits_category none c = ok tt
  admits_category (some allowed) none =
      err (unverifiable_scope, plain (codes "mandate constrains category but cart carries none"))
  admits_category (some allowed) (some c) =
      refuse_if (not (any (λ a. a == c) allowed)) (scope_category_mismatch, category_not_in_scope c)

  -- The cap check of `admits`.
  unfoldable pub admits_amount :
      Option (Money Decimal) → Money Decimal → Result (Denial Decimal) (Unit {0})
  unfolding cmp_same_currency
  admits_amount none total = ok tt
  admits_amount (some cap) total =
      map_err (λ e. (currency_mismatch, money_error e)) (cmp_same_currency total cap) >>= λ o.
      refuse_if (is_greater o) (scope_per_txn_exceeded, exceeds_txn_cap total cap)

  -- `Scope::admits`
  unfoldable pub admits :
      Scope Decimal
      → ScopeClaims Decimal
      → Attestation
      → Timestamp
      → Result (Denial Decimal) (Unit {0})
  admits s claims attestation now =
      refuse_if (ltb_ℤ now s.valid_from) (mandate_not_yet_valid, valid_from_now s.valid_from now)
      >> (refuse_if (ltb_ℤ s.valid_until now) (mandate_expired, valid_until_now s.valid_until now)
          >> (refuse_if (ltb (rank (level attestation)) (rank s.min_attestation))
                (attestation_insufficient, cart_attestation (level attestation) s.min_attestation)
              >> (refuse_if (not (any (λ p. pattern_matches p claims.merchant) s.merchants))
                    (scope_merchant_mismatch, merchant_not_in_scope claims.merchant)
                  >> (admits_category s.categories claims.category
                      >> (refuse_if (not (claims.total.currency == s.currency))
                            (currency_mismatch, currency_differs claims.total.currency s.currency)
                          >> (refuse_if (is_negative claims.total)
                                (amount_invalid, total_is_negative claims.total)
                              >> admits_amount s.max_per_txn claims.total))))))

  -- `cap_within`, local to `is_subset_of`.
  unfoldable pub cap_within : Option (Money Decimal) → Option (Money Decimal) → Bool
  unfolding cmp_same_currency
  cap_within _ none = true
  cap_within none (some p) = false
  cap_within (some c) (some p) = elim (cmp_same_currency c p) [
    | ok o ↦ not (is_greater o)
    | err e ↦ false
  ]

  -- `Scope::is_subset_of`
  unfoldable pub scope_subset : Scope Decimal → Scope Decimal → Bool
  unfolding cap_within
  scope_subset child parent =
      if not (child.currency == parent.currency)
      then false
      else all (λ c. any (pattern_subset c) parent.merchants) child.merchants
        && (categories_within child.categories parent.categories
            && (cap_within child.max_per_txn parent.max_per_txn
                && (cap_within child.max_total parent.max_total
                    && (leb_ℤ parent.valid_from child.valid_from
                        && (leb_ℤ child.valid_until parent.valid_until
                            && (velocity_within child.velocity parent.velocity
                                && leb (rank parent.min_attestation)
                                    (rank child.min_attestation)))))))
