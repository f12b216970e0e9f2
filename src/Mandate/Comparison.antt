-- ===== src/Mandate/Comparison.antt =====
-- The comparison of mandates that a retry makes finds a mandate equal to itself.
use mandate_ledger.Prelude.{
  ◌≡◌, refl, Bool, true, List, [], ◌∷◌, Option, none, some, nat_beq_iff, ==_refl, list_eq, nat_eq,
  option_eq, int_eq,
}
use mandate_ledger.Prelude.Int.{beq_ℤ_iff}
use mandate_ledger.Money.{DecimalOps, DecimalLaws, Money, money_eq}
use mandate_ledger.Cart.{rank}
use mandate_ledger.Mandate.Pattern.{MerchantPattern, any_merchant, exact, suffix, pattern_eq}
use mandate_ledger.Mandate.Scope.{Velocity, Scope}
use mandate_ledger.Mandate.Body.{
  MandateBody, list_eq_by, option_eq_by, velocity_eq, scope_eq, body_eq,
}

list_eq_by_refl :
    {A : Type 0} (f : A → A → Bool) (xs : List A)
    → ((x : A) → f x x ≡ true)
    → list_eq_by f xs xs ≡ true
list_eq_by_refl f [] h = refl
list_eq_by_refl f (x ∷ xs) h = rw (h x) (list_eq_by_refl f xs h)

option_eq_by_refl :
    {A : Type 0} (f : A → A → Bool) (o : Option A)
    → ((x : A) → f x x ≡ true)
    → option_eq_by f o o ≡ true
option_eq_by_refl f none h = refl
option_eq_by_refl f (some x) h = h x

pattern_eq_refl : (p : MerchantPattern) → pattern_eq p p ≡ true
pattern_eq_refl any_merchant = refl
pattern_eq_refl (exact a) = ==_refl a
pattern_eq_refl (suffix a) = ==_refl a

velocity_eq_refl : (v : Velocity) → velocity_eq v v ≡ true
velocity_eq_refl v = rw ((nat_beq_iff v.max_count v.max_count).1 refl) (==_refl v.window_secs)

module _ {Decimal : Type 0} ⦃ops : DecimalOps Decimal⦄ (laws : DecimalLaws Decimal) where
  money_eq_refl : (m : Money Decimal) → money_eq m m ≡ true
  unfolding money_eq
  money_eq_refl m =
      rw
        (
          laws.eq_value m.amount m.amount,
          (beq_ℤ_iff (laws.value m.amount) (laws.value m.amount)).1 refl,
        )
        (==_refl m.currency)

  scope_eq_refl : (s : Scope Decimal) → scope_eq s s ≡ true
  unfolding scope_eq
  scope_eq_refl s =
      rw
        (
          list_eq_by_refl pattern_eq s.merchants pattern_eq_refl,
          ==_refl s.categories,
          ==_refl s.currency,
          option_eq_by_refl money_eq s.max_per_txn money_eq_refl,
          option_eq_by_refl money_eq s.max_total money_eq_refl,
          ==_refl s.valid_from,
          ==_refl s.valid_until,
          option_eq_by_refl velocity_eq s.velocity velocity_eq_refl,
          (nat_beq_iff (rank s.min_attestation) (rank s.min_attestation)).1 refl,
        )
        refl

  pub body_eq_refl : (b : MandateBody Decimal) → body_eq b b ≡ true
  unfolding body_eq
  body_eq_refl b =
      rw
        (
          ==_refl b.id,
          ==_refl b.principal,
          ==_refl b.agent,
          scope_eq_refl b.scope,
          ==_refl b.issued_at,
          ==_refl b.parent,
        )
        refl
