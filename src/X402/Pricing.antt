-- ===== src/X402/Pricing.antt =====
-- What a requirement that the adapter prices is, and that one whole number has one spelling.
use mandate_ledger.Prelude.{
  ℕ, ◌^◌, ◌<◌, ◌≡◌, ◌≢◌, refl, ap, subst, Bool, true, false, not, [], ◌∷◌, Option, none, some,
  Result, ok, err, nat_beq, >>=-ok, ok_injective, Bool-cases, Option-cases, inl, inr, ◌==◌, ==_eq,
  ==_refl, list_eq, nat_eq, arith,
}
use mandate_ledger.Text.{Text, codes, strip_prefix}
use mandate_ledger.Text.Decimal.{
  display_nat, parse_uint, is_ascii_digit, is_canonical, display_nat-parse_uint, parse_uint_bound,
}
use mandate_ledger.Text.Codec.{HexDecode, Keccak}
use mandate_ledger.Cart.{AdapterError}
use mandate_ledger.X402.Types.{Address, zero_address, parse_chain, PaymentRequirements}
use mandate_ledger.X402.Assets.{Asset, AssetRegistry, get_asset}
use mandate_ledger.X402.Fields.{
  DecimalUnits, address_field, uint, is_canonical_uint, money_of_units,
}
use mandate_ledger.X402.CartTerms.{JsonOps, ExactTerms, terms, require, known_token, check_extra}

-- `uint`'s test is that of a canonical text.
canonical_uint : (value : Text) → is_canonical_uint value ≡ true → is_canonical value ≡ true
unfolding is_canonical_uint is_ascii_digit strip_prefix
canonical_uint [] h = cc
canonical_uint (c ∷ []) h = ground arith
canonical_uint (c ∷ d ∷ s) h = ground arith

-- A whole number that a field carries is below 2 ^ 128 and is spelled the one way in which it is
-- printed.
pub uint_spelling :
    (field value : Text) (n : ℕ) → uint field value ≡ ok n → (n < 2 ^ 128) × (display_nat n ≡ value)
unfolding uint
uint_spelling field value n h = elim (Bool-cases (is_canonical_uint value)) [
  | inr bad ↦ absurd (no_number (rw bad at h))
  | inl good ↦ elim (Option-cases (parse_uint (2 ^ 128) value)) [
    | inl none' ↦ absurd (no_number (rw (none', uint) at (rw good at h)))
    | inr (m, parsed) ↦
        let same : m ≡ n = ok_injective (rw (parsed, uint) at (rw good at h)) in
        (
          rw (← same) (parse_uint_bound (2 ^ 128) value m (omega arith) parsed),
          rw (← same) (display_nat-parse_uint (2 ^ 128) value m (canonical_uint value good) parsed),
        )
  ]
]
  where
    no_number : {k : ℕ} {e : AdapterError} → ◌≡◌ {A = Result AdapterError ℕ} (err e) (ok k) → ⊥
    no_number x = cc

require-ok : (b : Bool) (e : AdapterError) {u : Unit {0}} → require b e ≡ ok u → b ≡ true
require-ok true e h = refl
require-ok false e h = cc

known_token-ok : (o : Option Asset) {token : Asset} → known_token o ≡ ok token → o ≡ some token
known_token-ok none h = cc
known_token-ok (some x) h = ap (λ y. some y) (ok_injective h)

-- A requirement, and the terms that it was read as.
pub record IsPriced {Decimal Value : Type 0} ⦃units : DecimalUnits Decimal⦄ ⦃sha3 : Keccak⦄
    ⦃dec : HexDecode⦄ (registry : AssetRegistry) (accepted : PaymentRequirements Value)
    (agreed : ExactTerms Decimal) : Type 0 where
  pub scheme : accepted.scheme ≡ codes "exact"
  pub network : parse_chain accepted.network ≡ ok agreed.chain
  pub contract : address_field (codes "asset") accepted.asset ≡ ok agreed.asset
  pub known : get_asset registry agreed.chain agreed.asset ≡ some agreed.token
  pub payee : address_field (codes "payTo") accepted.pay_to ≡ ok agreed.pay_to
  pub payee_not_zero : agreed.pay_to ≢ zero_address
  pub payee_not_token : agreed.pay_to ≢ agreed.asset
  pub in_range : agreed.atomic_amount < 2 ^ 128
  pub as_written : display_nat agreed.atomic_amount ≡ accepted.amount
  pub total : money_of_units agreed.atomic_amount agreed.token ≡ ok agreed.total
  pub time_to_pay : accepted.max_timeout_seconds ≢ 0

different : (a b : Address) → not (a == b) ≡ true → a ≢ b
different a b h = λ same. clash (a == b) h (rw (← same) (==_refl a))
  where
    clash : (t : Bool) → not t ≡ true → t ≡ true → ⊥
    clash true h k = cc
    clash false h k = cc

not_zero : (n : ℕ) → not (nat_beq n 0) ≡ true → n ≢ 0
not_zero n h = ground arith

module _ {Decimal Value : Type 0} ⦃units : DecimalUnits Decimal⦄ ⦃value_ops : JsonOps Value⦄
    ⦃sha3 : Keccak⦄ ⦃dec : HexDecode⦄ (registry : AssetRegistry) where
  -- The adapter prices a requirement only as the merchant wrote it: the terms are the fields that
  -- it reads, the token is the registry's on that chain, the payee is neither the zero address nor
  -- the token, the amount is below 2 ^ 128 and is written canonically, and its money is that of the
  -- token's decimals.
  pub terms-IsPriced :
      (accepted : PaymentRequirements Value) (agreed : ExactTerms Decimal)
      → terms registry accepted ≡ ok agreed
      → IsPriced registry accepted agreed
  unfolding terms
  terms-IsPriced accepted agreed h =
      let s = >>=-ok (require (accepted.scheme == codes "exact") _) _ h in
      let n = >>=-ok (parse_chain accepted.network) _ s.2 in
      let a = >>=-ok (address_field (codes "asset") accepted.asset) _ n.2 in
      let t = >>=-ok (known_token (get_asset registry n.0 a.0)) _ a.2 in
      let p = >>=-ok (address_field (codes "payTo") accepted.pay_to) _ t.2 in
      let z = >>=-ok (require (not (p.0 == zero_address)) _) _ p.2 in
      let c = >>=-ok (require (not (p.0 == a.0)) _) _ z.2 in
      let u = >>=-ok (uint (codes "amount") accepted.amount) _ c.2 in
      let m = >>=-ok (money_of_units u.0 t.0) _ u.2 in
      let x = >>=-ok (require (not (nat_beq accepted.max_timeout_seconds 0)) _) _ m.2 in
      let e = >>=-ok (check_extra accepted.extra t.0) _ x.2 in
      let number = uint_spelling (codes "amount") accepted.amount u.0 u.1 in
      subst (λ g. IsPriced registry accepted g) (ok_injective e.2)
        (record {
          scheme = ==_eq accepted.scheme (codes "exact") (require-ok _ _ s.1);
          network = n.1;
          contract = a.1;
          known = known_token-ok (get_asset registry n.0 a.0) t.1;
          payee = p.1;
          payee_not_zero = different p.0 zero_address (require-ok _ _ z.1);
          payee_not_token = different p.0 a.0 (require-ok _ _ c.1);
          in_range = number.0;
          as_written = number.1;
          total = m.1;
          time_to_pay = not_zero accepted.max_timeout_seconds (require-ok _ _ x.1);
        })
