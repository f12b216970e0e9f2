-- ===== src/Adapters/Mock.antt =====
-- A rail that reports whatever it is told (crates/ml-adapters/src/mock.rs).
use mandate_ledger.Prelude.{
  ℕ, Bool, true, not, ◌++◌, Option, none, some, Result, ok, err, leb, if◌then◌else◌, ◌==◌, list_eq,
  nat_eq,
}
use mandate_ledger.Text.{Text, codes}
use mandate_ledger.Text.Decimal.{display_nat}
use mandate_ledger.Hash.{Hash32}
use mandate_ledger.Ids.{ContextId, MerchantId}
use mandate_ledger.Money.{Money}
use mandate_ledger.Rail.{
  PaymentExpectation, VerifiedProof, SettlementExpectation, FinalityStatus, final_status,
  pending_status, failed_status, RailError, invalid_proof, Rail,
}

pub record MockProof (Decimal : Type 0) : Type 0 where
  pub reference : Text
  pub nonce : Text
  pub amount : Money Decimal
  pub bound_ctx : Option ContextId
  pub bound_cart : Option Hash32
  pub bound_merchant : Option MerchantId
  pub valid : Bool

-- `MockProof::bound_to`
abbrev pub proof_bound_to :
    {Decimal : Type 0} → ContextId → Text → Money Decimal → MockProof Decimal
proof_bound_to ctx reference amount = record {
  reference = reference;
  nonce = reference;
  amount = amount;
  bound_ctx = some ctx;
  bound_cart = none;
  bound_merchant = none;
  valid = true;
}

pub record MockFinality : Type 0 where
  pub reference : Text
  pub confirmations : ℕ
  pub failure : Option Text

-- `MockFinality::confirmed`
abbrev pub confirmed : Text → ℕ → MockFinality
confirmed reference n = record { reference = reference; confirmations = n; failure = none }

-- `MockFinality::failed`
abbrev pub mock_failed : Text → Text → MockFinality
mock_failed reference reason = record {
  reference = reference;
  confirmations = 0;
  failure = some reason;
}

pub record MockRail : Type 0 where
  pub rail_id : Text
  pub min_confirmations : ℕ

-- What a proof claims, as it claims it.
abbrev pub claimed : {Decimal : Type 0} → MockProof Decimal → VerifiedProof Decimal
claimed proof = record {
  reference = proof.reference;
  nonce = proof.nonce;
  amount = proof.amount;
  bound_ctx = proof.bound_ctx;
  bound_cart = proof.bound_cart;
  bound_merchant = proof.bound_merchant;
}

-- `verify_proof` of the mock rail
unfoldable pub mock_verify :
    {Decimal : Type 0}
    → MockProof Decimal
    → PaymentExpectation Decimal
    → Result RailError (VerifiedProof Decimal)
mock_verify proof expected =
    if not proof.valid
    then err (invalid_proof (codes "mock signature check failed"))
    else ok (claimed proof)

-- Evidence for another payment.
abbrev pub other_payment : Text → Text → RailError
other_payment shown expected =
    invalid_proof
      (codes "evidence is for `" ++ (shown ++ (codes "`, payment is `" ++ (expected ++ codes "`"))))

-- Enough confirmations, or not yet.
unfoldable pub confirmed_or_pending : ℕ → Text → ℕ → FinalityStatus
unfolding display_nat
confirmed_or_pending needed reference n =
    if leb needed n
    then final_status (reference ++ (codes "@" ++ display_nat n))
    else pending_status
        (codes "need " ++ (display_nat needed ++ (codes " confirmations, have " ++ display_nat n)))

abbrev pub mock_status : MockRail → MockFinality → Option Text → FinalityStatus
mock_status self finality (some reason) = failed_status reason
mock_status self finality none =
    confirmed_or_pending self.min_confirmations finality.reference finality.confirmations

-- `check_finality` of the mock rail
unfoldable pub mock_finality :
    {Decimal : Type 0}
    → MockRail
    → MockFinality
    → SettlementExpectation Decimal
    → Result RailError FinalityStatus
unfolding confirmed_or_pending
mock_finality self finality expected =
    if not (finality.reference == expected.payment_reference)
    then err (other_payment finality.reference expected.payment_reference)
    else ok (mock_status self finality finality.failure)

-- `Rail for MockRail`
abbrev pub mock_rail : {Decimal : Type 0} → MockRail → Rail Decimal (MockProof Decimal) MockFinality
mock_rail self = record {
  id = self.rail_id;
  verify_proof = mock_verify;
  check_finality = mock_finality self;
}
