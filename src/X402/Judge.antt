-- ===== src/X402/Judge.antt =====
-- The x402 rail's two judgements of finality (crates/ml-adapters/src/x402/rail.rs).
use mandate_ledger.Prelude.{
  ℕ, ◌+◌, ◌-◌, ◌%◌, ◌^◌, Bool, false, not, ◌&&◌, ◌||◌, ◌++◌, Option, none, some, map, filter_map,
  any, Result, ok, err, leb, if◌then◌else◌, map_err, ◌>>=◌, ◌>>◌, ◌==◌, list_eq, nat_eq, option_eq,
  pair_eq,
}
use mandate_ledger.Prelude.Int.{pos, ltb_ℤ}
use mandate_ledger.Text.{Text, Bytes, codes, lower}
use mandate_ledger.Text.Decimal.{display_nat}
use mandate_ledger.Text.Codec.{HexDecode, Keccak}
use mandate_ledger.Time.{Timestamp}
use mandate_ledger.Ids.{Hex, new_id, lowercase_trimmed}
use mandate_ledger.Money.{DecimalOps, Money, money_eq, display_money}
use mandate_ledger.Cart.{AdapterError}
use mandate_ledger.Cart.Messages.{display_adapter_error}
use mandate_ledger.Rail.{
  SettlementExpectation, FinalityStatus, final_status, pending_status, failed_status, RailError,
  invalid_proof,
}
use mandate_ledger.X402.Types.{Address, parse_address, display_chain, account_id}
use mandate_ledger.X402.Assets.{Asset, AssetRegistry, get_asset}
use mandate_ledger.X402.Fields.{DecimalUnits, uint, money_of_units, bytes_field}
use mandate_ledger.X402.Finality.{
  SettlementResponse, TransactionReceipt, X402Finality, facilitator, receipt, quantity,
  authorization_used, transfer,
}
use mandate_ledger.X402.Reference.{AuthorizationRef, parse_reference}

pub record FinalityPolicy : Type 0 where
  pub confirmations : ℕ
  pub trust_facilitator : Bool
  pub expiry_grace : ℕ

-- The rail during one call: `now` is what its clock says.
pub record X402Rail : Type 0 where
  pub rail_id : Text
  pub registry : AssetRegistry
  pub policy : FinalityPolicy
  pub now : Timestamp

-- `invalid`
abbrev pub invalid : AdapterError → RailError
invalid e = invalid_proof (display_adapter_error e)

-- `return Err(invalid(why))` unless the test holds.
abbrev pub demand : Bool → Text → Result RailError (Unit {0})
demand test why = if test then ok tt else err (invalid_proof why)

abbrev pub or_invalid : {A : Type 0} → Text → Option A → Result RailError A
or_invalid why none = err (invalid_proof why)
or_invalid why (some a) = ok a

-- `response.payer` is absent, or names the payer of the payment.
abbrev pub same_payer : Result Text Address → Address → Bool
same_payer (err why) from = false
same_payer (ok payer) from = payer == from

-- `X402Rail::token`
unfoldable pub token_of : X402Rail → AuthorizationRef → Result RailError Asset
unfolding get_asset
token_of self payment =
    or_invalid (codes "the payment's token is not one this rail knows")
      (get_asset self.registry payment.chain payment.token)

-- `X402Rail::final_or_pending`
unfoldable pub final_or_pending : X402Rail → Text → ℕ → FinalityStatus
unfolding lower display_nat
final_or_pending self transaction confirmations =
    if leb self.policy.confirmations confirmations
    then final_status (map lower transaction)
    else pending_status (
        display_nat confirmations
        ++ (codes " of " ++ (display_nat self.policy.confirmations ++ codes " confirmations")))

-- Behind a response that reports success.
unfoldable pub facilitator_success : X402Rail → Text → FinalityStatus
unfolding lower
facilitator_success self transaction =
    if self.policy.trust_facilitator
    then final_status (map lower transaction)
    else pending_status (
        codes "the facilitator reports "
        ++ (transaction ++ codes " settled; this rail needs its receipt"))

-- Behind a response that reports a failure, for this reason.
unfoldable pub facilitator_failure : X402Rail → AuthorizationRef → Text → FinalityStatus
unfolding display_nat
facilitator_failure self payment reason =
    if reason == codes "settlement_pending" || not self.policy.trust_facilitator
    then pending_status (codes "the facilitator reports " ++ reason)
    else if ltb_ℤ self.now (pos (payment.valid_before + self.policy.expiry_grace))
    then pending_status (
        codes "the facilitator reports "
        ++ (reason
            ++ (codes "; the authorization can still be settled until "
                ++ (display_nat payment.valid_before ++ codes " and the grace after it"))))
    else failed_status reason

-- `unwrap_or("settlement failed")`
abbrev pub failure_reason_of : Option Text → Text
failure_reason_of none = codes "settlement failed"
failure_reason_of (some reason) = reason

abbrev pub check_payer :
    ⦃dec : HexDecode⦄ ⦃sha3 : Keccak⦄ → AuthorizationRef → Option Text → Result RailError (Unit {0})
check_payer payment none = ok tt
check_payer payment (some payer) =
    demand (same_payer (parse_address payer) payment.from)
      (codes "the settlement response is for another payer")

-- `head.checked_sub(block)`, and one more as a `u64`.
abbrev pub confirmations_of : ℕ → ℕ → Result RailError ℕ
confirmations_of head block =
    if leb block head
    then ok ((head - block + 1) % 2 ^ 64)
    else err (invalid_proof (codes "the head is older than the receipt's block"))

-- What a response that is for this payment says.
unfoldable pub facilitator_verdict :
    {Value : Type 0} ⦃dec : HexDecode⦄
    → X402Rail
    → AuthorizationRef
    → SettlementResponse Value
    → Result RailError FinalityStatus
unfolding bytes_field facilitator_success facilitator_failure
facilitator_verdict self payment response =
    if response.success
    then (map_err invalid (bytes_field 32 (codes "transaction") response.transaction) >>= λ _.
        ok (facilitator_success self response.transaction))
    else ok (facilitator_failure self payment (failure_reason_of response.error_reason))

module _ {Decimal : Type 0} ⦃ops : DecimalOps Decimal⦄ ⦃units : DecimalUnits Decimal⦄ ⦃hex : Hex⦄
    ⦃dec : HexDecode⦄ ⦃sha3 : Keccak⦄ (self : X402Rail) where
  abbrev pub settled_as_expected : Money Decimal → Money Decimal → Result RailError (Unit {0})
  settled_as_expected settled expected = demand (money_eq settled expected) (
      codes "the facilitator settled "
      ++ (display_money settled ++ (codes ", the payment is " ++ display_money expected)))

  unfoldable pub check_settled_amount :
      AuthorizationRef → Money Decimal → Option Text → Result RailError (Unit {0})
  unfolding token_of uint money_of_units money_eq display_money
  check_settled_amount payment expected none = ok tt
  check_settled_amount payment expected (some amount) = do
    token ← token_of self payment
    settled ←
        map_err invalid (uint (codes "amount") amount >>= λ atomic. money_of_units atomic token)
    settled_as_expected settled expected

  -- `X402Rail::judge_facilitator`
  unfoldable pub judge_facilitator :
      {Value : Type 0}
      → AuthorizationRef
      → SettlementExpectation Decimal
      → SettlementResponse Value
      → Result RailError FinalityStatus
  unfolding display_chain parse_address check_settled_amount facilitator_verdict
  judge_facilitator payment expected response = do
    demand (response.network == display_chain payment.chain)
        (codes "the settlement response is for another network")
    check_payer payment response.payer
    check_settled_amount payment expected.amount response.amount
    facilitator_verdict self payment response

  -- The closure that looks for the transfer: from the payer, to the merchant, of the amount.
  unfoldable pub pays_expected :
      AuthorizationRef → SettlementExpectation Decimal → Asset → Address × Address × ℕ → Bool
  unfolding account_id new_id money_of_units money_eq
  pays_expected payment expected token (from, to, value) =
      from == payment.from
      && (elim (new_id lowercase_trimmed (account_id payment.chain to)) [
        | err _ ↦ false
        | ok merchant ↦ merchant == expected.merchant
      ])
      && (elim (money_of_units value token) [
        | err _ ↦ false
        | ok amount ↦ money_eq amount expected.amount
      ])

  -- `used` and `paid`
  unfoldable pub executes :
      AuthorizationRef → SettlementExpectation Decimal → Asset → TransactionReceipt → Bool
  unfolding authorization_used transfer pays_expected
  executes payment expected token shown =
      any (λ (used : Address × Bytes). used == (payment.from, payment.nonce))
        (filter_map (authorization_used payment.token) shown.logs)
      && any (pays_expected payment expected token) (filter_map (transfer payment.token) shown.logs)

  -- A receipt that succeeded.
  unfoldable pub executed :
      AuthorizationRef
      → SettlementExpectation Decimal
      → ℕ
      → TransactionReceipt
      → Result RailError FinalityStatus
  unfolding token_of executes final_or_pending
  executed payment expected confirmations shown = do
    token ← token_of self payment
    demand (executes payment expected token shown)
        (codes "the receipt does not execute this authorization, paying the merchant this amount")
    ok (final_or_pending self shown.transaction_hash confirmations)

  -- The match on `receipt.status`.
  abbrev pub by_status :
      AuthorizationRef
      → SettlementExpectation Decimal
      → ℕ
      → TransactionReceipt
      → Result RailError FinalityStatus
  by_status payment expected confirmations shown =
      if shown.status == codes "0x1"
      then executed payment expected confirmations shown
      else if shown.status == codes "0x0"
      then ok (
          pending_status (
            shown.transaction_hash
            ++ codes " reverted; the authorization can still be settled until it expires"))
      else err (invalid_proof (codes "status: not 0x0 or 0x1"))

  -- `X402Rail::judge_receipt`
  unfoldable pub judge_receipt :
      AuthorizationRef
      → SettlementExpectation Decimal
      → ℕ
      → TransactionReceipt
      → Result RailError FinalityStatus
  unfolding bytes_field quantity executed
  judge_receipt payment expected head shown = do
    map_err invalid (bytes_field 32 (codes "transactionHash") shown.transaction_hash)
    block ← or_invalid (codes "blockNumber: not a hex quantity") (quantity shown.block_number)
    confirmations ← confirmations_of head block
    by_status payment expected confirmations shown

  -- The match on the evidence.
  abbrev pub judged :
      {Value : Type 0}
      → AuthorizationRef
      → SettlementExpectation Decimal
      → X402Finality Value
      → Result RailError FinalityStatus
  judged payment expected (facilitator response) = judge_facilitator payment expected response
  judged payment expected (receipt network head shown) =
      demand (network == display_chain payment.chain) (codes "the receipt is from another network")
      >> judge_receipt payment expected head shown

  -- `check_finality` of the rail
  unfoldable pub check_finality :
      {Value : Type 0}
      → X402Finality Value
      → SettlementExpectation Decimal
      → Result RailError FinalityStatus
  unfolding parse_reference judge_facilitator judge_receipt display_chain
  check_finality finality expected =
      map_err invalid_proof (parse_reference expected.payment_reference) >>= λ payment.
      judged payment expected finality
