-- ===== src/X402/Settlements.antt =====
-- What the x402 rail needs to call a payment final, and when it calls one failed.
use mandate_ledger.Prelude.{
  ℕ, ◌+◌, ◌-◌, ◌%◌, ◌^◌, ◌≤◌, ◌≡◌, ◌∙◌, refl, ap, true, false, List, get_elem?, subst, some, Result,
  ok, err, &&-true, map_err, >>=-ok, map_err-ok, Bool-cases, inl, inr, ◌==◌, ==_eq, list_eq, nat_eq,
  pair_eq,
}
use mandate_ledger.Text.{Text, codes}
use mandate_ledger.Text.Codec.{HexDecode, Keccak}
use mandate_ledger.Ids.{Hex, IdError, MerchantId, new_id, lowercase_trimmed}
use mandate_ledger.Money.{DecimalOps, Money, money_eq}
use mandate_ledger.Rail.{
  SettlementExpectation, FinalityStatus, final_status, failed_status, invalid_proof,
}
use mandate_ledger.X402.Types.{Address, account_id, display_chain}
use mandate_ledger.X402.Assets.{Asset}
use mandate_ledger.X402.Fields.{DecimalUnits, bytes_field, money_of_units}
use mandate_ledger.X402.Finality.{
  Log, SettlementResponse, TransactionReceipt, X402Finality, facilitator, receipt, quantity,
  authorization_used, transfer,
}
use mandate_ledger.X402.Reference.{AuthorizationRef, parse_reference}
use mandate_ledger.X402.Judge.{
  X402Rail, invalid, demand, or_invalid, token_of, failure_reason_of, check_payer,
  check_settled_amount, facilitator_verdict, judge_facilitator, pays_expected, executes, executed,
  confirmations_of, by_status, judge_receipt, judged, check_finality,
}
use mandate_ledger.X402.Payments.{demand-ok}
use mandate_ledger.X402.Evidence.{
  Found, IsLost, IsTrusted, any-Found, clash, confirmations-ok, failure-failed, is_this,
  never_failed, no_ok, or_invalid-ok, pending-final, pending_failed, same_status, verdict-failed,
  verdict-final,
}

merchant_test :
    (r : Result IdError MerchantId) (merchant : MerchantId)
    → (elim r [ err _ ↦ false | ok named ↦ named == merchant ]) ≡ true
    → r ≡ ok merchant
merchant_test (err why) merchant h = cc
merchant_test (ok named) merchant h = ap (λ m. ok m) (==_eq named merchant h)

module _ ⦃dec : HexDecode⦄ ⦃sha3 : Keccak⦄ where
  -- A log of the token says that it took this authorization from its payer.
  pub record IsUsed (payment : AuthorizationRef) (logs : List Log) : Type 0 where
    pub index : ℕ
    pub log : Log
    pub stands : get_elem? logs index ≡ some log
    pub says : authorization_used payment.token log ≡ some (payment.from, payment.nonce)

  authorization_used-IsUsed :
      (payment : AuthorizationRef) (logs : List Log)
      → Found (authorization_used payment.token) (is_this payment) logs
      → IsUsed payment logs
  authorization_used-IsUsed payment logs f = record {
    index = f.index;
    log = f.element;
    stands = f.stands;
    says = f.maps ∙ ap some (==_eq f.value (payment.from, payment.nonce) f.passes);
  }

module _ {Decimal : Type 0} ⦃ops : DecimalOps Decimal⦄ ⦃units : DecimalUnits Decimal⦄ ⦃hex : Hex⦄
    ⦃dec : HexDecode⦄ ⦃sha3 : Keccak⦄ (self : X402Rail) where
  -- A log of the token says that it moved the expected amount from the payer to the merchant.
  pub record IsMoved (payment : AuthorizationRef) (expected : SettlementExpectation Decimal)
      (token : Asset) (logs : List Log) : Type 0 where
    pub index : ℕ
    pub log : Log
    pub to : Address
    pub value : ℕ
    pub amount : Money Decimal
    pub stands : get_elem? logs index ≡ some log
    pub says : transfer payment.token log ≡ some (payment.from, to, value)
    pub merchant : new_id lowercase_trimmed (account_id payment.chain to) ≡ ok expected.merchant
    pub valued : money_of_units value token ≡ ok amount
    pub same_amount : money_eq amount expected.amount ≡ true

  -- The receipt shows that the token executed this authorization, and moved the expected amount to
  -- the expected merchant; and the chain has gone on for as many blocks as the policy asks.
  pub record IsExecuted (payment : AuthorizationRef) (expected : SettlementExpectation Decimal)
      (head : ℕ) (shown : TransactionReceipt) : Type 0 where
    pub token : Asset
    pub block : ℕ
    pub known : token_of self payment ≡ ok token
    pub success : shown.status ≡ codes "0x1"
    pub used : IsUsed payment shown.logs
    pub moved : IsMoved payment expected token shown.logs
    pub in_block : quantity shown.block_number ≡ some block
    pub not_after : block ≤ head
    pub confirmed : self.policy.confirmations ≤ (head - block + 1) % 2 ^ 64

  amount_test :
      {E : Type 0} (r : Result E (Money Decimal)) (wanted : Money Decimal)
      → (elim r [ err _ ↦ false | ok amount ↦ money_eq amount wanted ]) ≡ true
      → (amount : Money Decimal) × (r ≡ ok amount) × (money_eq amount wanted ≡ true)
  amount_test (err why) wanted h = cc
  amount_test (ok amount) wanted h = (amount, refl, h)

  pays_expected-parts :
      (payment : AuthorizationRef) (expected : SettlementExpectation Decimal) (token : Asset)
      (from to : Address) (value : ℕ)
      → pays_expected self payment expected token (from, to, value) ≡ true
      → (from ≡ payment.from)
        × (new_id lowercase_trimmed (account_id payment.chain to) ≡ ok expected.merchant)
        × ((amount : Money Decimal) × (money_of_units value token ≡ ok amount)
            × (money_eq amount expected.amount ≡ true))
  unfolding pays_expected
  pays_expected-parts payment expected token from to value h =
      let a = &&-true _ _ h in
      let b = &&-true (from == payment.from) _ a.0 in
      (
        ==_eq from payment.from b.0,
        merchant_test (new_id lowercase_trimmed (account_id payment.chain to)) expected.merchant
            b.1,
        amount_test (money_of_units value token) expected.amount a.1,
      )

  transfer-IsMoved :
      (payment : AuthorizationRef) (expected : SettlementExpectation Decimal) (token : Asset)
      (logs : List Log)
      → Found (transfer payment.token) (pays_expected self payment expected token) logs
      → IsMoved payment expected token logs
  transfer-IsMoved payment expected token logs f =
      let (from, merchant, paid) =
        pays_expected-parts payment expected token f.value.0 f.value.1 f.value.2 f.passes in
      record {
        index = f.index;
        log = f.element;
        to = f.value.1;
        value = f.value.2;
        amount = paid.0;
        stands = f.stands;
        says = f.maps ∙ ap (λ x. some (x, f.value.1, f.value.2)) from;
        merchant = merchant;
        valued = paid.1;
        same_amount = paid.2;
      }

  -- A response that is judged is for this payment's chain.
  judge_facilitator-ok :
      {Value : Type 0} (payment : AuthorizationRef) (expected : SettlementExpectation Decimal)
      (response : SettlementResponse Value) {status : FinalityStatus}
      → judge_facilitator self payment expected response ≡ ok status
      → (response.network ≡ display_chain payment.chain)
        × (facilitator_verdict self payment response ≡ ok status)
  unfolding judge_facilitator
  judge_facilitator-ok payment expected response h =
      let a = >>=-ok (demand (response.network == display_chain payment.chain) _) _ h in
      let b = >>=-ok (check_payer payment response.payer) _ a.2 in
      let c = >>=-ok (check_settled_amount self payment expected.amount response.amount) _ b.2 in
      (==_eq response.network (display_chain payment.chain) (demand-ok _ _ a.1), c.2)

  by_status-final :
      (payment : AuthorizationRef) (expected : SettlementExpectation Decimal) (confirmations : ℕ)
      (shown : TransactionReceipt) (reference : Text)
      → by_status self payment expected confirmations shown ≡ ok (final_status reference)
      → (shown.status ≡ codes "0x1")
        × (executed self payment expected confirmations shown ≡ ok (final_status reference))
  by_status-final payment expected confirmations shown reference h =
      elim (Bool-cases (shown.status == codes "0x1")) [
        | inl good ↦ (==_eq shown.status (codes "0x1") good, rw good at h)
        | inr bad ↦ elim (Bool-cases (shown.status == codes "0x0")) [
          | inl reverted ↦ absurd (clash (same_status _ _ (rw reverted at (rw bad at h))))
          | inr other ↦ absurd (no_ok (rw other at (rw bad at h)))
        ]
      ]

  by_status-failed :
      (payment : AuthorizationRef) (expected : SettlementExpectation Decimal) (confirmations : ℕ)
      (shown : TransactionReceipt) (reason : Text)
      → by_status self payment expected confirmations shown ≡ ok (failed_status reason)
      → ⊥
  unfolding executed
  by_status-failed payment expected confirmations shown reason h =
      elim (Bool-cases (shown.status == codes "0x1")) [
        | inl good ↦
            let a = >>=-ok (token_of self payment) _ (rw good at h) in
            let b = >>=-ok (demand (executes self payment expected a.0 shown) _) _ a.2 in
            never_failed self shown.transaction_hash reason confirmations (same_status _ _ b.2)
        | inr bad ↦ elim (Bool-cases (shown.status == codes "0x0")) [
          | inl reverted ↦ pending_failed (same_status _ _ (rw reverted at (rw bad at h)))
          | inr other ↦ no_ok (rw other at (rw bad at h))
        ]
      ]

  -- A receipt that makes a payment final.
  judge_receipt-final :
      (payment : AuthorizationRef) (expected : SettlementExpectation Decimal) (head : ℕ)
      (shown : TransactionReceipt) (reference : Text)
      → judge_receipt self payment expected head shown ≡ ok (final_status reference)
      → IsExecuted payment expected head shown
  unfolding judge_receipt executed executes
  judge_receipt-final payment expected head shown reference h =
      let a =
        >>=-ok (map_err invalid (bytes_field 32 (codes "transactionHash") shown.transaction_hash)) _
          h in
      let b =
        >>=-ok (or_invalid (codes "blockNumber: not a hex quantity") (quantity shown.block_number))
          _ a.2 in
      let c = >>=-ok (confirmations_of head b.0) _ b.2 in
      let d = by_status-final payment expected c.0 shown reference c.2 in
      let e = >>=-ok (token_of self payment) _ d.1 in
      let f = >>=-ok (demand (executes self payment expected e.0 shown) _) _ e.2 in
      let both = &&-true _ _ (demand-ok _ _ f.1) in
      let counted = confirmations-ok head b.0 c.1 in
      record {
        token = e.0;
        block = b.0;
        known = e.1;
        success = d.0;
        used =
            authorization_used-IsUsed payment shown.logs
              (any-Found (authorization_used payment.token) (is_this payment) shown.logs both.0);
        moved = transfer-IsMoved payment expected e.0 shown.logs (
            any-Found (transfer payment.token) (pays_expected self payment expected e.0) shown.logs
              both.1);
        in_block = or_invalid-ok _ (quantity shown.block_number) b.1;
        not_after = counted.0;
        confirmed =
            subst (λ (n : ℕ). self.policy.confirmations ≤ n) counted.1
              (pending-final self shown.transaction_hash reference c.0 (same_status _ _ f.2));
      }

  judge_receipt-failed :
      (payment : AuthorizationRef) (expected : SettlementExpectation Decimal) (head : ℕ)
      (shown : TransactionReceipt) (reason : Text)
      → judge_receipt self payment expected head shown ≡ ok (failed_status reason)
      → ⊥
  unfolding judge_receipt
  judge_receipt-failed payment expected head shown reason h =
      let a =
        >>=-ok (map_err invalid (bytes_field 32 (codes "transactionHash") shown.transaction_hash)) _
          h in
      let b =
        >>=-ok (or_invalid (codes "blockNumber: not a hex quantity") (quantity shown.block_number))
          _ a.2 in
      let c = >>=-ok (confirmations_of head b.0) _ b.2 in
      by_status-failed payment expected c.0 shown reason c.2

  -- What evidence of finality shows.
  abbrev pub IsShown :
      {Value : Type 0}
      → AuthorizationRef
      → SettlementExpectation Decimal
      → X402Finality Value
      → Type 0
  IsShown payment expected (facilitator response) = IsTrusted self payment response
  IsShown payment expected (receipt network head shown) =
      (network ≡ display_chain payment.chain) × IsExecuted payment expected head shown

  judged-IsShown :
      {Value : Type 0} (finality : X402Finality Value) (expected : SettlementExpectation Decimal)
      (payment : AuthorizationRef) (reference : Text)
      → judged self payment expected finality ≡ ok (final_status reference)
      → IsShown payment expected finality
  judged-IsShown (facilitator response) expected payment reference h =
      let a = judge_facilitator-ok payment expected response h in
      let b = verdict-final self payment response reference a.1 in
      record { network = a.0; success = b.0; trust = b.1 }
  judged-IsShown (receipt network head shown) expected payment reference h =
      let a = >>=-ok (demand (network == display_chain payment.chain) _) _ h in
      (
        ==_eq network (display_chain payment.chain) (demand-ok _ _ a.1),
        judge_receipt-final payment expected head shown reference a.2,
      )

  judged-IsLost :
      {Value : Type 0} (finality : X402Finality Value) (expected : SettlementExpectation Decimal)
      (payment : AuthorizationRef) (reason : Text)
      → judged self payment expected finality ≡ ok (failed_status reason)
      → IsLost self payment reason finality
  judged-IsLost (facilitator response) expected payment reason h =
      let a = judge_facilitator-ok payment expected response h in
      let b = verdict-failed self payment response reason a.1 in
      let c = failure-failed self payment (failure_reason_of response.error_reason) reason b.1 in
      record { network = a.0; failure = b.0; trust = c.0; past = c.1; reported = c.2 }
  judged-IsLost (receipt network head shown) expected payment reason h =
      let a = >>=-ok (demand (network == display_chain payment.chain) _) _ h in
      judge_receipt-failed payment expected head shown reason a.2

  -- The rail calls a payment final only on evidence for the payment of that reference: the word of a
  -- facilitator that it trusts, for that chain; or a receipt of that chain that succeeded, in which
  -- the token used this authorization and moved the expected amount from its payer to the expected
  -- merchant, with as many confirmations as the policy asks.
  pub final-IsShown :
      {Value : Type 0} (finality : X402Finality Value) (expected : SettlementExpectation Decimal)
      (reference : Text)
      → check_finality self finality expected ≡ ok (final_status reference)
      → (payment : AuthorizationRef) × (parse_reference expected.payment_reference ≡ ok payment)
        × IsShown payment expected finality
  unfolding check_finality
  final-IsShown finality expected reference h =
      let a = >>=-ok (map_err invalid_proof (parse_reference expected.payment_reference)) _ h in
      (
        a.0,
        map_err-ok invalid_proof (parse_reference expected.payment_reference) a.1,
        judged-IsShown finality expected a.0 reference a.2,
      )

  -- The rail calls a payment failed only when nobody can settle it any more: a facilitator that it
  -- trusts reports the failure, for that chain, and the authorization's expiry and the grace after
  -- it have passed by the rail's clock. A receipt never makes a payment failed.
  pub failed_is_expired :
      {Value : Type 0} (finality : X402Finality Value) (expected : SettlementExpectation Decimal)
      (reason : Text)
      → check_finality self finality expected ≡ ok (failed_status reason)
      → (payment : AuthorizationRef) × (parse_reference expected.payment_reference ≡ ok payment)
        × IsLost self payment reason finality
  unfolding check_finality
  failed_is_expired finality expected reason h =
      let a = >>=-ok (map_err invalid_proof (parse_reference expected.payment_reference)) _ h in
      (
        a.0,
        map_err-ok invalid_proof (parse_reference expected.payment_reference) a.1,
        judged-IsLost finality expected a.0 reason a.2,
      )
