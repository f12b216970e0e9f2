-- ===== src/X402/Evidence.antt =====
-- What a facilitator's answer and a receipt say, case by case.
use mandate_ledger.Prelude.{
  ℕ, suc, ◌+◌, ◌-◌, ◌%◌, ◌^◌, ◌≤◌, ◌≡◌, refl, sym, ap, Bool, true, false, List, [], ◌∷◌, Option,
  none, some, Result, ok, err, any, filter_map, get_elem?, leb, leb→le, map_err, >>=-ok,
  ok_injective, Bool-cases, Option-cases, inl, inr, ◌==◌, list_eq, nat_eq, pair_eq, arith,
}
use mandate_ledger.Prelude.Int.{pos, ◌≤ℤ◌}
use mandate_ledger.Text.{Text, Bytes, codes}
use mandate_ledger.Text.Codec.{HexDecode}
use mandate_ledger.Rail.{FinalityStatus, final_status, pending_status, failed_status, RailError}
use mandate_ledger.X402.Types.{Address, display_chain}
use mandate_ledger.X402.Fields.{bytes_field}
use mandate_ledger.X402.Finality.{SettlementResponse, X402Finality, facilitator, receipt}
use mandate_ledger.X402.Reference.{AuthorizationRef}
use mandate_ledger.X402.Judge.{
  X402Rail, invalid, or_invalid, final_or_pending, facilitator_success, facilitator_failure,
  failure_reason_of, facilitator_verdict, confirmations_of,
}

-- An element that `find_map`'s function maps to a value that passes the test, and where it stands.
pub record Found {A B : Type 0} (f : A → Option B) (p : B → Bool) (xs : List A) : Type 0 where
  pub index : ℕ
  pub element : A
  pub value : B
  pub stands : get_elem? xs index ≡ some element
  pub maps : f element ≡ some value
  pub passes : p value ≡ true

module _ {A B : Type 0} (f : A → Option B) (p : B → Bool) where
  pub later : (x : A) (xs : List A) → Found f p xs → Found f p (x ∷ xs)
  later x xs h = record {
    index = suc h.index;
    element = h.element;
    value = h.value;
    stands = h.stands;
    maps = h.maps;
    passes = h.passes;
  }

  pub any-Found : (xs : List A) → any p (filter_map f xs) ≡ true → Found f p xs
  any-Found [] h = cc
  any-Found (x ∷ xs) h = elim (Option-cases (f x)) [
    | inl skipped ↦ later x xs (any-Found xs (rw (skipped, filter_map) at h))
    | inr (b, mapped) ↦ elim (Bool-cases (p b)) [
      | inl good ↦ record {
        index = 0;
        element = x;
        value = b;
        stands = refl;
        maps = mapped;
        passes = good;
      }
      | inr bad ↦ later x xs (any-Found xs (rw (bad, any) at (rw (mapped, filter_map) at h)))
    ]
  ]

pub same_status :
    (a b : FinalityStatus) → ◌≡◌ {A = Result RailError FinalityStatus} (ok a) (ok b) → a ≡ b
same_status a b h = ground arith

-- The facilitator says that it settled this payment, and the rail trusts it.
pub record IsTrusted {Value : Type 0} (self : X402Rail) (payment : AuthorizationRef)
    (response : SettlementResponse Value) : Type 0 where
  pub network : response.network ≡ display_chain payment.chain
  pub success : response.success ≡ true
  pub trust : self.policy.trust_facilitator ≡ true

-- The facilitator failed to settle this payment, the rail trusts it, and the authorization has
-- expired by the rail's clock, the grace included.
pub record IsExpired {Value : Type 0} (self : X402Rail) (payment : AuthorizationRef)
    (response : SettlementResponse Value) (reason : Text) : Type 0 where
  pub network : response.network ≡ display_chain payment.chain
  pub failure : response.success ≡ false
  pub trust : self.policy.trust_facilitator ≡ true
  pub past : pos (payment.valid_before + self.policy.expiry_grace) ≤ℤ self.now
  pub reported : reason ≡ failure_reason_of response.error_reason

pub success-final :
    (self : X402Rail) (transaction reference : Text)
    → facilitator_success self transaction ≡ final_status reference
    → self.policy.trust_facilitator ≡ true
unfolding facilitator_success
success-final self transaction reference h = ground arith

pub failure-final :
    (self : X402Rail) (payment : AuthorizationRef) (why reference : Text)
    → facilitator_failure self payment why ≡ final_status reference
    → ⊥
unfolding facilitator_failure
failure-final self payment why reference h = ground arith

pub failure-failed :
    (self : X402Rail) (payment : AuthorizationRef) (why reason : Text)
    → facilitator_failure self payment why ≡ failed_status reason
    → (self.policy.trust_facilitator ≡ true)
      × (pos (payment.valid_before + self.policy.expiry_grace) ≤ℤ self.now)
      × (reason ≡ why)
unfolding facilitator_failure
failure-failed self payment why reason h = (ground arith, ground arith, ground arith)

abbrev pub is_this : AuthorizationRef → Address × Bytes → Bool
is_this payment used = used == (payment.from, payment.nonce)

pub pending_failed : {a b : Text} → pending_status a ≡ failed_status b → ⊥
pending_failed h = cc

pub clash : {a b : Text} → pending_status a ≡ final_status b → ⊥
clash h = cc

pub no_ok : {A : Type 0} {a : A} {e : RailError} → ◌≡◌ {A = Result RailError A} (err e) (ok a) → ⊥
no_ok h = cc

pub or_invalid-ok :
    {A : Type 0} (why : Text) (o : Option A) {a : A} → or_invalid why o ≡ ok a → o ≡ some a
or_invalid-ok why none h = cc
or_invalid-ok why (some x) h = ap (λ y. some y) (ok_injective h)

pub confirmations-ok :
    (head block : ℕ) {n : ℕ}
    → confirmations_of head block ≡ ok n
    → (block ≤ head) × (n ≡ (head - block + 1) % 2 ^ 64)
confirmations-ok head block h = elim (Bool-cases (leb block head)) [
  | inl in_order ↦ (leb→le block head in_order, sym (ok_injective (rw in_order at h)))
  | inr after ↦ absurd (no_ok (rw after at h))
]

module _ (self : X402Rail) where
  pub success-failed :
      (transaction reason : Text) → facilitator_success self transaction ≡ failed_status reason → ⊥
  unfolding facilitator_success
  success-failed transaction reason h = ground arith

  pub pending-final :
      (transaction reference : Text) (confirmations : ℕ)
      → final_or_pending self transaction confirmations ≡ final_status reference
      → self.policy.confirmations ≤ confirmations
  unfolding final_or_pending
  pending-final transaction reference confirmations h = ground arith

  pub never_failed :
      (transaction reason : Text) (confirmations : ℕ)
      → final_or_pending self transaction confirmations ≡ failed_status reason
      → ⊥
  unfolding final_or_pending
  never_failed transaction reason confirmations h = ground arith

  module _ ⦃dec : HexDecode⦄ where
    pub verdict-final :
        {Value : Type 0} (payment : AuthorizationRef) (response : SettlementResponse Value)
        (reference : Text)
        → facilitator_verdict self payment response ≡ ok (final_status reference)
        → (response.success ≡ true) × (self.policy.trust_facilitator ≡ true)
    unfolding facilitator_verdict
    verdict-final payment response reference h = elim (Bool-cases response.success) [
      | inl good ↦
          let a =
            >>=-ok (map_err invalid (bytes_field 32 (codes "transaction") response.transaction)) _
              (rw good at h) in
          (good, success-final self response.transaction reference (same_status _ _ a.2))
      | inr bad ↦ absurd (
          failure-final self payment (failure_reason_of response.error_reason) reference
            (same_status _ _ (rw bad at h)))
    ]

    pub verdict-failed :
        {Value : Type 0} (payment : AuthorizationRef) (response : SettlementResponse Value)
        (reason : Text)
        → facilitator_verdict self payment response ≡ ok (failed_status reason)
        → (response.success ≡ false)
          × (facilitator_failure self payment (failure_reason_of response.error_reason)
              ≡ failed_status reason)
    unfolding facilitator_verdict
    verdict-failed payment response reason h = elim (Bool-cases response.success) [
      | inl good ↦
          let a =
            >>=-ok (map_err invalid (bytes_field 32 (codes "transaction") response.transaction)) _
              (rw good at h) in
          absurd (success-failed response.transaction reason (same_status _ _ a.2))
      | inr bad ↦ (bad, same_status _ _ (rw bad at h))
    ]

-- What evidence of failure shows: no receipt does.
abbrev pub IsLost :
    {Value : Type 0} → X402Rail → AuthorizationRef → Text → X402Finality Value → Type 0
IsLost self payment reason (facilitator response) = IsExpired self payment response reason
IsLost self payment reason (receipt network head shown) = ⊥
