-- ===== src/Adapters/Sandbox.antt =====
-- A rail that the operator drives (crates/ml-adapters/src/sandbox.rs). Its memory of checks is
-- passed explicitly: the source keeps it behind a lock.
use mandate_ledger.Prelude.{
  ℕ, ◌+◌, ◌-◌, ◌^◌, Bool, true, false, not, ◌&&◌, ◌++◌, Option, none, some, Result, ok, err, leb,
  length, if◌then◌else◌, ◌==◌, list_eq, nat_eq, pair_eq, min,
}
use mandate_ledger.Prelude.Map.{Map, get, insert, get_or}
use mandate_ledger.Text.{Text, codes, ends_with}
use mandate_ledger.Text.Decimal.{display_nat}
use mandate_ledger.Rail.{
  PaymentExpectation, VerifiedProof, SettlementExpectation, FinalityStatus, failed_status,
  RailError, invalid_proof, unavailable, Rail,
}
use mandate_ledger.Adapters.Mock.{MockProof, claimed, other_payment, confirmed_or_pending}

-- `trait ReorgChecks`, over a memory `M`
pub record ReorgChecks (M : Type 0) : Type 0 where
  pub count : Text → Text → M → Result Text ℕ × M

pub record MemoryChecks : Type 0 where
  pub checks : Map (Text × Text) ℕ
  pub capacity : ℕ

-- `u32::saturating_add(1)`
abbrev pub count_up : ℕ → ℕ
count_up n = min (n + 1) (2 ^ 32 - 1)

abbrev pub is_known : Option ℕ → Bool
is_known none = false
is_known (some n) = true

-- `MemoryChecks::count`
unfoldable pub memory_count : Text → Text → MemoryChecks → Result Text ℕ × MemoryChecks
unfolding get insert
memory_count rail reference self =
    let known = get self.checks (rail, reference) in
    if not (is_known known) && leb self.capacity (length self.checks)
    then (
      err (
          codes "the sandbox rail remembers "
          ++ (display_nat self.capacity
              ++ (codes " references already and will not remember `"
                  ++ (reference ++ codes "`")))),
      self,
    )
    else (
      ok (count_up (get_or 0 known)),
      record self { checks = insert self.checks (rail, reference) (count_up (get_or 0 known)) },
    )

instance abbrev pub memory_checks : ReorgChecks MemoryChecks
memory_checks = record { count = memory_count }

pub data Reported : Type 0 where
  confirmations : ℕ → Reported
  reported_failed : Text → Reported

pub record Finality : Type 0 where
  pub reference : Text
  pub reported : Option Reported

pub record SandboxRail : Type 0 where
  pub rail_id : Text
  pub finality : ℕ

pub data Magic : Type 0 where
  magic_ok magic_fail magic_reorg : Magic

pub data Observation : Type 0 where
  seen_confirmations : ℕ → Observation
  seen_failed : Text → Observation

-- `magic`
unfoldable pub magic : Text → Option Magic
unfolding ends_with
magic reference =
    if ends_with reference (codes "-ok")
    then some magic_ok
    else if ends_with reference (codes "-fail")
    then some magic_fail
    else if ends_with reference (codes "-reorg")
    then some magic_reorg
    else none

-- The match on the checks that were counted.
unfoldable pub reorganized : ℕ → ℕ → Observation
unfolding display_nat
reorganized needed checks =
    if leb needed checks
    then seen_failed (
        codes "reorganized: dropped after " ++ (display_nat (checks - 1) ++ codes " confirmations"))
    else seen_confirmations checks

abbrev pub status_of :
    SandboxRail → Finality → Result RailError Observation → Result RailError FinalityStatus
status_of self finality (err e) = err e
status_of self finality (ok (seen_failed reason)) = ok (failed_status reason)
status_of self finality (ok (seen_confirmations n)) =
    ok (confirmed_or_pending self.finality finality.reference n)

-- `.map_err(RailError::Unavailable)?`, and what the count means.
abbrev pub after_count : SandboxRail → Result Text ℕ → Result RailError Observation
after_count self (err why) = err (unavailable why)
after_count self (ok checks) = ok (reorganized self.finality checks)

module _ {M : Type 0} ⦃memory : ReorgChecks M⦄ (self : SandboxRail) where
  abbrev pub observe_magic : Text → M → Option Magic → Result RailError Observation × M
  observe_magic reference m (some magic_ok) = (ok (seen_confirmations self.finality), m)
  observe_magic reference m (some magic_fail) = (ok (seen_failed (codes "declined by the rail")), m)
  observe_magic reference m (some magic_reorg) =
      let (counted, m') = memory.count self.rail_id reference m in (after_count self counted, m')
  observe_magic reference m none = (
    err (
        unavailable (
          codes "the sandbox rail has no report for `"
          ++ (reference
              ++ codes
                  "`: tell it what to report, or use a reference ending in -ok, -fail or -reorg"))),
    m,
  )

  abbrev pub observe_reported : Finality → M → Option Reported → Result RailError Observation × M
  observe_reported finality m (some (confirmations n)) = (ok (seen_confirmations n), m)
  observe_reported finality m (some (reported_failed reason)) = (ok (seen_failed reason), m)
  observe_reported finality m none = observe_magic finality.reference m (magic finality.reference)

  -- `SandboxRail::observe`
  unfoldable pub observe : Finality → M → Result RailError Observation × M
  unfolding magic reorganized
  observe finality m = observe_reported finality m finality.reported

  -- `check_finality` of the sandbox rail
  unfoldable pub sandbox_finality :
      {Decimal : Type 0}
      → Finality
      → SettlementExpectation Decimal
      → M
      → Result RailError FinalityStatus × M
  unfolding observe confirmed_or_pending
  sandbox_finality finality expected m =
      if not (finality.reference == expected.payment_reference)
      then (err (other_payment finality.reference expected.payment_reference), m)
      else (status_of self finality (observe finality m).0, (observe finality m).1)

-- `verify_proof` of the sandbox rail
unfoldable pub sandbox_verify :
    {Decimal : Type 0}
    → MockProof Decimal
    → PaymentExpectation Decimal
    → Result RailError (VerifiedProof Decimal)
sandbox_verify proof expected =
    if not proof.valid
    then err (invalid_proof (codes "signature check failed"))
    else ok (claimed proof)

-- `Rail for SandboxRail`, with the memory that it has before the call.
abbrev pub sandbox_rail :
    {Decimal M : Type 0} ⦃memory : ReorgChecks M⦄
    → SandboxRail
    → M
    → Rail Decimal (MockProof Decimal) Finality
sandbox_rail self m = record {
  id = self.rail_id;
  verify_proof = sandbox_verify;
  check_finality = λ finality expected. (sandbox_finality self finality expected m).0;
}
