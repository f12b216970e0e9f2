-- ===== src/Adapters/Reorg.antt =====
-- What the sandbox rail says, check after check, of a payment that a reorganization drops; and how
-- much it remembers.
use mandate_ledger.Prelude.{
  ℕ, zero, suc, ◌+◌, ◌-◌, ◌^◌, ◌≤◌, ◌<◌, ◌≡◌, refl, sym, ap, Result, ◌∙◌, true, ◌++◌, none, some,
  ok, leb, length, if◌then◌else◌, ◌==◌, ==_refl, eq_==, list_eq, nat_eq, pair_eq, arith,
}
use mandate_ledger.Prelude.Map.{get, get_or, get-insert, length-insert}
use mandate_ledger.Text.{Text, codes}
use mandate_ledger.Text.Decimal.{display_nat}
use mandate_ledger.Rail.{
  SettlementExpectation, FinalityStatus, RailError, pending_status, failed_status,
}
use mandate_ledger.Adapters.Mock.{confirmed_or_pending}
use mandate_ledger.Adapters.Sandbox.{
  MemoryChecks, count_up, memory_count, memory_checks, SandboxRail, magic_reorg, magic, reorganized,
  observe, after_count, status_of, sandbox_finality,
}

-- A rail that remembers at most `capacity` references goes on doing so.
pub memory_count_bounded :
    (rail reference : Text) (m : MemoryChecks)
    → length m.checks ≤ m.capacity
    → length (memory_count rail reference m).1.checks ≤ (memory_count rail reference m).1.capacity
unfolding memory_count
memory_count_bounded rail reference m h = ground (
  arith,
  length-insert m.checks (rail, reference) (count_up (get_or 0 (get m.checks (rail, reference)))),
)

module _ (self : SandboxRail) (reference : Text) where
  abbrev key : Text × Text
  key = (self.rail_id, reference)

  -- The memory after `n` counts of the reference.
  unfoldable checked : ℕ → MemoryChecks → MemoryChecks
  checked zero m = m
  checked (suc n) m = (memory_count self.rail_id reference (checked n m)).1

  counts_first :
      (m : MemoryChecks)
      → get m.checks key ≡ none
      → length m.checks < m.capacity
      → ((memory_count self.rail_id reference m).0 ≡ ok 1)
        × (get (memory_count self.rail_id reference m).1.checks key ≡ some 1)
  unfolding memory_count
  counts_first m unknown room =
      (ground arith, ground (arith, get-insert m.checks key key 1, ==_refl key))

  counts_next :
      (m : MemoryChecks) (n : ℕ)
      → get m.checks key ≡ some n
      → n + 1 < 2 ^ 32
      → ((memory_count self.rail_id reference m).0 ≡ ok (n + 1))
        × (get (memory_count self.rail_id reference m).1.checks key ≡ some (n + 1))
  unfolding memory_count
  counts_next m n known room =
      (ground arith, ground (arith, get-insert m.checks key key (n + 1), ==_refl key))

  counts :
      (m : MemoryChecks) (n : ℕ)
      → get m.checks key ≡ none
      → length m.checks < m.capacity
      → n + 1 < 2 ^ 32
      → ((memory_count self.rail_id reference (checked n m)).0 ≡ ok (n + 1))
        × (get (memory_count self.rail_id reference (checked n m)).1.checks key ≡ some (n + 1))
  unfolding checked
  counts m zero unknown room small = counts_first m unknown room
  counts m (suc n) unknown room small =
      let before = counts m n unknown room (omega arith) in
      counts_next (checked (suc n) m) (suc n) (before.1 ∙ ap (λ (k : ℕ). some k) (omega arith))
        small

  -- What the rail answers of a reference that is dropped, after this many checks.
  abbrev pub reorg_answer : ℕ → FinalityStatus
  reorg_answer n =
      if leb self.finality n
      then failed_status
          (codes "reorganized: dropped after " ++ (display_nat (n - 1) ++ codes " confirmations"))
      else pending_status (
          codes "need "
          ++ (display_nat self.finality ++ (codes " confirmations, have " ++ display_nat n)))

  reorg_status :
      (n : ℕ)
      → status_of self
          (record { reference = reference; reported = none })
          (ok (reorganized self.finality n))
        ≡ ok (reorg_answer n)
  unfolding reorganized confirmed_or_pending
  reorg_status n = ground arith

  module _ {Decimal : Type 0} (expected : SettlementExpectation Decimal) where
    -- The memory that the rail has after it has been asked `n` times about the reference.
    unfoldable pub asked : ℕ → MemoryChecks → MemoryChecks
    asked zero m = m
    asked (suc n) m =
        (sandbox_finality self (record { reference = reference; reported = none }) expected
          (asked n m)).1

    finality_counts :
        (m : MemoryChecks)
        → magic reference ≡ some magic_reorg
        → expected.payment_reference ≡ reference
        → sandbox_finality self (record { reference = reference; reported = none }) expected m ≡ (
          status_of self
              (record { reference = reference; reported = none })
              (after_count self (memory_count self.rail_id reference m).0),
          (memory_count self.rail_id reference m).1,
        )
    unfolding sandbox_finality observe
    finality_counts m is_reorg same =
        let this : (reference == expected.payment_reference) ≡ true =
          eq_== reference expected.payment_reference (sym same) in
        rw this (rw is_reorg refl)

    asked-checked :
        (m : MemoryChecks) (n : ℕ)
        → magic reference ≡ some magic_reorg
        → expected.payment_reference ≡ reference
        → asked n m ≡ checked n m
    unfolding asked checked
    asked-checked m zero is_reorg same = refl
    asked-checked m (suc n) is_reorg same =
        ap (λ (o : Result RailError FinalityStatus × MemoryChecks). o.1)
          (finality_counts (asked n m) is_reorg same)
        ∙ ap (λ k. (memory_count self.rail_id reference k).1) (asked-checked m n is_reorg same)

    -- A payment that a reorganization drops, asked about again and again: the answer is pending, with
    -- one confirmation more each time, until the check that would have made it final, which fails it,
    -- as does every later one. The reference is not remembered at first, there is room for it, and it
    -- is asked about less than 2 ^ 32 times. Each time the rail has the memory that the last check
    -- left.
    pub reorg_is_dropped :
        (m : MemoryChecks) (n : ℕ)
        → magic reference ≡ some magic_reorg
        → expected.payment_reference ≡ reference
        → get m.checks key ≡ none
        → length m.checks < m.capacity
        → n + 1 < 2 ^ 32
        → (sandbox_finality self
            (record { reference = reference; reported = none })
            expected
            (asked n m)).0
          ≡ ok (reorg_answer (n + 1))
    reorg_is_dropped m n is_reorg same unknown room small =
        let counted = (counts m n unknown room small).0 in
        ap (λ (o : Result RailError FinalityStatus × MemoryChecks). o.0)
          (finality_counts (asked n m) is_reorg same)
        ∙ (ap
              (λ k.
                status_of self (record { reference = reference; reported = none })
                  (after_count self (memory_count self.rail_id reference k).0))
              (asked-checked m n is_reorg same)
            ∙ (ap
                  (λ c.
                    status_of self (record { reference = reference; reported = none })
                      (after_count self c))
                  counted
                ∙ reorg_status (n + 1)))
