-- ===== src/Store/Validate.antt =====
-- Phase 1 of `MemoryStore::append`: what each body is checked for (crates/ml-core/src/store.rs).
use mandate_ledger.Prelude.{
  Option, none, some, leb, if◌then◌else◌, any, Result, ok, ◌>>=◌, map_err, ◌==◌, list_eq, nat_eq,
  pair_eq,
}
use mandate_ledger.Prelude.Map.{get, get_or}
use mandate_ledger.Time.{Timestamp}
use mandate_ledger.Ids.{ContextId, MandateId}
use mandate_ledger.Money.{DecimalOps, Money, money_zero, money_add, money_sub, cmp_same_currency}
use mandate_ledger.State.{
  authorized, paid, settled, settlement_failed, compensated, delivered, expired, state_eq,
}
use mandate_ledger.Mandate.Scope.{is_greater}
use mandate_ledger.Mandate.Body.{Mandate}
use mandate_ledger.Event.{
  EventBody, CartSnapshot, authorized_event, denied_event, paid_event, settled_event, failed_event,
  compensated_event, delivered_event, expired_event,
}
use mandate_ledger.Error.{StoreError, store_money}
use mandate_ledger.Store.Interface.{
  budget_exceeded, velocity_exceeded, nonce_already_used, revoked, denials_capped, denial_cap,
}
use mandate_ledger.Store.Inner.{
  Inner, Verdict, refuse, proceed, no_effects, window_of, check_transition, velocity_refusal,
  authorized_record, denial_count, release_of, nonce_taken,
}

module _ {Decimal : Type 0} ⦃ops : DecimalOps Decimal⦄ where
  abbrev pub current_reserved : Inner Decimal → MandateId → Money Decimal → Money Decimal
  current_reserved g mandate amount = get_or (money_zero amount.currency) (get g.reserved mandate)

  -- The budget check of an `Authorized`: the amount that still fits, if it is refused.
  unfoldable pub budget_refusal :
      Option (Money Decimal)
      → Money Decimal
      → Money Decimal
      → Result StoreError (Option (Money Decimal))
  budget_refusal none current next = ok none
  budget_refusal (some cap) current next = map_err store_money (cmp_same_currency next cap) >>= λ o.
      if is_greater o
      then (map_err store_money (money_sub cap current) >>= λ left. ok (some left))
      else ok none

  -- Phase 1 of `append` for `Authorized`.
  unfoldable pub check_authorized :
      Inner Decimal
      → ContextId
      → Timestamp
      → Mandate Decimal
      → CartSnapshot Decimal
      → Result StoreError (Verdict Decimal)
  unfolding velocity_refusal budget_refusal
  check_authorized g ctx at mandate cart = check_transition g ctx authorized >>= λ _.
      let scope = mandate.body.scope in
      let id = mandate.body.id in
      let amount = cart.claims.total in
      let current = current_reserved g id amount in
      if any (λ m. m == id) g.revoked_ids
      then ok (refuse revoked)
      else elim (velocity_refusal g id at scope.velocity) [
        | some count ↦ ok (refuse (velocity_exceeded count))
        | none ↦ map_err store_money (money_add current amount) >>= λ next.
            budget_refusal scope.max_total current next >>= λ over. elim over [
              | some left ↦ ok (refuse (budget_exceeded left))
              | none ↦ ok (
                  proceed (record {
                    new_record = some (authorized_record ctx id cart);
                    reserve = some (id, next);
                    window = window_of scope.velocity;
                    release = none;
                    consume_nonce = none;
                  }))
            ]
      ]

  -- Phase 1 of `append`: nothing is mutated until every check passes.
  unfoldable pub check_body :
      Inner Decimal
      → ContextId
      → Timestamp
      → EventBody Decimal
      → Result StoreError (Verdict Decimal)
  unfolding check_authorized check_transition
  check_body g ctx at (authorized_event mandate cart key) = check_authorized g ctx at mandate cart
  check_body g ctx at (paid_event rail reference nonce amount key) =
      check_transition g ctx paid >>= λ _.
      if nonce_taken (get g.nonces (rail, nonce)) ctx
      then ok (refuse nonce_already_used)
      else ok (proceed (record no_effects { consume_nonce = some (rail, nonce) }))
  check_body g ctx at (settled_event rail reference) =
      check_transition g ctx settled >>= λ _. ok (proceed no_effects)
  check_body g ctx at (failed_event rail reason) =
      check_transition g ctx settlement_failed >>= release_of
  check_body g ctx at (compensated_event reference) =
      check_transition g ctx compensated >>= λ _. ok (proceed no_effects)
  check_body g ctx at (delivered_event receipt) =
      check_transition g ctx delivered >>= λ _. ok (proceed no_effects)
  check_body g ctx at expired_event = check_transition g ctx expired >>= release_of
  check_body g ctx at (denied_event stage reason detail) =
      if leb denial_cap (denial_count g ctx)
      then ok (refuse denials_capped)
      else ok (proceed no_effects)
