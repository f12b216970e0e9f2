-- ===== src/Ledger/Queries.antt =====
-- `Ledger::resume` and `Ledger::reached` (crates/ml-core/src/ledger.rs).
use mandate_ledger.Prelude.{
  Bool, true, false, Option, none, some, List, [], ◌∷◌, any, if◌then◌else◌, Result, ok, err, ◌==◌,
}
use mandate_ledger.Prelude
use mandate_ledger.Ids.{ContextId}
use mandate_ledger.State.{
  PaymentState, Resumed, is_authorized, is_paid, is_settled, is_settlement_failed, is_compensated,
  is_delivered, is_expired, Reached, authorized, paid, settled, settlement_failed, compensated,
  delivered, expired, state_eq,
}
use mandate_ledger.Error.{LedgerError}
use mandate_ledger.Store.Interface.{Record, Store}
use mandate_ledger.Ledger.Action.{Action, pure, call, lift, ◌>>=◌}
use mandate_ledger.Ledger.Tokens.{
  authorized_from, paid_from, settled_from, failed_from, delivered_from,
}

-- `then(..).transpose()?`
abbrev pub when_earned :
    {Decimal A : Type 0}
    → Bool
    → Result (LedgerError Decimal) A
    → Result (LedgerError Decimal) (Option A)
when_earned true (ok a) = ok (some a)
when_earned true (err e) = err e
when_earned false r = ok none

abbrev pub earned : PaymentState → List PaymentState → Bool
earned s states = any (λ t. t == s) states

module _ {Decimal : Type 0} where
  -- The token of the state that the record is in.
  unfoldable pub resumed_from :
      ContextId → Record Decimal → PaymentState → Result (LedgerError Decimal) (Resumed Decimal)
  unfolding authorized_from paid_from settled_from failed_from delivered_from
  resumed_from ctx rec authorized = ok (is_authorized (authorized_from rec))
  resumed_from ctx rec paid = Prelude.◌>>=◌ (paid_from rec) λ t. ok (is_paid t)
  resumed_from ctx rec settled = Prelude.◌>>=◌ (settled_from rec) λ t. ok (is_settled t)
  resumed_from ctx rec settlement_failed =
      Prelude.◌>>=◌ (failed_from rec) λ t. ok (is_settlement_failed t)
  resumed_from ctx rec compensated = ok (is_compensated (record { ctx = ctx }))
  resumed_from ctx rec delivered = Prelude.◌>>=◌ (delivered_from rec) λ t. ok (is_delivered t)
  resumed_from ctx rec expired = ok (is_expired ctx)

  -- Every token that the record has earned.
  unfoldable pub reached_from :
      ContextId → Record Decimal → Result (LedgerError Decimal) (Reached Decimal)
  unfolding authorized_from paid_from settled_from failed_from delivered_from
  reached_from ctx rec =
      Prelude.◌>>=◌
        (when_earned
          (earned rec.state (paid ∷ settled ∷ settlement_failed ∷ compensated ∷ delivered ∷ []))
          (paid_from rec))
        λ p.
          Prelude.◌>>=◌
            (when_earned (earned rec.state (settled ∷ delivered ∷ [])) (settled_from rec))
            λ s.
              Prelude.◌>>=◌
                (when_earned (earned rec.state (settlement_failed ∷ compensated ∷ []))
                  (failed_from rec))
                λ f. Prelude.◌>>=◌ (when_earned (rec.state == delivered) (delivered_from rec)) λ d.
                  ok (record {
                    state = rec.state;
                    reached_authorized = authorized_from rec;
                    reached_paid = p;
                    reached_settled = s;
                    reached_failed = f;
                    reached_compensated =
                        if rec.state == compensated then some (record { ctx = ctx }) else none;
                    reached_delivered = d;
                    reached_expired = rec.state == expired;
                  })

module _ {Decimal S : Type 0} ⦃st : Store Decimal S⦄ where
  -- `Ledger::resume`
  unfoldable pub resume : ContextId → Action Decimal S (Option (Resumed Decimal))
  unfolding resumed_from
  resume ctx = call (st.get_record ctx) >>= λ found. elim found [
    | none ↦ pure none
    | some rec ↦ lift (resumed_from ctx rec rec.state) >>= λ t. pure (some t)
  ]

  -- `Ledger::reached`
  unfoldable pub reached : ContextId → Action Decimal S (Option (Reached Decimal))
  unfolding reached_from
  reached ctx = call (st.get_record ctx) >>= λ found. elim found [
    | none ↦ pure none
    | some rec ↦ lift (reached_from ctx rec) >>= λ t. pure (some t)
  ]
