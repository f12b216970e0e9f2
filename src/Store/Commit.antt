-- ===== src/Store/Commit.antt =====
-- Phase 2 of `MemoryStore::append`, and `append` (crates/ml-core/src/store.rs).
use mandate_ledger.Prelude.{
  ◌+◌, ◌%◌, ◌^◌, Option, none, some, List, [], ◌∷◌, ◌++◌, if◌then◌else◌, length, last, Result, ok,
  err, ◌>>=◌, map_err, list_eq, nat_eq, pair_eq,
}
use mandate_ledger.Prelude.Int.{ℤ, pos, max_ℤ}
use mandate_ledger.Prelude.Map.{Map, get, insert, get_or}
use mandate_ledger.Text.{Text, codes}
use mandate_ledger.Hash.{Hash32, Sha256, CanonicalJson, zero_hash}
use mandate_ledger.Time.{Timestamp}
use mandate_ledger.Ids.{ContextId, MandateId}
use mandate_ledger.Money.{DecimalOps, Money, money_sub, is_negative, display_money}
use mandate_ledger.State.{paid, settled, settlement_failed, compensated, delivered, expired}
use mandate_ledger.Event.{
  Event, EventBody, Preimage, authorized_event, denied_event, paid_event, settled_event,
  failed_event, compensated_event, delivered_event, expired_event, new_event,
}
use mandate_ledger.Error.{StoreError, corrupt, store_money, store_canonicalize}
use mandate_ledger.Store.Interface.{Record, AppendOutcome, appended, Method}
use mandate_ledger.Store.Inner.{Inner, Effects, Verdict, refuse, proceed, index_of, events_of}
use mandate_ledger.Store.Validate.{check_body}

module _ {Decimal : Type 0} where
  -- The hash of the last event of the context's chain.
  unfoldable pub last_hash : List (Event Decimal) → Hash32
  last_hash events = elim (last events) [ none ↦ zero_hash | some e ↦ e.hash ]

  -- The reservation, the velocity window and the authorization time of an `Authorized`.
  unfoldable pub longest_window : Inner Decimal → MandateId → Option ℤ → Map MandateId ℤ
  longest_window g m none = g.velocity_windows
  longest_window g m (some secs) =
      insert g.velocity_windows m (max_ℤ (get_or (pos 0) (get g.velocity_windows m)) secs)

  unfoldable pub apply_reserve :
      Inner Decimal → Timestamp → Option ℤ → Option (MandateId × Money Decimal) → Inner Decimal
  unfolding longest_window
  apply_reserve g at window none = g
  apply_reserve g at window (some (m, next)) = record g {
    velocity_windows = longest_window g m window;
    reserved = insert g.reserved m next;
    auth_times = insert g.auth_times m (get_or [] (get g.auth_times m) ++ at ∷ []);
  }

  unfoldable pub apply_nonce : Inner Decimal → ContextId → Option (Text × Text) → Inner Decimal
  apply_nonce g ctx none = g
  apply_nonce g ctx (some key) = record g { nonces = insert g.nonces key ctx }

  unfoldable pub apply_new_record :
      Inner Decimal → ContextId → Option (Record Decimal) → Inner Decimal
  apply_new_record g ctx none = g
  apply_new_record g ctx (some r) = record g { records = insert g.records ctx r }

  -- What an event writes into the record of its context.
  unfoldable pub update_record : EventBody Decimal → Record Decimal → Record Decimal
  update_record (paid_event rail reference nonce amount key) r = record r {
    state = paid;
    rail = some rail;
    payment_reference = some reference;
    idempotency_key = some key;
  }
  update_record (settled_event rail reference) r = record r {
    state = settled;
    settlement_reference = some reference;
  }
  update_record (failed_event rail reason) r = record r {
    state = settlement_failed;
    failure_reason = some reason;
  }
  update_record (compensated_event reference) r = record r { state = compensated }
  update_record (delivered_event receipt) r = record r {
    state = delivered;
    receipt_reference = some receipt.reference;
  }
  update_record expired_event r = record r { state = expired }
  update_record (authorized_event mandate cart key) r = r
  update_record (denied_event stage reason detail) r = r

  unfoldable pub apply_update : Inner Decimal → ContextId → EventBody Decimal → Inner Decimal
  apply_update g ctx body = elim (get g.records ctx) [
    | none ↦ g
    | some r ↦ record g { records = insert g.records ctx (update_record body r) }
  ]

  -- The event is pushed and its position is added to the context's index.
  unfoldable pub push_event : Inner Decimal → Event Decimal → Inner Decimal
  push_event g e = record g {
    last_seq = e.seq;
    events = g.events ++ e ∷ [];
    by_ctx = insert g.by_ctx e.ctx (index_of g e.ctx ++ length g.events ∷ []);
  }

  module _ ⦃ops : DecimalOps Decimal⦄ where
    -- `Inner::release`
    unfoldable pub release_reservation :
        Inner Decimal → MandateId → Money Decimal → Result StoreError (Inner Decimal)
    release_reservation g mandate amount = elim (get g.reserved mandate) [
      | none ↦ err (corrupt (codes "no reservation for " ++ mandate))
      | some current ↦ map_err store_money (money_sub current amount) >>= λ next.
          if is_negative next
          then err (
              corrupt (
                codes "releasing "
                ++ (display_money amount
                    ++ (codes " from "
                        ++ (display_money current
                            ++ (codes " on " ++ (mandate ++ codes " goes negative")))))))
          else ok (record g { reserved = insert g.reserved mandate next })
    ]

    unfoldable pub apply_release :
        Inner Decimal → Option (MandateId × Money Decimal) → Result StoreError (Inner Decimal)
    apply_release g none = ok g
    apply_release g (some (m, amount)) = release_reservation g m amount

    -- Phase 2: a failing release returns with what was written before it.
    unfoldable pub commit :
        Inner Decimal
        → ContextId
        → Timestamp
        → Effects Decimal
        → Event Decimal
        → Result StoreError (AppendOutcome Decimal) × Inner Decimal
    unfolding apply_release apply_nonce apply_new_record apply_update push_event
    commit g ctx at fx e =
        let reserved = apply_reserve g at fx.window fx.reserve in
        elim (apply_release reserved fx.release) [
          | err failure ↦ (err failure, reserved)
          | ok released ↦ (
            ok (appended e),
            push_event
                (apply_update
                  (apply_new_record (apply_nonce released ctx fx.consume_nonce) ctx fx.new_record)
                  ctx e.body)
                e,
          )
        ]

    module _ ⦃sha : Sha256⦄ ⦃json : CanonicalJson (Preimage Decimal)⦄ where
      -- The next event of the context; the sequence number is a `u64`.
      unfoldable pub next_event :
          Inner Decimal
          → ContextId
          → Timestamp
          → EventBody Decimal
          → Result StoreError (Event Decimal)
      next_event g ctx at body =
          map_err store_canonicalize
            (new_event (last_hash (events_of g ctx)) ((g.last_seq + 1) % 2 ^ 64) ctx at body)

      abbrev pub append_verdict :
          ContextId
          → Timestamp
          → EventBody Decimal
          → Result StoreError (Verdict Decimal)
          → Method (Inner Decimal) (AppendOutcome Decimal)
      append_verdict ctx at body (err failure) g = (err failure, g)
      append_verdict ctx at body (ok (refuse outcome)) g = (ok outcome, g)
      append_verdict ctx at body (ok (proceed fx)) g = elim (next_event g ctx at body) [
        | err failure ↦ (err failure, g)
        | ok e ↦ commit g ctx at fx e
      ]

      -- `MemoryStore::append`
      unfoldable pub append :
          ContextId → Timestamp → EventBody Decimal → Method (Inner Decimal) (AppendOutcome Decimal)
      append ctx at body g = append_verdict ctx at body (check_body g ctx at body) g
