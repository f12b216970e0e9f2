-- ===== src/Postgres/Write.antt =====
-- Phase 2 of `PostgresStore::append`, the transaction and `revoke` (crates/ml-store-postgres/src/store.rs).
-- `pg_append` is a call during which nothing else commits, so that both phases see the same tables;
-- `decide` and `write` are the phases, which take tables of their own. What fails, or returns early,
-- is rolled back, all but the number that it has drawn from the sequence.
use mandate_ledger.Prelude.{
  ◌+◌, ◌-◌, ◌^◌, Option, none, some, List, [], ◌∷◌, ◌++◌, leb, any, if◌then◌else◌, Result, ok, err,
  ◌>>=◌, map_err, ◌==◌, list_eq, nat_eq,
}
use mandate_ledger.Prelude.Int.{pos, ltb_ℤ, beq_ℤ}
use mandate_ledger.Prelude.Map.{get, insert}
use mandate_ledger.Text.{Text, codes}
use mandate_ledger.Text.Codec.{HexDecode}
use mandate_ledger.Hash.{Hash32, Sha256, CanonicalJson, zero_hash}
use mandate_ledger.Hash.Display.{display_hash}
use mandate_ledger.Time.{Timestamp}
use mandate_ledger.Ids.{Hex, ContextId, MandateId}
use mandate_ledger.Money.{DecimalOps, Money, money_sub, is_negative, display_money}
use mandate_ledger.State.{
  authorized, paid, settled, settlement_failed, compensated, delivered, expired,
}
use mandate_ledger.Event.{
  Event, EventBody, Preimage, authorized_event, denied_event, paid_event, settled_event,
  failed_event, compensated_event, delivered_event, expired_event, new_event,
}
use mandate_ledger.Error.{StoreError, corrupt, backend, store_money, store_canonicalize}
use mandate_ledger.Store.Interface.{AppendOutcome, appended, Method}
use mandate_ledger.Postgres.Tables.{Tables, EventRow, ContextRow, Sql}
use mandate_ledger.Postgres.Convert.{state_to_sql, hash_from_sql}
use mandate_ledger.Postgres.Decide.{
  PgEffects, Decision, refused, decided, read_record, read_reserved, decide,
}

module _ {Json : Type 0} where
  -- The later of a row and the row with the greatest number.
  abbrev later_row : EventRow Json → Option (EventRow Json) → Option (EventRow Json)
  later_row r none = some r
  later_row r (some x) = if ltb_ℤ r.seq x.seq then some x else some r

  -- `WHERE ctx = $1 ORDER BY seq DESC LIMIT 1`
  unfoldable pub latest_row : Text → List (EventRow Json) → Option (EventRow Json)
  latest_row ctx [] = none
  latest_row ctx (r ∷ rows) =
      let rest = latest_row ctx rows in if r.ctx == ctx then later_row r rest else rest

  abbrev pub hash_in_row : ⦃dec : HexDecode⦄ → Option (EventRow Json) → Result StoreError Hash32
  hash_in_row none = ok zero_hash
  hash_in_row (some row) = hash_from_sql row.hash

module _ {Decimal : Type 0} where
  -- The `UPDATE` of the context's row that an event makes.
  unfoldable pub update_row :
      ⦃hex : Hex⦄ → EventBody Decimal → ContextRow Decimal → ContextRow Decimal
  unfolding state_to_sql display_hash
  update_row (paid_event rail reference nonce amount key) row = record row {
    state = state_to_sql paid;
    rail = some rail;
    payment_reference = some reference;
    idempotency_key = some (display_hash key);
  }
  update_row (settled_event rail reference) row = record row {
    state = state_to_sql settled;
    settlement_reference = some reference;
  }
  update_row (failed_event rail reason) row = record row {
    state = state_to_sql settlement_failed;
    failure_reason = some reason;
  }
  update_row (compensated_event reference) row = record row { state = state_to_sql compensated }
  update_row (delivered_event receipt) row = record row {
    state = state_to_sql delivered;
    receipt_reference = some receipt.reference;
  }
  update_row expired_event row = record row { state = state_to_sql expired }
  update_row (authorized_event mandate cart key) row = row
  update_row (denied_event stage reason detail) row = row

  -- The row of an authorized purchase.
  unfoldable pub new_row :
      ⦃hex : Hex⦄ → ContextId → MandateId × Hash32 × Text × Money Decimal → ContextRow Decimal
  unfolding state_to_sql display_hash
  new_row ctx (mandate, cart_hash, merchant, amount) = record {
    ctx = ctx;
    state = state_to_sql authorized;
    mandate_id = mandate;
    cart_hash = display_hash cart_hash;
    merchant = merchant;
    amount = amount.amount;
    currency = amount.currency;
    rail = none;
    payment_reference = none;
    idempotency_key = none;
    settlement_reference = none;
    failure_reason = none;
    receipt_reference = none;
  }

module _ {Decimal Json : Type 0} where
  -- The hash of the context's last event.
  unfoldable pub previous_hash :
      ⦃dec : HexDecode⦄ → Tables Decimal Json → ContextId → Result StoreError Hash32
  unfolding latest_row
  previous_hash t ctx = hash_in_row (latest_row ctx t.events)

  -- The reservation and the row of the velocity window.
  unfoldable pub write_reserve :
      Tables Decimal Json
      → ContextId
      → Timestamp
      → Option (MandateId × Money Decimal)
      → Tables Decimal Json
  write_reserve t ctx at none = t
  write_reserve t ctx at (some (mandate, next)) = record t {
    reservations =
        insert t.reservations mandate (record { amount = next.amount; currency = next.currency });
    authorizations = t.authorizations ++ record { mandate_id = mandate; ctx = ctx; at = at } ∷ [];
  }

  -- `INSERT INTO ml_contexts`; a context that is there violates the primary key.
  unfoldable pub write_create :
      ⦃sql : Sql Decimal Json⦄
      → ⦃hex : Hex⦄ → Tables Decimal Json
      → ContextId
      → Option (MandateId × Hash32 × Text × Money Decimal)
      → Result StoreError (Tables Decimal Json)
  unfolding new_row
  write_create t ctx none = ok t
  write_create ⦃sql⦄ t ctx (some values) = elim (get t.contexts ctx) [
    | some row ↦ err (backend (sql.violation (codes "ml_contexts_pkey")))
    | none ↦ ok (record t { contexts = insert t.contexts ctx (new_row ctx values) })
  ]

  -- `WHERE ctx = $1`: where there is no row, nothing is updated.
  unfoldable pub write_update :
      ⦃hex : Hex⦄ → Tables Decimal Json → ContextId → EventBody Decimal → Tables Decimal Json
  unfolding update_row
  write_update t ctx body = elim (get t.contexts ctx) [
    | none ↦ t
    | some row ↦ record t { contexts = insert t.contexts ctx (update_row body row) }
  ]

  -- The row of an event.
  abbrev pub event_row : ⦃hex : Hex⦄ → Timestamp → Event Decimal → Json → EventRow Json
  event_row at e body = record {
    seq = pos e.seq;
    ctx = e.ctx;
    at = at;
    prev_hash = display_hash e.prev_hash;
    hash = display_hash e.hash;
    body = body;
  }

  -- `INSERT INTO ml_events`; the number and the hash are unique.
  unfoldable pub write_event :
      ⦃sql : Sql Decimal Json⦄
      → ⦃hex : Hex⦄ → Tables Decimal Json
      → Timestamp
      → Event Decimal
      → Result StoreError (Tables Decimal Json)
  unfolding display_hash
  write_event ⦃sql⦄ t at e = map_err corrupt (sql.to_value e.body) >>= λ body.
      if leb (2 ^ 63) e.seq
      then err (corrupt (codes "out of range integral type conversion attempted"))
      else if any (λ r. beq_ℤ r.seq (pos e.seq)) t.events
      then err (backend (sql.violation (codes "ml_events_pkey")))
      else if any (λ r. r.hash == display_hash e.hash) t.events
      then err (backend (sql.violation (codes "ml_events_hash")))
      else ok (record t { events = t.events ++ event_row at e body ∷ [] })

  -- `UPDATE ml_reservations SET amount = $2 WHERE mandate_id = $1`
  unfoldable pub set_amount : Tables Decimal Json → MandateId → Money Decimal → Tables Decimal Json
  set_amount t mandate next = elim (get t.reservations mandate) [
    | none ↦ t
    | some row ↦ record t {
      reservations = insert t.reservations mandate (record row { amount = next.amount });
    }
  ]

module _ {Decimal Json : Type 0} ⦃ops : DecimalOps Decimal⦄ where
  -- The release of a reservation.
  unfoldable pub write_release :
      Tables Decimal Json
      → Option (MandateId × Money Decimal)
      → Result StoreError (Tables Decimal Json)
  unfolding read_reserved set_amount
  write_release t none = ok t
  write_release t (some (mandate, amount)) = read_reserved t mandate >>= λ reserved. elim reserved [
    | none ↦ err (corrupt (codes "no reservation for " ++ mandate))
    | some current ↦ map_err store_money (money_sub current amount) >>= λ next.
        if is_negative next
        then err (
            corrupt (
              codes "releasing "
              ++ (display_money amount
                  ++ (codes " from "
                      ++ (display_money current
                          ++ (codes " on " ++ (mandate ++ codes " goes negative")))))))
        else ok (set_amount t mandate next)
  ]

  module _ ⦃sql : Sql Decimal Json⦄ ⦃hex : Hex⦄ ⦃dec : HexDecode⦄ ⦃sha : Sha256⦄
      ⦃json : CanonicalJson (Preimage Decimal)⦄ where
    -- Phase 2, from the tables with the number drawn: the event and the rows.
    unfoldable pub write :
        PgEffects Decimal
        → ContextId
        → Timestamp
        → EventBody Decimal
        → Tables Decimal Json
        → Result StoreError (Event Decimal × Tables Decimal Json)
    unfolding previous_hash new_event write_reserve write_release write_create write_update
        write_event
    write fx ctx at body t = previous_hash t ctx >>= λ prev_hash.
        map_err store_canonicalize (new_event prev_hash t.event_seq ctx at body) >>= λ e.
        write_release (write_reserve t ctx at fx.reserve) fx.release >>= λ released.
        write_create released ctx fx.create >>= λ created.
        write_event (write_update created ctx e.body) at e >>= λ written. ok (e, written)

    -- `nextval('ml_event_seq')`, which no rollback takes back.
    abbrev pub drawn : Tables Decimal Json → Tables Decimal Json
    drawn t = record t { event_seq = t.event_seq + 1 }

    -- The end of `append`, after the decision.
    unfoldable pub finish :
        Result StoreError (Decision Decimal Json)
        → ContextId
        → Timestamp
        → EventBody Decimal
        → Method (Tables Decimal Json) (AppendOutcome Decimal)
    unfolding write
    finish (err failure) ctx at body t = (err failure, t)
    finish (ok (refused outcome)) ctx at body t = (ok outcome, t)
    finish (ok (decided fx claimed)) ctx at body t =
        if leb (2 ^ 63 - 1) t.event_seq
        then (err (backend sql.exhausted), t)
        else elim (write fx ctx at body (drawn claimed)) [
          | err failure ↦ (err failure, drawn t)
          | ok (e, written) ↦ (ok (appended e), written)
        ]

    -- `append` of `PostgresStore`, where nothing is committed between its reads and its writes.
    unfoldable pub pg_append :
        ContextId
        → Timestamp
        → EventBody Decimal
        → Method (Tables Decimal Json) (AppendOutcome Decimal)
    unfolding finish read_record decide
    pg_append ctx at body t =
        finish (read_record t ctx >>= λ existing. decide t existing ctx at body) ctx at body t

-- `revoke` of `PostgresStore`
unfoldable pub pg_revoke :
    {Decimal Json : Type 0} → Tables Decimal Json → MandateId → Tables Decimal Json
pg_revoke t mandate =
    if any (λ m. m == mandate) t.revocations
    then t
    else record t { revocations = mandate ∷ t.revocations }
