-- ===== src/Ledger/Replies.antt =====
-- What the engine answers a second time, and what a refusal leaves as it was.
use mandate_ledger.Prelude.{
  ◌≡◌, refl, Bool, true, false, arith, Option, none, some, inl, inr, Result, ok, err, Result-cases,
  map_err, Bool-cases, ◌==◌, ==_eq, list_eq, nat_eq, option_eq, sym, ◌∙◌, ap,
}
use mandate_ledger.Prelude.Map.{get}
use mandate_ledger.Hash.{Sha256, CanonicalJson}
use mandate_ledger.Time.{Timestamp}
use mandate_ledger.Ids.{ContextId}
use mandate_ledger.Money.{DecimalOps}
use mandate_ledger.State.{
  PaymentState, Paid, Settled, Delivered, Settlement, settled, settlement_failed, compensated,
  delivered,
}
use mandate_ledger.Reason.{
  Stage, DenyReason, settlement, delivery, context_not_found, invalid_state,
}
use mandate_ledger.Mandate.Errors.{Detail, no_context, context_is}
use mandate_ledger.Event.{Preimage, DeliveryReceipt, denied_event}
use mandate_ledger.Error.{StoreError, LedgerError, store_error}
use mandate_ledger.Store.Interface.{Record, AppendOutcome}
use mandate_ledger.Store.Inner.{Inner}
use mandate_ledger.Store.Commit.{append, update_record}
use mandate_ledger.Store.Memory.{memory_store}
use mandate_ledger.Store.Append.{append-cases}
use mandate_ledger.Store.Projection.{step_record, records-append}
use mandate_ledger.Ledger.Tokens.{settled_from, failed_from}
use mandate_ledger.Ledger.Action.{Action, pure, lift, ◌>>=◌}
use mandate_ledger.Ledger.Engine.{Ledger, deny, denied_with}
use mandate_ledger.Ledger.Settle.{
  replay_by_state, settlement_replay, ask_finality, record_settlement,
}
use mandate_ledger.Ledger.Finish.{deliver_in, record_delivery}
use mandate_ledger.Ledger.Outcome.{deny-fails}

-- The states of a payment whose settlement has been decided.
abbrev pub is_decided : PaymentState → Bool
is_decided settled = true
is_decided delivered = true
is_decided settlement_failed = true
is_decided compensated = true
is_decided _ = false

-- The states that a delivery may start from: `Settled`, and `Delivered` for a repetition.
abbrev pub may_deliver : PaymentState → Bool
may_deliver settled = true
may_deliver delivered = true
may_deliver _ = false

module _ {Decimal : Type 0} ⦃ops : DecimalOps Decimal⦄ ⦃sha : Sha256⦄
    ⦃json : CanonicalJson (Preimage Decimal)⦄ where
  denied_with-same :
      (A : Type 0) (ctx : ContextId) (stage : Stage) (reason : DenyReason) (detail : Detail Decimal)
      (r : Result StoreError (AppendOutcome Decimal)) (s : Inner Decimal)
      → ((lift (map_err store_error r) >>= denied_with {A = A} ctx stage reason detail) s).1 ≡ s
  denied_with-same A ctx stage reason detail (err e) s = refl
  denied_with-same A ctx stage reason detail (ok o) s = ground arith

  pub deny-append :
      (A : Type 0) (now : Timestamp) (ctx : ContextId) (stage : Stage) (reason : DenyReason)
      (detail : Detail Decimal) (g : Inner Decimal)
      → (deny {A = A} now ctx stage reason detail g).1
        ≡ (append ctx now (denied_event stage reason detail) g).1
  unfolding deny
  deny-append A now ctx stage reason detail g =
      let body = denied_event stage reason detail in
      denied_with-same A ctx stage reason detail (append ctx now body g).0 (append ctx now body g).1

  denied-same :
      (ctx : ContextId) (r : Option (Record Decimal)) (stage : Stage) (reason : DenyReason)
      (detail : Detail Decimal)
      → step_record ctx r (denied_event stage reason detail) ≡ r
  unfolding update_record
  denied-same ctx r stage reason detail = ground arith

  pub denied_append_keeps :
      (now : Timestamp) (ctx d : ContextId) (stage : Stage) (reason : DenyReason)
      (detail : Detail Decimal) (g : Inner Decimal)
      → get (append ctx now (denied_event stage reason detail) g).1.records d ≡ get g.records d
  denied_append_keeps now ctx d stage reason detail g =
      elim (append-cases ctx now (denied_event stage reason detail) g) [
        | inl alone ↦ rw alone.1 refl
        | inr c ↦ records-append c d ∙ elim (Bool-cases (ctx == d)) [
          | inl same ↦
              rw same (
                denied-same ctx (get g.records ctx) stage reason detail
                ∙ rw (==_eq ctx d same) refl)
          | inr other ↦ rw other refl
        ]
      ]

module _ {Decimal Proof Finality : Type 0} ⦃ops : DecimalOps Decimal⦄ ⦃sha : Sha256⦄
    ⦃json : CanonicalJson (Preimage Decimal)⦄ (self : Ledger Decimal Proof Finality) where
  abbrev answered :
      ContextId
      → Finality
      → Record Decimal
      → PaymentState
      → Action Decimal (Inner Decimal) Settlement
  answered ctx finality rec s = replay_by_state self ctx rec s >>= λ replayed. elim replayed [
    | some outcome ↦ pure outcome
    | none ↦ ask_finality self ctx rec finality
  ]

  abbrev settled_on :
      ContextId → Finality → Option (Record Decimal) → Action Decimal (Inner Decimal) Settlement
  settled_on ctx finality none = deny self.now ctx settlement context_not_found (no_context ctx)
  settled_on ctx finality (some rec) = answered ctx finality rec rec.state

  record_settlement-settled_on :
      (token : Paid) (finality : Finality) (g : Inner Decimal)
      → record_settlement self token finality g
        ≡ settled_on token.ctx finality (get g.records token.ctx) g
  unfolding record_settlement settlement_replay
  record_settlement-settled_on token finality g = ground arith

  answered_again :
      (ctx : ContextId) (f h : Finality) (rec : Record Decimal) (s : PaymentState)
      (g : Inner Decimal)
      → is_decided s ≡ true
      → (answered ctx f rec s g ≡ answered ctx h rec s g) × ((answered ctx f rec s g).1 ≡ g)
  answered_again ctx f h rec settled g decided = elim (Result-cases (settled_from rec)) [
    | inl (t, e) ↦ rw e (refl, refl)
    | inr (failure, e) ↦ rw e (refl, refl)
  ]
  answered_again ctx f h rec delivered g decided = elim (Result-cases (settled_from rec)) [
    | inl (t, e) ↦ rw e (refl, refl)
    | inr (failure, e) ↦ rw e (refl, refl)
  ]
  answered_again ctx f h rec settlement_failed g decided = elim (Result-cases (failed_from rec)) [
    | inl (t, e) ↦ rw e (refl, refl)
    | inr (failure, e) ↦ rw e (refl, refl)
  ]
  answered_again ctx f h rec compensated g decided = elim (Result-cases (failed_from rec)) [
    | inl (t, e) ↦ rw e (refl, refl)
    | inr (failure, e) ↦ rw e (refl, refl)
  ]
  answered_again ctx f h rec s g decided = cc

  -- Once the settlement of a context is decided, `record_settlement` leaves the store as it was and
  -- does not ask the rail: its answer is the same for whatever finality evidence it is given.
  pub settlement_repeats :
      (token : Paid) (f h : Finality) (g : Inner Decimal) (rec : Record Decimal)
      → get g.records token.ctx ≡ some rec
      → is_decided rec.state ≡ true
      → (record_settlement self token f g ≡ record_settlement self token h g)
        × ((record_settlement self token f g).1 ≡ g)
  settlement_repeats token f h g rec found decided =
      let again = answered_again token.ctx f h rec rec.state g decided in
      let first =
        record_settlement-settled_on token f g ∙ ap (λ o. settled_on token.ctx f o g) found in
      let second =
        record_settlement-settled_on token h g ∙ ap (λ o. settled_on token.ctx h o g) found in
      (
        first ∙ (again.0 ∙ sym second),
        ap (λ (o : Result (LedgerError Decimal) Settlement × Inner Decimal). o.1) first ∙ again.1,
      )

  abbrev delivered_on :
      ContextId
      → DeliveryReceipt
      → Option (Record Decimal)
      → Action Decimal (Inner Decimal) Delivered
  delivered_on ctx receipt none = deny self.now ctx delivery context_not_found (no_context ctx)
  delivered_on ctx receipt (some rec) = deliver_in self ctx receipt rec rec.state

  record_delivery-delivered_on :
      (token : Settled) (receipt : DeliveryReceipt) (g : Inner Decimal)
      → record_delivery self token receipt g
        ≡ delivered_on token.ctx receipt (get g.records token.ctx) g
  unfolding record_delivery
  record_delivery-delivered_on token receipt g = ground arith

  deliver_in-state :
      (ctx : ContextId) (receipt : DeliveryReceipt) (rec : Record Decimal) (s : PaymentState)
      (g : Inner Decimal) {token : Delivered}
      → (deliver_in self ctx receipt rec s g).0 ≡ ok token
      → may_deliver s ≡ true
  deliver_in-state ctx receipt rec settled g h = refl
  deliver_in-state ctx receipt rec delivered g h = refl
  deliver_in-state ctx receipt rec s g h =
      absurd (deny-fails self.now ctx delivery invalid_state (context_is s) g h)

  delivered_on-state :
      (ctx : ContextId) (receipt : DeliveryReceipt) (o : Option (Record Decimal))
      (g : Inner Decimal) {token : Delivered}
      → (delivered_on ctx receipt o g).0 ≡ ok token
      → (rec : Record Decimal) × (o ≡ some rec) × (may_deliver rec.state ≡ true)
  delivered_on-state ctx receipt none g h =
      absurd (deny-fails self.now ctx delivery context_not_found (no_context ctx) g h)
  delivered_on-state ctx receipt (some rec) g h =
      (rec, refl, deliver_in-state ctx receipt rec rec.state g h)

  -- When `record_delivery` returns a token, the context has a record, and it was `Settled`, or
  -- `Delivered` already.
  pub delivery_needs_settlement :
      (token : Settled) (receipt : DeliveryReceipt) (g : Inner Decimal) {done : Delivered}
      → (record_delivery self token receipt g).0 ≡ ok done
      → (rec : Record Decimal) × (get g.records token.ctx ≡ some rec)
        × (may_deliver rec.state ≡ true)
  delivery_needs_settlement token receipt g h =
      delivered_on-state token.ctx receipt (get g.records token.ctx) g
        (rw (record_delivery-delivered_on token receipt g) at h)
