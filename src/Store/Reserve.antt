-- ===== src/Store/Reserve.antt =====
-- How an append moves the reservation of a mandate.
use mandate_ledger.Prelude.{
  ◌≡◌, Bool, true, false, arith, Option, none, some, inl, inr, ok, Result-cases, list_eq, nat_eq,
}
use mandate_ledger.Prelude.Map.{get}
use mandate_ledger.Text.{Text}
use mandate_ledger.Hash.{Sha256, CanonicalJson}
use mandate_ledger.Time.{Timestamp}
use mandate_ledger.Ids.{ContextId, MandateId}
use mandate_ledger.Money.{DecimalOps, Money, money_add}
use mandate_ledger.Mandate.Body.{Mandate}
use mandate_ledger.Event.{
  EventBody, Event, Preimage, CartSnapshot, authorized_event, failed_event, expired_event,
}
use mandate_ledger.Store.Interface.{Record}
use mandate_ledger.Store.Inner.{Inner, Effects, proceed, velocity_refusal}
use mandate_ledger.Store.Validate.{check_body, current_reserved, budget_refusal}
use mandate_ledger.Store.Commit.{append, apply_nonce, apply_new_record, apply_update, push_event}
use mandate_ledger.Store.Append.{Committed, committed}

module _ {Decimal : Type 0} where
  -- A body other than `Authorized` reserves nothing, and releases what its record holds, if anything.
  abbrev pub released_by :
      EventBody Decimal → Option (Record Decimal) → Option (MandateId × Money Decimal)
  released_by (failed_event rail reason) (some r) = some (r.mandate_id, r.amount)
  released_by expired_event (some r) = some (r.mandate_id, r.amount)
  released_by _ _ = none

  abbrev pub is_authorized_event : EventBody Decimal → Bool
  is_authorized_event (authorized_event m c k) = true
  is_authorized_event _ = false

module _ {Decimal : Type 0} ⦃ops : DecimalOps Decimal⦄ where
  -- What phase 1 has found out about an `Authorized` that it lets through.
  pub record Reserved (g : Inner Decimal) (at : Timestamp) (mandate : Mandate Decimal)
      (cart : CartSnapshot Decimal) (fx : Effects Decimal) : Type 0 where
    pub next : Money Decimal
    pub added :
        money_add (current_reserved g mandate.body.id cart.claims.total) cart.claims.total ≡ ok next
    pub within :
        budget_refusal mandate.body.scope.max_total
          (current_reserved g mandate.body.id cart.claims.total)
          next
        ≡ ok none
    pub reserves : fx.reserve ≡ some (mandate.body.id, next)
    pub releases : fx.release ≡ none
    pub timely : velocity_refusal g mandate.body.id at mandate.body.scope.velocity ≡ none

  pub check-Reserved :
      (g : Inner Decimal) (ctx : ContextId) (at : Timestamp) (mandate : Mandate Decimal)
      (cart : CartSnapshot Decimal) (key : Text) (fx : Effects Decimal)
      → check_body g ctx at (authorized_event mandate cart key) ≡ ok (proceed fx)
      → Reserved g at mandate cart fx
  unfolding check_body
  check-Reserved g ctx at mandate cart key fx h =
      elim (Result-cases
        (money_add (current_reserved g mandate.body.id cart.claims.total) cart.claims.total)) [
          | inl (next, e) ↦ record {
            next = next;
            added = e;
            within = ground arith;
            reserves = ground arith;
            releases = ground arith;
            timely = ground arith;
          }
          | inr (failure, e) ↦ absurd (ground arith)
        ]

  pub check-releases :
      (g : Inner Decimal) (ctx : ContextId) (at : Timestamp) (body : EventBody Decimal)
      (fx : Effects Decimal)
      → is_authorized_event body ≡ false
      → check_body g ctx at body ≡ ok (proceed fx)
      → (fx.reserve ≡ none) × (fx.release ≡ released_by body (get g.records ctx))
  unfolding check_body
  check-releases g ctx at (authorized_event m c k) fx n h = cc
  check-releases g ctx at body fx n h = ground arith

module _ {Decimal : Type 0} ⦃ops : DecimalOps Decimal⦄ ⦃sha : Sha256⦄
    ⦃json : CanonicalJson (Preimage Decimal)⦄ {ctx : ContextId} {at : Timestamp}
    {body : EventBody Decimal} {g : Inner Decimal} (c : Committed ctx at body g) where
  reserved-committed :
      (k : Inner Decimal) (fx : Effects Decimal) (e : Event Decimal)
      → (committed k ctx fx e).reserved ≡ k.reserved
  unfolding apply_nonce apply_new_record apply_update push_event
  reserved-committed k fx e = ground arith

  pub reserved-append : (append ctx at body g).1.reserved ≡ c.released.reserved
  reserved-append = rw c.result (reserved-committed c.released c.fx c.event)
