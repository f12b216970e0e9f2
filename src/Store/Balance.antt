-- ===== src/Store/Balance.antt =====
-- What the live records of a mandate add up to.
use mandate_ledger.Prelude.{
  ◌≡◌, refl, Bool, true, false, ◌&&◌, [], ◌∷◌, arith, Option, none, some, inl, inr, if◌then◌else◌,
  Bool-cases, Option-cases, ◌==◌, ==_refl, list_eq, nat_eq, ap, sym, ◌∙◌,
}
use mandate_ledger.Prelude.Int.{ℤ, pos, ◌+ℤ◌, +ℤ_zero, +ℤ_assoc, +ℤ_exchange}
use mandate_ledger.Prelude.Map.{Map, get, insert, insert-insert, get-insert}
use mandate_ledger.Text.{Text}
use mandate_ledger.Ids.{ContextId, MandateId}
use mandate_ledger.Money.{DecimalOps, DecimalLaws, Money}
use mandate_ledger.State.{PaymentState, settlement_failed, compensated, expired, can_transition_to}
use mandate_ledger.Event.{
  Event, EventBody, authorized_event, failed_event, expired_event, resulting_state,
}
use mandate_ledger.Store.Interface.{Record}
use mandate_ledger.Store.Inner.{Inner, Effects, state_of}
use mandate_ledger.Store.Commit.{
  apply_nonce, apply_new_record, apply_update, push_event, update_record,
}
use mandate_ledger.Store.Append.{committed}
use mandate_ledger.Store.Projection.{Permitted, updated, chosen, step_record}
use mandate_ledger.Store.Reserve.{released_by, is_authorized_event}

-- The states of a payment that holds its budget: it has neither failed nor expired.
abbrev pub is_live : PaymentState → Bool
is_live settlement_failed = false
is_live compensated = false
is_live expired = false
is_live _ = true

module _ {Decimal : Type 0} where
  abbrev pub stored :
      Map ContextId (Record Decimal)
      → ContextId
      → Option (Record Decimal)
      → Map ContextId (Record Decimal)
  stored rs ctx none = rs
  stored rs ctx (some r) = insert rs ctx r

  nonce_records :
      (k : Inner Decimal) (ctx : ContextId) (n : Option (Text × Text))
      → (apply_nonce k ctx n).records ≡ k.records
  unfolding apply_nonce
  nonce_records k ctx n = ground arith

  new_record_records :
      (k : Inner Decimal) (ctx : ContextId) (r : Option (Record Decimal))
      → (apply_new_record k ctx r).records ≡ stored k.records ctx r
  unfolding apply_new_record
  new_record_records k ctx none = refl
  new_record_records k ctx (some r) = refl

  update_records :
      (k : Inner Decimal) (ctx : ContextId) (body : EventBody Decimal)
      → (apply_update k ctx body).records ≡ stored k.records ctx (updated body (get k.records ctx))
  unfolding apply_update
  update_records k ctx body = elim (Option-cases (get k.records ctx)) [
    | inl missing ↦ ground arith
    | inr (r, found) ↦ ground arith
  ]

  stored_twice :
      (rs : Map ContextId (Record Decimal)) (ctx : ContextId) (body : EventBody Decimal)
      (r : Option (Record Decimal))
      → stored (stored rs ctx r) ctx (updated body (get (stored rs ctx r) ctx))
        ≡ stored rs ctx (updated body (chosen r (get rs ctx)))
  stored_twice rs ctx body none = refl
  stored_twice rs ctx body (some r) =
      rw (get-insert rs ctx ctx r, ==_refl ctx) (insert-insert rs ctx r (update_record body r))

  pub records-stored :
      (k : Inner Decimal) (ctx : ContextId) (fx : Effects Decimal) (e : Event Decimal)
      → (committed k ctx fx e).records
        ≡ stored k.records ctx (updated e.body (chosen fx.new_record (get k.records ctx)))
  unfolding push_event
  records-stored k ctx fx e =
      update_records (apply_new_record (apply_nonce k ctx fx.consume_nonce) ctx fx.new_record) ctx
        e.body
      ∙ (rw
          (
            new_record_records (apply_nonce k ctx fx.consume_nonce) ctx fx.new_record,
            nonce_records k ctx fx.consume_nonce,
          )
          (stored_twice k.records ctx e.body fx.new_record))

module _ {Decimal : Type 0} ⦃ops : DecimalOps Decimal⦄ (laws : DecimalLaws Decimal) where
  -- What a record holds of the budget of a mandate.
  abbrev pub held : MandateId → Record Decimal → ℤ
  held m r = if r.mandate_id == m && is_live r.state then laws.value r.amount.amount else pos 0

  abbrev pub held_by : MandateId → Option (Record Decimal) → ℤ
  held_by m none = pos 0
  held_by m (some r) = held m r

  -- What the live records of the mandate add up to.
  abbrev pub live_total : MandateId → Map ContextId (Record Decimal) → ℤ
  live_total m [] = pos 0
  live_total m ((k, r) ∷ rs) = held m r +ℤ live_total m rs

  -- A write changes the total by what it changes in its record.
  live_total-insert :
      (m : MandateId) (rs : Map ContextId (Record Decimal)) (k : ContextId) (r : Record Decimal)
      → live_total m (insert rs k r) +ℤ held_by m (get rs k) ≡ live_total m rs +ℤ held m r
  unfolding get insert
  live_total-insert m [] k r =
      +ℤ_exchange (held m r) (pos 0) (pos 0) ∙ ap (λ x. x +ℤ held m r) (+ℤ_zero (pos 0))
  live_total-insert m ((j, w) ∷ rs) k r = elim (Bool-cases (j == k)) [
    | inl same ↦ rw same (+ℤ_exchange (held m r) (live_total m rs) (held m w))
    | inr other ↦ rw other (
        +ℤ_assoc (held m w) (live_total m (insert rs k r)) (held_by m (get rs k))
        ∙ (ap (λ x. held m w +ℤ x) (live_total-insert m rs k r)
            ∙ sym (+ℤ_assoc (held m w) (live_total m rs) (held m r))))
  ]

  pub live_total-stored :
      (m : MandateId) (rs : Map ContextId (Record Decimal)) (k : ContextId)
      (r : Option (Record Decimal))
      → (r ≡ none → get rs k ≡ none)
      → live_total m (stored rs k r) +ℤ held_by m (get rs k) ≡ live_total m rs +ℤ held_by m r
  live_total-stored m rs k none missing = rw (missing refl)
  live_total-stored m rs k (some r) missing = live_total-insert m rs k r

  -- Only an `Authorized`, a failure and an expiry change what the record holds.
  pub held-kept :
      (m : MandateId) (ctx : ContextId) (rec : Option (Record Decimal)) (body : EventBody Decimal)
      → is_authorized_event body ≡ false
      → released_by body rec ≡ none
      → Permitted (state_of rec) (resulting_state body)
      → held_by m (step_record ctx rec body) ≡ held_by m rec
  unfolding update_record resulting_state can_transition_to
  held-kept m ctx rec (authorized_event mm c k) n h p = cc
  held-kept m ctx rec body n h p = ground arith

  pub held-released :
      (m : MandateId) (ctx : ContextId) (r : Record Decimal) (body : EventBody Decimal)
      (id : MandateId) (amount : Money Decimal)
      → released_by body (some r) ≡ some (id, amount)
      → Permitted (some r.state) (resulting_state body)
      → (held m r ≡ (if id == m then laws.value amount.amount else pos 0))
        × (held_by m (step_record ctx (some r) body) ≡ pos 0)
  unfolding update_record resulting_state can_transition_to
  held-released m ctx r (failed_event rail reason) id amount h p = ground arith
  held-released m ctx r expired_event id amount h p = ground arith
  held-released m ctx r body id amount h p = cc
