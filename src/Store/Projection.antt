-- ===== src/Store/Projection.antt =====
-- The record of a context is the fold of its chain: what each event does to it.
use mandate_ledger.Prelude.{
  ◌≡◌, refl, true, List, [], ◌∷◌, ◌++◌, arith, Option, none, some, inl, inr, ok, if◌then◌else◌,
  Option-cases, ◌==◌, ==_eq, eq_==, list_eq, nat_eq, ◌∙◌, ap,
}
use mandate_ledger.Prelude.Map.{get, get-insert}
use mandate_ledger.Text.{Text}
use mandate_ledger.Hash.{Sha256, CanonicalJson}
use mandate_ledger.Time.{Timestamp}
use mandate_ledger.Ids.{ContextId, MandateId}
use mandate_ledger.Money.{DecimalOps, Money}
use mandate_ledger.State.{PaymentState, authorized, can_transition_to}
use mandate_ledger.Event.{Event, EventBody, Preimage, authorized_event, resulting_state}
use mandate_ledger.Store.Interface.{Record}
use mandate_ledger.Store.Inner.{Inner, Effects, proceed, authorized_record, state_of}
use mandate_ledger.Store.Validate.{check_body}
use mandate_ledger.Store.Commit.{
  append, apply_reserve, apply_release, release_reservation, apply_nonce, apply_new_record,
  apply_update, push_event, update_record,
}
use mandate_ledger.Store.Append.{Committed, committed}
use mandate_ledger.Store.Log.{body-made}

-- What the state machine lets through.
abbrev pub Permitted : Option PaymentState → Option PaymentState → Type 0
Permitted from none = Unit
Permitted none (some to) = to ≡ authorized
Permitted (some from) (some to) = can_transition_to from to ≡ true

module _ {Decimal : Type 0} where
  abbrev pub updated : EventBody Decimal → Option (Record Decimal) → Option (Record Decimal)
  updated body none = none
  updated body (some r) = some (update_record body r)

  -- What an event does to the record of its context.
  abbrev pub step_record :
      ContextId → Option (Record Decimal) → EventBody Decimal → Option (Record Decimal)
  step_record ctx r (authorized_event mandate cart key) =
      some (authorized_record ctx mandate.body.id cart)
  step_record ctx r body = updated body r

  -- The record that a chain amounts to.
  abbrev pub project :
      ContextId → Option (Record Decimal) → List (Event Decimal) → Option (Record Decimal)
  project ctx r [] = r
  project ctx r (e ∷ es) = project ctx (step_record ctx r e.body) es

  pub project-snoc :
      (ctx : ContextId) (r : Option (Record Decimal)) (es : List (Event Decimal))
      (e : Event Decimal)
      → project ctx r (es ++ e ∷ []) ≡ step_record ctx (project ctx r es) e.body
  project-snoc ctx r [] e = refl
  project-snoc ctx r (x ∷ es) e = project-snoc ctx (step_record ctx r x.body) es e

  abbrev pub chosen : Option (Record Decimal) → Option (Record Decimal) → Option (Record Decimal)
  chosen none old = old
  chosen (some r) old = some r

  nonce_keeps :
      (g : Inner Decimal) (ctx : ContextId) (k : Option (Text × Text))
      → (apply_nonce g ctx k).records ≡ g.records
  unfolding apply_nonce
  nonce_keeps g ctx k = ground arith

  get_same :
      (g : Inner Decimal) (ctx d : ContextId)
      → (ctx == d) ≡ true
      → get g.records ctx ≡ get g.records d
  get_same g ctx d h = rw (==_eq ctx d h)

  records-new :
      (g : Inner Decimal) (ctx : ContextId) (r : Option (Record Decimal)) (d : ContextId)
      → get (apply_new_record g ctx r).records d
        ≡ (if ctx == d then chosen r (get g.records ctx) else get g.records d)
  unfolding apply_new_record
  records-new g ctx none d = ground (arith, get_same g ctx d)
  records-new g ctx (some r) d = get-insert g.records ctx d r

  records-update :
      (g : Inner Decimal) (ctx : ContextId) (body : EventBody Decimal) (d : ContextId)
      → get (apply_update g ctx body).records d
        ≡ (if ctx == d then updated body (get g.records ctx) else get g.records d)
  unfolding apply_update
  records-update g ctx body d = elim (Option-cases (get g.records ctx)) [
    | inl missing ↦ ground (arith, get_same g ctx d)
    | inr (r, found) ↦ ground (arith, get-insert g.records ctx d (update_record body r))
  ]

  -- The records after phase 2.
  records-committed :
      (g : Inner Decimal) (ctx : ContextId) (fx : Effects Decimal) (e : Event Decimal)
      (d : ContextId)
      → get (committed g ctx fx e).records d ≡ (
          if ctx == d
          then updated e.body (chosen fx.new_record (get g.records ctx))
          else get g.records d)
  unfolding push_event
  records-committed g ctx fx e d =
      let kept = apply_nonce g ctx fx.consume_nonce in
      let same : kept.records ≡ g.records = nonce_keeps g ctx fx.consume_nonce in
      ground (
        arith,
        records-update (apply_new_record kept ctx fx.new_record) ctx e.body d,
        records-new kept ctx fx.new_record ctx,
        records-new kept ctx fx.new_record d,
        ap (λ m. get m ctx) same,
        ap (λ m. get m d) same,
        eq_== ctx ctx refl,
      )

  records-reserve :
      (g : Inner Decimal) (at : Timestamp) (fx : Effects Decimal)
      → (apply_reserve g at fx.window fx.reserve).records ≡ g.records
  unfolding apply_reserve
  records-reserve g at fx = ground arith

module _ {Decimal : Type 0} ⦃ops : DecimalOps Decimal⦄ where
  records-release :
      (g : Inner Decimal) (r : Option (MandateId × Money Decimal)) (g' : Inner Decimal)
      → apply_release g r ≡ ok g'
      → g'.records ≡ g.records
  unfolding apply_release release_reservation
  records-release g r g' h = ground arith

  -- Phase 1 picks the new record that the event stands for, and lets no event through that the
  -- state machine forbids.
  pub chosen-step :
      (g : Inner Decimal) (ctx : ContextId) (at : Timestamp) (body : EventBody Decimal)
      (fx : Effects Decimal)
      → check_body g ctx at body ≡ ok (proceed fx)
      → updated body (chosen fx.new_record (get g.records ctx))
        ≡ step_record ctx (get g.records ctx) body
  unfolding check_body update_record
  chosen-step g ctx at (authorized_event m c k) fx h = ground arith
  chosen-step g ctx at body fx h = ground arith

  pub check_body-Permitted :
      (g : Inner Decimal) (ctx : ContextId) (at : Timestamp) (body : EventBody Decimal)
      (fx : Effects Decimal)
      → check_body g ctx at body ≡ ok (proceed fx)
      → Permitted (state_of (get g.records ctx)) (resulting_state body)
  unfolding check_body resulting_state
  check_body-Permitted g ctx at (authorized_event m c k) fx h = ground arith
  check_body-Permitted g ctx at body fx h = ground arith

module _ {Decimal : Type 0} ⦃ops : DecimalOps Decimal⦄ ⦃sha : Sha256⦄
    ⦃json : CanonicalJson (Preimage Decimal)⦄ {ctx : ContextId} {at : Timestamp}
    {body : EventBody Decimal} {g : Inner Decimal} (c : Committed ctx at body g) where
  pub records-released : c.released.records ≡ g.records
  records-released =
      records-release (apply_reserve g at c.fx.window c.fx.reserve) c.fx.release c.released c.freed
      ∙ records-reserve g at c.fx

  -- An append steps the record of its context and no other.
  pub records-append :
      (d : ContextId)
      → get (append ctx at body g).1.records d
        ≡ (if ctx == d then step_record ctx (get g.records ctx) body else get g.records d)
  records-append d = rw c.result (
      records-committed c.released ctx c.fx c.event d
      ∙ rw (records-released, body-made c) (rw (chosen-step g ctx at body c.fx c.checked)))

  pub append-Permitted : Permitted (state_of (get g.records ctx)) (resulting_state body)
  append-Permitted = check_body-Permitted g ctx at body c.fx c.checked
