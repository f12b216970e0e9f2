-- ===== src/Postgres/Agreement.antt =====
-- When the tables and the in-memory store hold the same, and that both then decide alike.
use mandate_ledger.Prelude.{
  ◌≡◌, refl, true, Option, none, some, any, all, Result, ok, err, ◌>>=◌, ◌==◌, list_eq, nat_eq,
  pair_eq, Result-cases, inl, inr, arith,
}
use mandate_ledger.Prelude.Int.{pos, leb_ℤ}
use mandate_ledger.Prelude.Int.{ℤ}
use mandate_ledger.Prelude.Map.{get}
use mandate_ledger.Text.{Text}
use mandate_ledger.Text.Codec.{HexDecode}
use mandate_ledger.Time.{Timestamp}
use mandate_ledger.Ids.{ContextId, MandateId}
use mandate_ledger.Hash.{Hash32}
use mandate_ledger.Money.{DecimalOps, Money, money_add}
use mandate_ledger.State.{authorized}
use mandate_ledger.Mandate.Scope.{Velocity}
use mandate_ledger.Mandate.Body.{Mandate}
use mandate_ledger.Event.{
  EventBody, CartSnapshot, authorized_event, denied_event, paid_event, settled_event, failed_event,
  compensated_event, delivered_event, expired_event,
}
use mandate_ledger.Error.{StoreError}
use mandate_ledger.Store.Interface.{Record}
use mandate_ledger.Store.Inner.{
  Inner, Effects, Verdict, refuse, proceed, window_of, window_count, denial_count, events_of,
  check_transition, velocity_refusal,
}
use mandate_ledger.Store.Validate.{check_authorized, check_body, budget_refusal, current_reserved}
use mandate_ledger.Store.Commit.{last_hash}
use mandate_ledger.Store.Chain.{IsIndexed}
use mandate_ledger.Postgres.Tables.{Tables, Sql}
use mandate_ledger.Postgres.Decide.{
  PgEffects, Decision, refused, decided, read_record, read_reserved, guard_transition, recent_count,
  velocity_over, denied_count, claim_nonce, plan_release, over_cap, decide_authorized, decide,
}
use mandate_ledger.Postgres.Write.{previous_hash}

-- The tables and the in-memory store answer alike to every question that `append` asks.
pub record Agrees {Decimal Json : Type 0} ⦃sql : Sql Decimal Json⦄ ⦃dec : HexDecode⦄
    (t : Tables Decimal Json) (g : Inner Decimal) : Type 0 where
  pub seq : t.event_seq ≡ g.last_seq
  pub records : (c : ContextId) → read_record t c ≡ ok (get g.records c)
  pub reserved : (m : MandateId) → read_reserved t m ≡ ok (get g.reserved m)
  pub counts : (m : MandateId) (since : Timestamp) → recent_count t m since ≡ window_count g m since
  pub nonces : (k : Text × Text) → get t.nonces k ≡ get g.nonces k
  pub revoked : (m : MandateId) → any (λ x. x == m) t.revocations ≡ any (λ x. x == m) g.revoked_ids
  pub denials : (c : ContextId) → denied_count t c ≡ denial_count g c
  pub hashes : (c : ContextId) → previous_hash t c ≡ ok (last_hash (events_of g c))
  pub numbered : all (λ r. leb_ℤ r.seq (pos t.event_seq)) t.events ≡ true
  pub indexed : IsIndexed g

module _ {Decimal : Type 0} where
  -- The record that a row of `ml_contexts` is created for.
  abbrev pub record_for : ContextId → MandateId × Hash32 × Text × Money Decimal → Record Decimal
  record_for ctx (mandate, cart_hash, merchant, amount) = record {
    ctx = ctx;
    state = authorized;
    mandate_id = mandate;
    cart_hash = cart_hash;
    merchant = merchant;
    amount = amount;
    rail = none;
    payment_reference = none;
    idempotency_key = none;
    settlement_reference = none;
    failure_reason = none;
    receipt_reference = none;
  }

  abbrev pub created_record :
      ContextId → Option (MandateId × Hash32 × Text × Money Decimal) → Option (Record Decimal)
  created_record ctx none = none
  created_record ctx (some values) = some (record_for ctx values)

  -- The velocity window that a body brings, and the nonce that it claims.
  abbrev pub window_in : EventBody Decimal → Option ℤ
  window_in (authorized_event mandate cart key) = window_of mandate.body.scope.velocity
  window_in _ = none

  abbrev pub nonce_in : EventBody Decimal → Option (Text × Text)
  nonce_in (paid_event rail reference nonce amount key) = some (rail, nonce)
  nonce_in _ = none

  -- What the in-memory store does where the other one has these effects.
  abbrev pub effects_in : ContextId → EventBody Decimal → PgEffects Decimal → Effects Decimal
  effects_in ctx body fx = record {
    new_record = created_record ctx fx.create;
    reserve = fx.reserve;
    window = window_in body;
    release = fx.release;
    consume_nonce = nonce_in body;
  }

module _ {Decimal Json : Type 0} where
  abbrev pub verdict_in : ContextId → EventBody Decimal → Decision Decimal Json → Verdict Decimal
  verdict_in ctx body (refused outcome) = refuse outcome
  verdict_in ctx body (decided fx claimed) = proceed (effects_in ctx body fx)

  abbrev pub verdicts_in :
      ContextId
      → EventBody Decimal
      → Result StoreError (Decision Decimal Json)
      → Result StoreError (Verdict Decimal)
  verdicts_in ctx body (ok d) = ok (verdict_in ctx body d)
  verdicts_in ctx body (err e) = err e

module _ {Decimal : Type 0} ⦃ops : DecimalOps Decimal⦄ where
  over_cap-budget_refusal :
      (cap : Option (Money Decimal)) (current next : Money Decimal)
      → over_cap cap current next ≡ budget_refusal cap current next
  unfolding over_cap budget_refusal
  over_cap-budget_refusal none current next = refl
  over_cap-budget_refusal (some limit) current next = refl

module _ {Decimal Json : Type 0} ⦃sql : Sql Decimal Json⦄ ⦃dec : HexDecode⦄
    {t : Tables Decimal Json} {g : Inner Decimal} (a : Agrees t g) where
  velocity_over-velocity_refusal :
      (m : MandateId) (at : Timestamp) (v : Option Velocity)
      → velocity_over t m at v ≡ velocity_refusal g m at v
  unfolding velocity_over velocity_refusal
  velocity_over-velocity_refusal m at none = refl
  velocity_over-velocity_refusal m at (some v) = rw (a.counts m) refl

  module _ ⦃ops : DecimalOps Decimal⦄ where
    decide_authorized-agrees :
        (ctx : ContextId) (at : Timestamp) (mandate : Mandate Decimal) (cart : CartSnapshot Decimal)
        (key : Text)
        → verdicts_in ctx
            (authorized_event mandate cart key)
            (decide_authorized t (get g.records ctx) ctx at mandate cart)
          ≡ check_authorized g ctx at mandate cart
    unfolding decide_authorized check_authorized check_transition guard_transition
    decide_authorized-agrees ctx at mandate cart key =
        let id = mandate.body.id in
        let total = cart.claims.total in
        let current = current_reserved g id total in
        elim (Result-cases (money_add current total)) [
          | inl (next, h) ↦ ground (
            arith,
            a.revoked id,
            a.reserved id,
            h,
            velocity_over-velocity_refusal id at mandate.body.scope.velocity,
            over_cap-budget_refusal mandate.body.scope.max_total current next,
          )
          | inr (failure, h) ↦ ground (
            arith,
            a.revoked id,
            a.reserved id,
            h,
            velocity_over-velocity_refusal id at mandate.body.scope.velocity,
          )
        ]

    -- Phase 1 of the two stores: from agreeing states the Postgres store decides what the in-memory
    -- store decides: the same error, the same refusal, or the same effects.
    pub decide-agrees :
        (ctx : ContextId) (at : Timestamp) (body : EventBody Decimal)
        → verdicts_in ctx body (read_record t ctx >>= λ existing. decide t existing ctx at body)
          ≡ check_body g ctx at body
    unfolding decide check_body check_transition guard_transition claim_nonce plan_release
    decide-agrees ctx at (authorized_event mandate cart key) =
        rw (a.records ctx) (decide_authorized-agrees ctx at mandate cart key)
    decide-agrees ctx at (paid_event rail reference nonce amount key) =
        rw (a.records ctx) (ground (arith, a.nonces (rail, nonce)))
    decide-agrees ctx at (settled_event rail reference) = rw (a.records ctx) (ground arith)
    decide-agrees ctx at (failed_event rail reason) = rw (a.records ctx) (ground arith)
    decide-agrees ctx at (compensated_event reference) = rw (a.records ctx) (ground arith)
    decide-agrees ctx at (delivered_event receipt) = rw (a.records ctx) (ground arith)
    decide-agrees ctx at expired_event = rw (a.records ctx) (ground arith)
    decide-agrees ctx at (denied_event stage reason detail) =
        rw (a.records ctx) (ground (arith, a.denials ctx))
