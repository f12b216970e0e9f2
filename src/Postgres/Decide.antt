-- ===== src/Postgres/Decide.antt =====
-- Phase 1 of `PostgresStore::append`: the reads and the decision (crates/ml-store-postgres/src/store.rs).
-- The decision is a function of the tables that are read; what is written on other tables, which other
-- transactions have committed since, is in Races.
use mandate_ledger.Prelude.{
  ℕ, not, ◌&&◌, Option, none, some, leb, length, keep, any, if◌then◌else◌, Result, ok, err, ◌>>=◌,
  map_err, ◌==◌, list_eq, nat_eq, pair_eq,
}
use mandate_ledger.Prelude.Int.{leb_ℤ}
use mandate_ledger.Prelude.Map.{get, get_or, insert}
use mandate_ledger.Text.{Text, codes}
use mandate_ledger.Text.Codec.{HexDecode}
use mandate_ledger.Hash.{Hash32}
use mandate_ledger.Time.{Timestamp, saturating_sub_secs}
use mandate_ledger.Ids.{ContextId, MandateId}
use mandate_ledger.Money.{DecimalOps, Money, money_zero, money_add, money_sub, cmp_same_currency}
use mandate_ledger.State.{
  PaymentState, authorized, paid, settled, settlement_failed, compensated, delivered, expired,
}
use mandate_ledger.Mandate.Scope.{Velocity, is_greater}
use mandate_ledger.Mandate.Body.{Mandate}
use mandate_ledger.Event.{
  EventBody, CartSnapshot, authorized_event, denied_event, paid_event, settled_event, failed_event,
  compensated_event, delivered_event, expired_event,
}
use mandate_ledger.Error.{StoreError, illegal_transition, corrupt, store_money}
use mandate_ledger.Store.Interface.{
  Record, AppendOutcome, budget_exceeded, velocity_exceeded, nonce_already_used, revoked,
  denials_capped, denial_cap,
}
use mandate_ledger.Store.Inner.{legal, state_of, u32_max}
use mandate_ledger.Postgres.Tables.{Tables, Sql}
use mandate_ledger.Postgres.Convert.{record_from_row, money_from_sql}

-- `struct Effects`
pub record PgEffects (Decimal : Type 0) : Type 0 where
  pub reserve : Option (MandateId × Money Decimal)
  pub release : Option (MandateId × Money Decimal)
  pub create : Option (MandateId × Hash32 × Text × Money Decimal)

-- `Effects::default`
abbrev pub default_effects : {Decimal : Type 0} → PgEffects Decimal
default_effects = record { reserve = none; release = none; create = none }

-- How phase 1 ends: an early return, or the effects and the tables with the nonce claimed.
pub data Decision (Decimal Json : Type 0) : Type 0 where
  refused : AppendOutcome Decimal → Decision Decimal Json
  decided : PgEffects Decimal → Tables Decimal Json → Decision Decimal Json

module _ {Decimal : Type 0} where
  -- `PostgresStore::check_transition`
  unfoldable pub guard_transition :
      Option (Record Decimal) → ContextId → PaymentState → Result StoreError (Unit {0})
  guard_transition existing ctx to =
      if legal existing to then ok tt else err (illegal_transition ctx (state_of existing) to)

module _ {Decimal : Type 0} ⦃ops : DecimalOps Decimal⦄ where
  -- The amount that still fits, where the cap refuses.
  unfoldable pub over_cap :
      Option (Money Decimal)
      → Money Decimal
      → Money Decimal
      → Result StoreError (Option (Money Decimal))
  over_cap none current next = ok none
  over_cap (some limit) current next = map_err store_money (cmp_same_currency next limit) >>= λ o.
      if is_greater o
      then (map_err store_money (money_sub limit current) >>= λ left. ok (some left))
      else ok none

module _ {Decimal Json : Type 0} where
  -- `read_record`
  unfoldable pub read_record :
      ⦃dec : HexDecode⦄
      → Tables Decimal Json
      → ContextId
      → Result StoreError (Option (Record Decimal))
  unfolding record_from_row
  read_record t ctx = elim (get t.contexts ctx) [
    | none ↦ ok none
    | some row ↦ record_from_row row >>= λ r. ok (some r)
  ]

  -- `read_reserved`
  unfoldable pub read_reserved :
      Tables Decimal Json → MandateId → Result StoreError (Option (Money Decimal))
  unfolding money_from_sql
  read_reserved t mandate = elim (get t.reservations mandate) [
    | none ↦ ok none
    | some row ↦ money_from_sql row.amount row.currency >>= λ m. ok (some m)
  ]

  -- The `count(*)` on `ml_authorizations`, with `u32::try_from(count).unwrap_or(u32::MAX)`.
  unfoldable pub recent_count : Tables Decimal Json → MandateId → Timestamp → ℕ
  recent_count t mandate since =
      let count =
        length (keep (λ a. a.mandate_id == mandate && leb_ℤ since a.at) t.authorizations) in
      if leb count u32_max then count else u32_max

  -- `Some(count)` where the velocity rule refuses.
  unfoldable pub velocity_over :
      Tables Decimal Json → MandateId → Timestamp → Option Velocity → Option ℕ
  unfolding recent_count
  velocity_over t mandate at none = none
  velocity_over t mandate at (some v) =
      let count = recent_count t mandate (saturating_sub_secs at v.window_secs) in
      if leb v.max_count count then some count else none

  -- The `count(*)` of the refusals of a context.
  unfoldable pub denied_count : ⦃sql : Sql Decimal Json⦄ → Tables Decimal Json → ContextId → ℕ
  denied_count ⦃sql⦄ t ctx =
      length (keep (λ e. e.ctx == ctx && sql.type_tag e.body == codes "denied") t.events)

  -- The claim of a nonce: the insertion, or the owner that is read on a conflict.
  unfoldable pub claim_nonce : Tables Decimal Json → Text × Text → ContextId → Decision Decimal Json
  claim_nonce t key ctx = elim (get t.nonces key) [
    | none ↦ decided default_effects (record t { nonces = insert t.nonces key ctx })
    | some owner ↦
        if not (owner == ctx) then refused nonce_already_used else decided default_effects t
  ]

  -- The release of `SettlementFailed` and `Expired`.
  unfoldable pub plan_release :
      Tables Decimal Json → Option (Record Decimal) → Result StoreError (Decision Decimal Json)
  plan_release t none = err (corrupt (codes "no record"))
  plan_release t (some r) =
      ok (decided (record default_effects { release = some (r.mandate_id, r.amount) }) t)

module _ {Decimal Json : Type 0} ⦃ops : DecimalOps Decimal⦄ where
  -- Phase 1 for `Authorized`.
  unfoldable pub decide_authorized :
      Tables Decimal Json
      → Option (Record Decimal)
      → ContextId
      → Timestamp
      → Mandate Decimal
      → CartSnapshot Decimal
      → Result StoreError (Decision Decimal Json)
  unfolding guard_transition velocity_over read_reserved over_cap
  decide_authorized t existing ctx at mandate cart =
      guard_transition existing ctx authorized >>= λ _.
      let scope = mandate.body.scope in
      let id = mandate.body.id in
      let amount = cart.claims.total in
      if any (λ m. m == id) t.revocations
      then ok (refused revoked)
      else elim (velocity_over t id at scope.velocity) [
        | some count ↦ ok (refused (velocity_exceeded count))
        | none ↦ read_reserved t id >>= λ reserved.
            let current = get_or (money_zero amount.currency) reserved in
            map_err store_money (money_add current amount) >>= λ next.
            over_cap scope.max_total current next >>= λ over. elim over [
              | some left ↦ ok (refused (budget_exceeded left))
              | none ↦ ok (
                  decided
                    (record {
                      reserve = some (id, next);
                      release = none;
                      create = some (id, cart.hash, cart.claims.merchant, amount);
                    })
                    t)
            ]
      ]

  -- Phase 1 of `append`.
  unfoldable pub decide :
      ⦃sql : Sql Decimal Json⦄
      → Tables Decimal Json
      → Option (Record Decimal)
      → ContextId
      → Timestamp
      → EventBody Decimal
      → Result StoreError (Decision Decimal Json)
  unfolding decide_authorized guard_transition claim_nonce plan_release denied_count
  decide t existing ctx at (authorized_event mandate cart key) =
      decide_authorized t existing ctx at mandate cart
  decide t existing ctx at (paid_event rail reference nonce amount key) =
      guard_transition existing ctx paid >>= λ _. ok (claim_nonce t (rail, nonce) ctx)
  decide t existing ctx at (settled_event rail reference) =
      guard_transition existing ctx settled >>= λ _. ok (decided default_effects t)
  decide t existing ctx at (failed_event rail reason) =
      guard_transition existing ctx settlement_failed >>= λ _. plan_release t existing
  decide t existing ctx at (compensated_event reference) =
      guard_transition existing ctx compensated >>= λ _. ok (decided default_effects t)
  decide t existing ctx at (delivered_event receipt) =
      guard_transition existing ctx delivered >>= λ _. ok (decided default_effects t)
  decide t existing ctx at expired_event =
      guard_transition existing ctx expired >>= λ _. plan_release t existing
  decide t existing ctx at (denied_event stage reason detail) =
      if leb denial_cap (denied_count t ctx)
      then ok (refused denials_capped)
      else ok (decided default_effects t)
