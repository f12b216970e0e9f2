-- ===== src/Store/Inner.antt =====
-- The state of the in-memory store and the parts of its `append` (crates/ml-core/src/store.rs).
use mandate_ledger.Prelude.{
  ℕ, ◌-◌, ◌^◌, Bool, true, false, not, Option, none, some, List, [], leb, min, if◌then◌else◌,
  length, keep, filter_map, get_elem?, Result, ok, err, ◌==◌, list_eq, nat_eq, pair_eq,
}
use mandate_ledger.Prelude.Int.{ℤ, leb_ℤ}
use mandate_ledger.Prelude.Map.{Map, get, get_or}
use mandate_ledger.Text.{Text, codes}
use mandate_ledger.Time.{Timestamp, saturating_sub_secs}
use mandate_ledger.Ids.{ContextId, MandateId}
use mandate_ledger.Money.{Money}
use mandate_ledger.State.{PaymentState, authorized, state_eq, can_transition_to}
use mandate_ledger.Mandate.Scope.{Velocity}
use mandate_ledger.Event.{Event, EventBody, CartSnapshot, denied_event}
use mandate_ledger.Error.{StoreError, illegal_transition, corrupt}
use mandate_ledger.Store.Interface.{Record, AppendOutcome}

-- `struct Inner`. `by_ctx` holds positions in `events`.
pub record Inner (Decimal : Type 0) : Type 0 where
  pub records : Map ContextId (Record Decimal)
  pub events : List (Event Decimal)
  pub by_ctx : Map ContextId (List ℕ)
  pub last_seq : ℕ
  pub reserved : Map MandateId (Money Decimal)
  pub auth_times : Map MandateId (List Timestamp)
  pub velocity_windows : Map MandateId ℤ
  pub nonces : Map (Text × Text) ContextId
  pub revoked_ids : List MandateId

-- What phase 1 of `append` has decided to do in phase 2.
pub record Effects (Decimal : Type 0) : Type 0 where
  pub new_record : Option (Record Decimal)
  pub reserve : Option (MandateId × Money Decimal)
  pub window : Option ℤ
  pub release : Option (MandateId × Money Decimal)
  pub consume_nonce : Option (Text × Text)

pub data Verdict (Decimal : Type 0) : Type 0 where
  refuse : AppendOutcome Decimal → Verdict Decimal
  proceed : Effects Decimal → Verdict Decimal

abbrev pub no_effects : {Decimal : Type 0} → Effects Decimal
no_effects = record {
  new_record = none;
  reserve = none;
  window = none;
  release = none;
  consume_nonce = none;
}

abbrev pub is_denied : {Decimal : Type 0} → EventBody Decimal → Bool
is_denied (denied_event s r d) = true
is_denied _ = false

abbrev pub u32_max : ℕ
u32_max = 2 ^ 32 - 1

abbrev pub window_of : Option Velocity → Option ℤ
window_of none = none
window_of (some v) = some v.window_secs

abbrev pub nonce_taken : Option ContextId → ContextId → Bool
nonce_taken none ctx = false
nonce_taken (some owner) ctx = not (owner == ctx)

module _ {Decimal : Type 0} where
  abbrev pub index_of : Inner Decimal → ContextId → List ℕ
  index_of g ctx = get_or [] (get g.by_ctx ctx)

  -- `idx.iter().map(|&i| g.events[i])`. The source panics on an index out of range; the invariant
  -- of the index excludes that.
  unfoldable pub events_of : Inner Decimal → ContextId → List (Event Decimal)
  events_of g ctx = filter_map (get_elem? g.events) (index_of g ctx)

  abbrev pub legal : Option (Record Decimal) → PaymentState → Bool
  legal none to = to == authorized
  legal (some r) to = can_transition_to r.state to

  abbrev pub state_of : Option (Record Decimal) → Option PaymentState
  state_of none = none
  state_of (some r) = some r.state

  -- `Inner::check_transition`
  unfoldable pub check_transition :
      Inner Decimal → ContextId → PaymentState → Result StoreError (Option (Record Decimal))
  check_transition g ctx to =
      let existing = get g.records ctx in
      if legal existing to then ok existing else err (illegal_transition ctx (state_of existing) to)

  -- How many authorizations the window of a velocity rule counts.
  unfoldable pub window_count : Inner Decimal → MandateId → Timestamp → ℕ
  window_count g mandate since =
      min (length (keep (λ t. leb_ℤ since t) (get_or [] (get g.auth_times mandate)))) u32_max

  -- The velocity check of an `Authorized`: the count, if it is refused.
  unfoldable pub velocity_refusal :
      Inner Decimal → MandateId → Timestamp → Option Velocity → Option ℕ
  unfolding window_count
  velocity_refusal g mandate at none = none
  velocity_refusal g mandate at (some v) =
      let count = window_count g mandate (saturating_sub_secs at v.window_secs) in
      if leb v.max_count count then some count else none

  abbrev pub authorized_record : ContextId → MandateId → CartSnapshot Decimal → Record Decimal
  authorized_record ctx mandate cart = record {
    ctx = ctx;
    state = authorized;
    mandate_id = mandate;
    cart_hash = cart.hash;
    merchant = cart.claims.merchant;
    amount = cart.claims.total;
    rail = none;
    payment_reference = none;
    idempotency_key = none;
    settlement_reference = none;
    failure_reason = none;
    receipt_reference = none;
  }

  -- How many refusals the context's chain holds.
  unfoldable pub denial_count : Inner Decimal → ContextId → ℕ
  unfolding events_of
  denial_count g ctx = length (keep (λ e. is_denied e.body) (events_of g ctx))

  -- `release = Some(..)` after the transition check of `SettlementFailed` and `Expired`.
  abbrev pub release_of : Option (Record Decimal) → Result StoreError (Verdict Decimal)
  release_of none = err (corrupt (codes "no record"))
  release_of (some r) = ok (proceed (record no_effects { release = some (r.mandate_id, r.amount) }))
