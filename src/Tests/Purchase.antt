-- ===== src/Tests/Purchase.antt =====
-- The store after each step of one purchase, from the authorization to the delivery.
use mandate_ledger.Prelude.{
  ℕ, ◌+◌, ◌<◌, ◌^◌, ◌≡◌, refl, [], ◌∷◌, arith, none, some, Result, ok, subst,
}
use mandate_ledger.Prelude.Int.{ℤ, pos, ◌+ℤ◌}
use mandate_ledger.Prelude.Map.{get, insert}
use mandate_ledger.Ids.{ContextId}
use mandate_ledger.State.{authorized, paid, settled, delivered, can_transition_to}
use mandate_ledger.Time.{saturating_sub, saturating_sub_secs}
use mandate_ledger.Hash.{zero_hash, chain}
use mandate_ledger.Money.{money_add, cmp_same_currency, ensure_same_currency}
use mandate_ledger.Event.{
  Event, EventBody, CartSnapshot, authorized_event, paid_event, settled_event, delivered_event,
  new_event, compute_hash,
}
use mandate_ledger.Store.Interface.{Record, AppendOutcome, appended}
use mandate_ledger.Store.Inner.{Inner, events_of, velocity_refusal}
use mandate_ledger.Store.Validate.{check_body, budget_refusal}
use mandate_ledger.Store.Commit.{
  append, last_hash, apply_reserve, update_record, commit, next_event,
}
use mandate_ledger.Store.Memory.{empty_store}
use mandate_ledger.Store.Reach.{Reach, here, next, append_step}
use mandate_ledger.Tests.Sample.{cents, sum_digest, preimage_json, mandate, claims, usd, receipt}
use mandate_ledger.Cart.{unsigned}
use mandate_ledger.Error.{StoreError}

abbrev pub shop : ContextId
shop = 4 ∷ []

abbrev pub basket : CartSnapshot ℤ
basket = record { hash = 3 ∷ []; claims = claims; attestation = unsigned; raw = [] }

abbrev pub body_1 : EventBody ℤ
body_1 = authorized_event mandate basket (2 ∷ [])

abbrev pub body_2 : EventBody ℤ
body_2 = paid_event (8 ∷ []) (11 ∷ []) (12 ∷ []) (usd 40) (17 ∷ [])

abbrev pub body_3 : EventBody ℤ
body_3 = settled_event (8 ∷ []) (13 ∷ [])

abbrev pub body_4 : EventBody ℤ
body_4 = delivered_event receipt

abbrev logged : ℕ → ℕ → ℕ → EventBody ℤ → Event ℤ
logged n before after body = record {
  seq = n;
  ctx = shop;
  at = pos 10;
  prev_hash = before ∷ [];
  hash = after ∷ [];
  body = body;
}

abbrev pub event_1 : Event ℤ
event_1 = record (logged 1 0 5 body_1) { prev_hash = zero_hash }

abbrev pub event_2 : Event ℤ
event_2 = logged 2 5 11 body_2

abbrev pub event_3 : Event ℤ
event_3 = logged 3 11 18 body_3

abbrev pub event_4 : Event ℤ
event_4 = logged 4 18 26 body_4

abbrev pub record_1 : Record ℤ
record_1 = record {
  ctx = shop;
  state = authorized;
  mandate_id = 5 ∷ [];
  cart_hash = 3 ∷ [];
  merchant = 1 ∷ [];
  amount = usd 40;
  rail = none;
  payment_reference = none;
  idempotency_key = none;
  settlement_reference = none;
  failure_reason = none;
  receipt_reference = none;
}

abbrev pub record_2 : Record ℤ
record_2 = record record_1 {
  state = paid;
  rail = some (8 ∷ []);
  payment_reference = some (11 ∷ []);
  idempotency_key = some (17 ∷ []);
}

abbrev pub record_3 : Record ℤ
record_3 = record record_2 { state = settled; settlement_reference = some (13 ∷ []) }

abbrev pub record_4 : Record ℤ
record_4 = record record_3 { state = delivered; receipt_reference = some (14 ∷ []) }

abbrev pub store_1 : Inner ℤ
store_1 = record {
  records = (shop, record_1) ∷ [];
  events = event_1 ∷ [];
  by_ctx = (shop, 0 ∷ []) ∷ [];
  last_seq = 1;
  reserved = (5 ∷ [], usd 40) ∷ [];
  auth_times = (5 ∷ [], pos 10 ∷ []) ∷ [];
  velocity_windows = (5 ∷ [], pos 100) ∷ [];
  nonces = [];
  revoked_ids = [];
}

abbrev pub store_2 : Inner ℤ
store_2 = record store_1 {
  records = (shop, record_2) ∷ [];
  events = event_1 ∷ event_2 ∷ [];
  by_ctx = (shop, 0 ∷ 1 ∷ []) ∷ [];
  last_seq = 2;
  nonces = ((8 ∷ [], 12 ∷ []), shop) ∷ [];
}

abbrev pub store_3 : Inner ℤ
store_3 = record store_2 {
  records = (shop, record_3) ∷ [];
  events = event_1 ∷ event_2 ∷ event_3 ∷ [];
  by_ctx = (shop, 0 ∷ 1 ∷ 2 ∷ []) ∷ [];
  last_seq = 3;
}

abbrev pub store_4 : Inner ℤ
store_4 = record store_3 {
  records = (shop, record_4) ∷ [];
  events = event_1 ∷ event_2 ∷ event_3 ∷ event_4 ∷ [];
  by_ctx = (shop, 0 ∷ 1 ∷ 2 ∷ 3 ∷ []) ∷ [];
  last_seq = 4;
}

pub append_1 : append shop (pos 10) body_1 empty_store ≡ (ok (appended event_1), store_1)
unfolding append check_body budget_refusal velocity_refusal money_add cmp_same_currency
    ensure_same_currency ◌+ℤ◌ get insert saturating_sub saturating_sub_secs next_event new_event
    compute_hash events_of last_hash zero_hash chain commit apply_reserve update_record
append_1 = refl

pub append_2 : append shop (pos 10) body_2 store_1 ≡ (ok (appended event_2), store_2)
unfolding append check_body can_transition_to get insert next_event new_event compute_hash events_of
    last_hash chain commit apply_reserve update_record
append_2 = refl

append_3 : append shop (pos 10) body_3 store_2 ≡ (ok (appended event_3), store_3)
unfolding append check_body can_transition_to get insert next_event new_event compute_hash events_of
    last_hash chain commit apply_reserve update_record
append_3 = refl

append_4 : append shop (pos 10) body_4 store_3 ≡ (ok (appended event_4), store_4)
unfolding append check_body can_transition_to get insert next_event new_event compute_hash events_of
    last_hash chain commit apply_reserve update_record
append_4 = refl

one_more :
    (body : EventBody ℤ) (g h : Inner ℤ) (e : Event ℤ)
    → Reach empty_store g
    → g.last_seq + 1 < 2 ^ 64
    → append shop (pos 10) body g ≡ (ok (appended e), h)
    → Reach empty_store h
one_more body g h e t room step =
    subst (λ (o : Result StoreError (AppendOutcome ℤ) × Inner ℤ). Reach empty_store o.1) step
      (next t (append_step shop (pos 10) body g room))

pub store_1-Reach : Reach empty_store store_1
store_1-Reach = one_more body_1 empty_store store_1 event_1 here (omega arith) append_1

pub store_4-Reach : Reach empty_store store_4
store_4-Reach =
    one_more body_4 store_3 store_4 event_4
      (one_more body_3 store_2 store_3 event_3
        (one_more body_2 store_1 store_2 event_2 store_1-Reach (omega arith) append_2) (omega arith)
        append_3)
      (omega arith) append_4
