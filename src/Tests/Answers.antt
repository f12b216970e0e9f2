-- ===== src/Tests/Answers.antt =====
-- The theorems on repeated calls and refusals at the sample purchase.
use mandate_ledger.Prelude.{◌≡◌, refl, true, [], ◌∷◌, some, ok, list_eq, nat_eq}
use mandate_ledger.Prelude.Int.{ℤ, pos}
use mandate_ledger.Prelude.Map.{get}
use mandate_ledger.State.{Paid, Settled, Delivered}
use mandate_ledger.Reason.{expiry, invalid_state}
use mandate_ledger.Mandate.Errors.{plain}
use mandate_ledger.Rail.{final_status, failed_status}
use mandate_ledger.Store.Interface.{Record}
use mandate_ledger.Store.Memory.{memory_store}
use mandate_ledger.Store.Inner.{Inner}
use mandate_ledger.Ledger.Engine.{deny}
use mandate_ledger.Ledger.Settle.{record_settlement}
use mandate_ledger.Ledger.Finish.{record_delivery}
use mandate_ledger.Ledger.Replies.{may_deliver, settlement_repeats, delivery_needs_settlement}
use mandate_ledger.Ledger.Refusals.{OnlyLogged, refusal_only_logs}
use mandate_ledger.Event.{denied_event}
use mandate_ledger.Tests.Sample.{cents, sum_digest, preimage_json, engine, receipt}
use mandate_ledger.Tests.Purchase.{shop, store_3, store_4, record_4}

abbrev shop_paid : Paid
shop_paid = record { ctx = shop; rail = 8 ∷ []; reference = 11 ∷ []; idempotency_key = 17 ∷ [] }

abbrev shop_settled : Settled
shop_settled = record { ctx = shop; reference = 13 ∷ [] }

has_record : get store_4.records shop_paid.ctx ≡ some record_4
unfolding get
has_record = refl

settlement_repeats_example :
    (record_settlement (engine 20) shop_paid (final_status (13 ∷ [])) store_4
      ≡ record_settlement (engine 20) shop_paid (failed_status []) store_4)
    × ((record_settlement (engine 20) shop_paid (final_status (13 ∷ [])) store_4).1 ≡ store_4)
settlement_repeats_example =
    settlement_repeats (engine 20) shop_paid (final_status (13 ∷ [])) (failed_status []) store_4
      record_4 has_record refl

refusal_only_logs_example :
    OnlyLogged shop
      (denied_event expiry invalid_state (plain []))
      store_4
      (deny {Decimal = ℤ} {S = Inner ℤ} {A = Paid}
        (pos 20)
        shop
        expiry
        invalid_state
        (plain [])
        store_4).1
refusal_only_logs_example =
    refusal_only_logs Paid (engine 20) shop expiry invalid_state (plain []) store_4

delivery_run :
    (record_delivery (engine 20) shop_settled receipt store_3).0
    ≡ ok (record { ctx = shop; receipt_reference = 14 ∷ [] })
unfolding record_delivery get mandate_ledger.Ledger.Engine.append_plain
    mandate_ledger.Store.Commit.append mandate_ledger.Store.Validate.check_body
    mandate_ledger.State.can_transition_to mandate_ledger.Store.Commit.next_event
    mandate_ledger.Event.new_event mandate_ledger.Event.compute_hash
    mandate_ledger.Store.Commit.commit
delivery_run = refl

delivery_needs_settlement_example :
    (rec : Record ℤ) × (get store_3.records shop ≡ some rec) × (may_deliver rec.state ≡ true)
delivery_needs_settlement_example =
    delivery_needs_settlement (engine 20) shop_settled receipt store_3 delivery_run
