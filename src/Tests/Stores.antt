-- ===== src/Tests/Stores.antt =====
-- The theorems on the store at the sample purchase.
use mandate_ledger.Prelude.{
  ◌+◌, ◌^◌, ◌<◌, ok, subst, sym, ◌∙◌, ◌≤◌, ◌≡◌, refl, true, false, [], ◌∷◌, ◌++◌, arith, some,
  Result, ap, list_eq, nat_eq,
}
use mandate_ledger.Prelude.Int.{ℤ, pos, ◌≤ℤ◌}
use mandate_ledger.Prelude.Map.{Map, get}
use mandate_ledger.Error.{StoreError}
use mandate_ledger.Time.{i64_min, saturating_sub_secs}
use mandate_ledger.Mandate.Scope.{Velocity}
use mandate_ledger.Store.Interface.{Record, AppendOutcome, appended}
use mandate_ledger.State.{settled, delivered}
use mandate_ledger.Event.{Event, EventBody, resulting_state}
use mandate_ledger.Evidence.{final_state_of}
use mandate_ledger.Store.Inner.{Inner, u32_max, window_count}
use mandate_ledger.Store.Commit.{append}
use mandate_ledger.Store.Memory.{empty_store, revoke_id}
use mandate_ledger.Store.Chain.{chain_of}
use mandate_ledger.Store.Append.{LeftAlone, append_atomic, was_appended}
use mandate_ledger.Store.Audit.{IsAuditable}
use mandate_ledger.Store.Reach.{Step, append_step, here, Reach-IsAuditable}
use mandate_ledger.Store.History.{IsTracked}
use mandate_ledger.Store.Lifecycle.{Reach-IsTracked, delivered_after_settled}
use mandate_ledger.Store.Denials.{IsCapped, Reach-IsCapped}
use mandate_ledger.Store.Revocation.{revoked_for_good}
use mandate_ledger.Store.Nonces.{nonce_owner_unique}
use mandate_ledger.Store.Balance.{live_total}
use mandate_ledger.Store.Budget.{IsBalanced, IsOnGrid, OnGrid}
use mandate_ledger.Store.Exact.{ReachIn, begins, goes_on}
use mandate_ledger.Text.{Text}
use mandate_ledger.Money.{Money}
use mandate_ledger.Store.Conservation.{Reach-IsBalanced, budget_respected}
use mandate_ledger.Store.Velocity.{velocity_respected}
use mandate_ledger.Tests.Purchase.{
  shop, basket, body_1, body_2, store_1, store_4, event_1, event_2, event_3, event_4, append_1,
  append_2, record_1, record_2, store_2, store_4-Reach,
}
use mandate_ledger.Tests.Sample.{
  cents, cents_laws, cents_sums, sum_digest, plain_hex, keyed_copy, preimage_json, body_json,
  mandate, usd,
}

early_payment : was_appended (append shop (pos 10) body_2 empty_store).0 ≡ false
unfolding append mandate_ledger.Store.Validate.check_body get
early_payment = refl

append_atomic_example : (append shop (pos 10) body_2 empty_store).1 ≡ empty_store
append_atomic_example = append_atomic shop (pos 10) body_2 empty_store early_payment

Reach-IsAuditable_example : IsAuditable store_4
Reach-IsAuditable_example = Reach-IsAuditable store_4-Reach

Reach-IsTracked_example : IsTracked store_4
Reach-IsTracked_example = Reach-IsTracked store_4-Reach

shop_chain : chain_of shop store_4.events ≡ (event_1 ∷ event_2 ∷ event_3 ∷ []) ++ event_4 ∷ []
shop_chain = refl

event_4_delivers : resulting_state event_4.body ≡ some delivered
unfolding resulting_state
event_4_delivers = refl

delivered_after_settled_example : final_state_of (event_1 ∷ event_2 ∷ event_3 ∷ []) ≡ some settled
delivered_after_settled_example =
    delivered_after_settled shop (event_1 ∷ event_2 ∷ event_3 ∷ []) [] event_4 store_4-Reach
      shop_chain event_4_delivers

Reach-IsCapped_example : IsCapped store_4
Reach-IsCapped_example = Reach-IsCapped store_4-Reach

revoked_for_good_example : LeftAlone shop (pos 10) body_1 (revoke_id store_1 (5 ∷ []))
revoked_for_good_example = revoked_for_good store_1 mandate basket (2 ∷ []) shop (pos 10) here

nonce_owner_unique_example : event_2.ctx ≡ event_2.ctx
nonce_owner_unique_example = nonce_owner_unique 1 1 store_4-Reach refl refl refl refl

two_places : 2 ≤ 28
two_places = omega arith

get_single : {V : Type 0} (k j : Text) (v x : V) → get ((k, v) ∷ []) j ≡ some x → v ≡ x
unfolding get
get_single k j v x h = ground (arith, h)

-- The grid of whole hundredths.
forty-IsOnGrid : IsOnGrid cents_laws cents_sums 2 (pos 40)
forty-IsOnGrid = (omega arith, omega arith)

purchase-OnGrid :
    (g : Inner ℤ) (r : Record ℤ)
    → g.reserved ≡ (5 ∷ [], usd 40) ∷ []
    → g.records ≡ (shop, r) ∷ []
    → r.amount ≡ usd 40
    → OnGrid cents_laws cents_sums 2 g
purchase-OnGrid g r reserved records amount = record {
  reservations = λ m x h.
      subst (λ (y : Money ℤ). IsOnGrid cents_laws cents_sums 2 y.amount)
        (get_single (5 ∷ []) m (usd 40) x
          (ap (λ (l : Map Text (Money ℤ)). get l m) (sym reserved) ∙ h))
        forty-IsOnGrid;
  amounts = λ c x h.
      subst (λ (y : Record ℤ). IsOnGrid cents_laws cents_sums 2 y.amount.amount)
        (get_single shop c r x (ap (λ (l : Map Text (Record ℤ)). get l c) (sym records) ∙ h))
        (subst (λ (y : Money ℤ). IsOnGrid cents_laws cents_sums 2 y.amount) (sym amount)
          forty-IsOnGrid);
}

empty-OnGrid : OnGrid cents_laws cents_sums 2 empty_store
unfolding get
empty-OnGrid = record { reservations = λ m x h. cc; amounts = λ c r h. cc }

one_more_exact :
    (body : EventBody ℤ) (g h : Inner ℤ) (e : Event ℤ)
    → ReachIn (OnGrid cents_laws cents_sums 2) empty_store g
    → g.last_seq + 1 < 2 ^ 64
    → append shop (pos 10) body g ≡ (ok (appended e), h)
    → OnGrid cents_laws cents_sums 2 h
    → ReachIn (OnGrid cents_laws cents_sums 2) empty_store h
one_more_exact body g h e run room step grid =
    goes_on run
      (subst (λ (o : Result StoreError (AppendOutcome ℤ) × Inner ℤ). Step g o.1) step
        (append_step shop (pos 10) body g room))
      grid

store_2-ReachIn : ReachIn (OnGrid cents_laws cents_sums 2) empty_store store_2
store_2-ReachIn =
    one_more_exact body_2 store_1 store_2 event_2
      (one_more_exact body_1 empty_store store_1 event_1 (begins empty-OnGrid) (omega arith)
        append_1 (purchase-OnGrid store_1 record_1 refl refl refl))
      (omega arith) append_2 (purchase-OnGrid store_2 record_2 refl refl refl)

Reach-IsBalanced_example : IsBalanced cents_laws store_2
Reach-IsBalanced_example = Reach-IsBalanced cents_laws cents_sums 2 two_places store_2-ReachIn

authorizes : was_appended (append shop (pos 10) body_1 empty_store).0 ≡ true
authorizes = ap (λ (o : Result StoreError (AppendOutcome ℤ) × Inner ℤ). was_appended o.0) append_1

capped_at_100 : mandate.body.scope.max_total ≡ some (usd 100)
capped_at_100 = refl

authorized-OnGrid : OnGrid cents_laws cents_sums 2 (append shop (pos 10) body_1 empty_store).1
authorized-OnGrid =
    subst
      (λ (o : Result StoreError (AppendOutcome ℤ) × Inner ℤ). OnGrid cents_laws cents_sums 2 o.1)
      (sym append_1) (purchase-OnGrid store_1 record_1 refl refl refl)

budget_respected_example :
    live_total cents_laws (5 ∷ []) (append shop (pos 10) body_1 empty_store).1.records ≤ℤ pos 100
budget_respected_example =
    budget_respected cents_laws cents_sums 2 two_places shop (pos 10) mandate basket (2 ∷ [])
      (usd 100) (begins empty-OnGrid) authorized-OnGrid authorizes capped_at_100

abbrev rule : Velocity
rule = record { max_count = 2; window_secs = pos 100 }

rule_fits : rule.max_count ≤ u32_max
rule_fits = omega arith

forward : pos 0 ≤ℤ rule.window_secs
forward = omega arith

i64_moment : i64_min ≤ℤ pos 10
i64_moment = omega arith

velocity_respected_example :
    (window_count
        (append shop (pos 10) body_1 empty_store).1
        (5 ∷ [])
        (saturating_sub_secs (pos 10) (pos 100))
      ≡ window_count (empty_store {Decimal = ℤ}) (5 ∷ []) (saturating_sub_secs (pos 10) (pos 100))
        + 1)
    × (window_count
          (append shop (pos 10) body_1 empty_store).1
          (5 ∷ [])
          (saturating_sub_secs (pos 10) (pos 100))
        ≤ 2)
velocity_respected_example =
    velocity_respected empty_store shop (pos 10) mandate basket (2 ∷ []) rule rule_fits forward
      i64_moment authorizes refl
