-- ===== src/Store/Conservation.antt =====
-- The reservation of a mandate is what its live records add up to, so the budget bounds them.
use mandate_ledger.Prelude.{
  ℕ, ◌≤◌, ◌≡◌, refl, Bool, true, false, arith, Option, none, some, inl, inr, ok, if◌then◌else◌,
  Bool-cases, Option-cases, ◌==◌, ==_eq, ==_refl, list_eq, nat_eq, ap, sym, ◌∙◌, any, subst,
}
use mandate_ledger.Prelude.Int.{◌+ℤ◌, ◌≤ℤ◌, +ℤ_zero, +ℤ_cancel}
use mandate_ledger.Prelude.Map.{get}
use mandate_ledger.Text.{Text}
use mandate_ledger.Hash.{Sha256, CanonicalJson}
use mandate_ledger.Time.{Timestamp}
use mandate_ledger.Ids.{ContextId, MandateId}
use mandate_ledger.Money.{
  DecimalOps, DecimalLaws, DecimalSums, Money, cmp_same_currency, ensure_same_currency,
}
use mandate_ledger.Mandate.Body.{Mandate}
use mandate_ledger.State.{authorized, can_transition_to}
use mandate_ledger.Event.{EventBody, Preimage, CartSnapshot, authorized_event, resulting_state}
use mandate_ledger.Store.Interface.{Record}
use mandate_ledger.Store.Inner.{Inner, state_of, authorized_record}
use mandate_ledger.Store.Validate.{current_reserved, budget_refusal}
use mandate_ledger.Store.Commit.{append, apply_reserve, apply_release}
use mandate_ledger.Store.Memory.{empty_store, prune, revoke_id}
use mandate_ledger.Store.Append.{append-cases, was_appended, Committed}
use mandate_ledger.Store.Log.{body-made}
use mandate_ledger.Store.Reach.{Step, append_step, revoke_step, prune_step}
use mandate_ledger.Store.Exact.{ReachIn, begins, goes_on, ReachIn-last}
use mandate_ledger.Store.Prune.{records-prune, reserved-prune}
use mandate_ledger.Store.Projection.{
  Permitted, chosen-step, step_record, records-released, records-append, append-Permitted,
}
use mandate_ledger.Store.Reserve.{
  Reserved, check-Reserved, reserved-append, released_by, is_authorized_event,
}
use mandate_ledger.Store.Balance.{stored, records-stored, held_by, live_total, live_total-stored}
use mandate_ledger.Store.Budget.{
  IsOnGrid, OnGrid, current-IsOnGrid, sub_worth, reserved_value, add_worth, current_worth,
  reserved-reserve, IsBalanced, IsMoved, IsMoved-quiet, IsMoved-release,
}

not_both : {b : Bool} → b ≡ true → b ≡ false → ⊥
not_both h k = cc

no_record :
    {Decimal : Type 0} (rec : Option (Record Decimal))
    → Permitted (state_of rec) (some authorized)
    → rec ≡ none
unfolding can_transition_to
no_record rec p = ground arith

frees_nothing :
    {Decimal : Type 0} (body : EventBody Decimal) (freed : MandateId × Money Decimal)
    → released_by body none ≡ some freed
    → ⊥
frees_nothing body freed h = ground arith

never_lost :
    {Decimal : Type 0} (ctx : ContextId) (rec : Option (Record Decimal)) (body : EventBody Decimal)
    → step_record ctx rec body ≡ none
    → rec ≡ none
never_lost ctx rec (authorized_event m c k) h = cc
never_lost ctx rec body h = ground arith

module _ {Decimal : Type 0} ⦃ops : DecimalOps Decimal⦄ ⦃sha : Sha256⦄
    ⦃json : CanonicalJson (Preimage Decimal)⦄ (laws : DecimalLaws Decimal)
    (sums : DecimalSums Decimal laws) (p : ℕ) (small : p ≤ 28) where
  within_budget :
      (cap current next : Money Decimal)
      → budget_refusal (some cap) current next ≡ ok none
      → laws.value next.amount ≤ℤ laws.value cap.amount
  unfolding budget_refusal cmp_same_currency ensure_same_currency
  within_budget cap current next h = ground (arith, laws.cmp_value next.amount cap.amount)

  module _ {ctx : ContextId} {at : Timestamp} {g : Inner Decimal} {mandate : Mandate Decimal}
      {cart : CartSnapshot Decimal} {key : Text}
      (c : Committed ctx at (authorized_event mandate cart key) g) (before : OnGrid laws sums p g)
      (after : OnGrid laws sums p (append ctx at (authorized_event mandate cart key) g).1) where
    abbrev reservation : Reserved g at mandate cart c.fx
    reservation = check-Reserved g ctx at mandate cart key c.fx c.checked

    reserved_by_append :
        c.released.reserved
        ≡ (apply_reserve g at c.fx.window (some (mandate.body.id, reservation.next))).reserved
    unfolding apply_release
    reserved_by_append = ground (arith, c.freed, reservation.reserves, reservation.releases)

    -- The amount is that of the new record.
    amount-IsOnGrid : IsOnGrid laws sums p cart.claims.total.amount
    amount-IsOnGrid =
        after.amounts ctx (authorized_record ctx mandate.body.id cart)
          (records-append c ctx ∙ rw (==_refl ctx) refl)

    pub next_worth :
        laws.value reservation.next.amount
        ≡ reserved_value laws mandate.body.id g +ℤ laws.value cart.claims.total.amount
    next_worth =
        add_worth laws sums p (current_reserved g mandate.body.id cart.claims.total)
          cart.claims.total reservation.next small
          (current-IsOnGrid laws sums p g mandate.body.id cart.claims.total before) amount-IsOnGrid
          reservation.added
        ∙ ap (λ x. x +ℤ laws.value cart.claims.total.amount)
            (current_worth laws g mandate.body.id cart.claims.total)

    -- What the store holds reserved after it has authorized.
    pub reserved_after :
        (m : MandateId)
        → reserved_value laws m (append ctx at (authorized_event mandate cart key) g).1 ≡ (
            if mandate.body.id == m
            then laws.value reservation.next.amount
            else reserved_value laws m g)
    reserved_after m =
        rw (reserved-append c, reserved_by_append)
          (reserved-reserve laws g at c.fx.window mandate.body.id reservation.next m)

    IsMoved-authorized : (m : MandateId) → IsMoved laws c m
    unfolding resulting_state
    IsMoved-authorized m =
        rw (reserved_after m, no_record (get g.records ctx) (append-Permitted c))
          (elim (Bool-cases (mandate.body.id == m)) [
            | inl same ↦ rw same (
                +ℤ_zero (laws.value reservation.next.amount)
                ∙ (next_worth ∙ rw (==_eq mandate.body.id m same)))
            | inr other ↦ rw other
          ])

  released-IsOnGrid :
      (g : Inner Decimal) (body : EventBody Decimal) (ctx : ContextId) (r : Record Decimal)
      (id : MandateId) (amount : Money Decimal)
      → OnGrid laws sums p g
      → get g.records ctx ≡ some r
      → released_by body (some r) ≡ some (id, amount)
      → IsOnGrid laws sums p amount.amount
  released-IsOnGrid g body ctx r id amount grid here frees =
      let same : r.amount ≡ amount = ground (arith, frees) in
      subst (λ (x : Money Decimal). IsOnGrid laws sums p x.amount) same (grid.amounts ctx r here)

  IsMoved-other :
      {ctx : ContextId} {at : Timestamp} {body : EventBody Decimal} {g : Inner Decimal}
      (c : Committed ctx at body g) (m : MandateId)
      → OnGrid laws sums p g
      → is_authorized_event body ≡ false
      → IsMoved laws c m
  IsMoved-other {ctx = ctx} {body = body} {g = g} c m grid other =
      elim (Option-cases (released_by body (get g.records ctx))) [
        | inl quiet ↦ IsMoved-quiet laws c m other quiet
        | inr ((id, amount), frees) ↦ elim (Option-cases (get g.records ctx)) [
          | inl missing ↦ absurd (frees_nothing body (id, amount) (rw missing at frees))
          | inr (r, here) ↦
              let freed = rw here at frees in
              IsMoved-release laws c m r id amount other here freed (λ current next found taken.
                sub_worth laws sums p current amount next small (grid.reservations id current found)
                  (released-IsOnGrid g body ctx r id amount grid here freed) taken)
        ]
      ]

  moved :
      {ctx : ContextId} {at : Timestamp} {body : EventBody Decimal} {g : Inner Decimal}
      (c : Committed ctx at body g) (m : MandateId)
      → OnGrid laws sums p g
      → OnGrid laws sums p (append ctx at body g).1
      → IsMoved laws c m
  moved {body = authorized_event mandate cart key} c m before after =
      IsMoved-authorized c before after m
  moved {body = body} c m before after = IsMoved-other c m before refl

  records-after :
      {ctx : ContextId} {at : Timestamp} {body : EventBody Decimal} {g : Inner Decimal}
      (c : Committed ctx at body g)
      → (append ctx at body g).1.records
        ≡ stored g.records ctx (step_record ctx (get g.records ctx) body)
  records-after {ctx = ctx} {at = at} {body = body} {g = g} c = rw c.result (
      records-stored c.released ctx c.fx c.event
      ∙ rw (records-released c, body-made c) (rw (chosen-step g ctx at body c.fx c.checked)))

  IsBalanced-committed :
      {ctx : ContextId} {at : Timestamp} {body : EventBody Decimal} {g : Inner Decimal}
      → Committed ctx at body g
      → OnGrid laws sums p g
      → OnGrid laws sums p (append ctx at body g).1
      → IsBalanced laws g
      → IsBalanced laws (append ctx at body g).1
  IsBalanced-committed {ctx = ctx} {at = at} {body = body} {g = g} c on_before on_after h m =
      let before = held_by laws m (get g.records ctx) in
      let rec = step_record ctx (get g.records ctx) body in
      let held_after = held_by laws m rec in
      let total : live_total laws m (append ctx at body g).1.records +ℤ before
          ≡ live_total laws m g.records +ℤ held_after =
        rw (records-after c)
          (live_total-stored laws m g.records ctx rec (never_lost ctx (get g.records ctx) body)) in
      +ℤ_cancel (reserved_value laws m (append ctx at body g).1)
        (live_total laws m (append ctx at body g).1.records) before
        (moved c m on_before on_after ∙ (ap (λ x. x +ℤ held_after) (h m) ∙ sym total))

  IsBalanced-append :
      (ctx : ContextId) (at : Timestamp) (body : EventBody Decimal) (g : Inner Decimal)
      → OnGrid laws sums p g
      → OnGrid laws sums p (append ctx at body g).1
      → IsBalanced laws g
      → IsBalanced laws (append ctx at body g).1
  IsBalanced-append ctx at body g before after h = elim (append-cases ctx at body g) [
    | inl alone ↦ rw alone.1 h
    | inr c ↦ IsBalanced-committed c before after h
  ]

  IsBalanced-prune :
      (before : Timestamp) (g : Inner Decimal)
      → IsBalanced laws g
      → IsBalanced laws (prune g before)
  IsBalanced-prune before g h m = rw (records-prune, reserved-prune) (h m)

  IsBalanced-revoke :
      (m : MandateId) (g : Inner Decimal) → IsBalanced laws g → IsBalanced laws (revoke_id g m)
  unfolding revoke_id
  IsBalanced-revoke m g h = elim (Bool-cases (any (λ k. k == m) g.revoked_ids)) [
    | inl known ↦ rw known h
    | inr new ↦ rw new h
  ]

  goes_on-IsBalanced :
      {g h : Inner Decimal}
      → Step g h
      → OnGrid laws sums p g
      → OnGrid laws sums p h
      → IsBalanced laws g
      → IsBalanced laws h
  goes_on-IsBalanced (append_step ctx at body g room) before after balanced =
      IsBalanced-append ctx at body g before after balanced
  goes_on-IsBalanced (revoke_step m g) before after balanced = IsBalanced-revoke m g balanced
  goes_on-IsBalanced (prune_step moment g) before after balanced =
      IsBalanced-prune moment g balanced

  -- In any store that a run reaches, whatever the order of the calls, what is reserved under a mandate
  -- is the sum of the amounts of its records that have neither failed nor expired. This is for runs in
  -- which the reservations and the records' amounts have, all along, at most `p` digits after the point
  -- and at most 2^94 units in the last of them, so that no sum is rounded.
  pub Reach-IsBalanced :
      {g : Inner Decimal} → ReachIn (OnGrid laws sums p) empty_store g → IsBalanced laws g
  Reach-IsBalanced (begins on_grid) = λ m. unfold get in refl
  Reach-IsBalanced (goes_on run step after) =
      goes_on-IsBalanced step (ReachIn-last (OnGrid laws sums p) run) after (Reach-IsBalanced run)

  -- In any store that a run reaches: after an append has authorized a context under a mandate with a
  -- total cap, the amounts of the mandate's records that have neither failed nor expired add up to the
  -- cap at most. This is for runs in which the reservations and the records' amounts have, all along
  -- and after this append, at most `p` digits after the point and at most 2^94 units in the last of
  -- them, so that no sum is rounded.
  pub budget_respected :
      {g : Inner Decimal} (ctx : ContextId) (at : Timestamp) (mandate : Mandate Decimal)
      (cart : CartSnapshot Decimal) (key : Text) (cap : Money Decimal)
      → ReachIn (OnGrid laws sums p) empty_store g
      → OnGrid laws sums p (append ctx at (authorized_event mandate cart key) g).1
      → was_appended (append ctx at (authorized_event mandate cart key) g).0 ≡ true
      → mandate.body.scope.max_total ≡ some cap
      → live_total laws mandate.body.id
          (append ctx at (authorized_event mandate cart key) g).1.records
        ≤ℤ laws.value cap.amount
  budget_respected {g = g} ctx at mandate cart key cap run after done capped =
      elim (append-cases ctx at (authorized_event mandate cart key) g) [
        | inl alone ↦ absurd (not_both done alone.0)
        | inr c ↦
            let before = ReachIn-last (OnGrid laws sums p) run in
            subst (λ x. x ≤ℤ laws.value cap.amount)
              (sym (
                  reserved_after c before after mandate.body.id ∙ rw (==_refl mandate.body.id) refl)
                ∙ IsBalanced-committed c before after (Reach-IsBalanced run) mandate.body.id)
              (within_budget cap (current_reserved g mandate.body.id cart.claims.total)
                (reservation c before after).next
                (rw capped at (reservation c before after).within))
      ]
