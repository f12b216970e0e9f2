-- ===== src/Store/Budget.antt =====
-- How reserving and releasing move what is reserved under a mandate.
use mandate_ledger.Prelude.{
  ℕ, ◌-◌, ◌*◌, ◌^◌, ◌≤◌, ◌≡◌, refl, false, arith, Option, none, some, inl, inr, ok, Result-cases,
  if◌then◌else◌, Bool-cases, Option-cases, ◌==◌, ==_eq, list_eq, nat_eq, ap, sym, ◌∙◌, subst,
}
use mandate_ledger.Prelude.Int.{ℤ, pos, abs_ℤ, ◌+ℤ◌, ◌-ℤ◌, +ℤ_zero, -ℤ_then_add}
use mandate_ledger.Prelude.Map.{get, insert, get-insert}
use mandate_ledger.Hash.{Sha256, CanonicalJson}
use mandate_ledger.Time.{Timestamp}
use mandate_ledger.Ids.{ContextId, MandateId}
use mandate_ledger.Money.{
  DecimalOps, DecimalLaws, DecimalSums, Money, money_add, money_sub, ensure_same_currency,
}
use mandate_ledger.Event.{EventBody, Preimage, resulting_state}
use mandate_ledger.Store.Interface.{Record}
use mandate_ledger.Store.Inner.{Inner, state_of}
use mandate_ledger.Store.Validate.{current_reserved}
use mandate_ledger.Store.Commit.{append, apply_reserve, apply_release, release_reservation}
use mandate_ledger.Store.Append.{Committed}
use mandate_ledger.Store.Projection.{Permitted, step_record, append-Permitted}
use mandate_ledger.Store.Reserve.{check-releases, reserved-append, released_by, is_authorized_event}
use mandate_ledger.Store.Balance.{held_by, live_total, held-kept, held-released}

module _ {Decimal : Type 0} ⦃ops : DecimalOps Decimal⦄ (laws : DecimalLaws Decimal)
    (sums : DecimalSums Decimal laws) (p : ℕ) where
  -- At most `p` digits after the point, and at most 2^94 units in the last of them.
  abbrev pub IsOnGrid : Decimal → Type 0
  IsOnGrid a = (sums.scale a ≤ p) × (abs_ℤ (laws.value a) ≤ 2 ^ 94 * 10 ^ (28 - p))

  -- The reservations and the amounts of the records are such decimals.
  pub record OnGrid (g : Inner Decimal) : Type 0 where
    pub reservations :
        (m : MandateId) (x : Money Decimal) → get g.reserved m ≡ some x → IsOnGrid x.amount
    pub amounts :
        (c : ContextId) (r : Record Decimal) → get g.records c ≡ some r → IsOnGrid r.amount.amount

  pub add_worth :
      (a b c : Money Decimal)
      → p ≤ 28
      → IsOnGrid a.amount
      → IsOnGrid b.amount
      → money_add a b ≡ ok c
      → laws.value c.amount ≡ laws.value a.amount +ℤ laws.value b.amount
  unfolding money_add ensure_same_currency
  add_worth a b c small ga gb h = elim (Option-cases (ops.checked_add a.amount b.amount)) [
    | inl overflows ↦ absurd (ground (arith, h, overflows))
    | inr (x, e) ↦
        let same : c.amount ≡ x = ground (arith, h, e) in
        rw same (sums.add_value p a.amount b.amount x small ga gb e)
  ]

  pub sub_worth :
      (a b c : Money Decimal)
      → p ≤ 28
      → IsOnGrid a.amount
      → IsOnGrid b.amount
      → money_sub a b ≡ ok c
      → laws.value c.amount ≡ laws.value a.amount -ℤ laws.value b.amount
  unfolding money_sub ensure_same_currency
  sub_worth a b c small ga gb h = elim (Option-cases (ops.checked_sub a.amount b.amount)) [
    | inl overflows ↦ absurd (ground (arith, h, overflows))
    | inr (x, e) ↦
        let same : c.amount ≡ x = ground (arith, h, e) in
        rw same (sums.sub_value p a.amount b.amount x small ga gb e)
  ]

  pub current-IsOnGrid :
      (g : Inner Decimal) (m : MandateId) (amount : Money Decimal)
      → OnGrid g
      → IsOnGrid (current_reserved g m amount).amount
  current-IsOnGrid g m amount grid = elim (Option-cases (get g.reserved m)) [
    | inl missing ↦ rw missing (omega (arith, sums.scale_zero), rw laws.value_zero (omega arith))
    | inr (x, found) ↦ rw found (grid.reservations m x found)
  ]

module _ {Decimal : Type 0} ⦃ops : DecimalOps Decimal⦄ (laws : DecimalLaws Decimal) where
  abbrev pub worth : Option (Money Decimal) → ℤ
  worth none = pos 0
  worth (some x) = laws.value x.amount

  -- What is reserved under a mandate.
  abbrev pub reserved_value : MandateId → Inner Decimal → ℤ
  reserved_value m g = worth (get g.reserved m)

  pub current_worth :
      (g : Inner Decimal) (m : MandateId) (amount : Money Decimal)
      → laws.value (current_reserved g m amount).amount ≡ reserved_value m g
  current_worth g m amount = elim (Option-cases (get g.reserved m)) [
    | inl missing ↦ rw missing laws.value_zero
    | inr (x, found) ↦ rw found refl
  ]

  -- What a release that succeeds has done.
  record Freed (g : Inner Decimal) (id : MandateId) (amount : Money Decimal) (g' : Inner Decimal)
      : Type 0 where
    pub current : Money Decimal
    pub next : Money Decimal
    pub found : get g.reserved id ≡ some current
    pub taken : money_sub current amount ≡ ok next
    pub moved : g'.reserved ≡ insert g.reserved id next

  release-Freed :
      (g : Inner Decimal) (id : MandateId) (amount : Money Decimal) (g' : Inner Decimal)
      → apply_release g (some (id, amount)) ≡ ok g'
      → Freed g id amount g'
  unfolding apply_release release_reservation
  release-Freed g id amount g' h = elim (Option-cases (get g.reserved id)) [
    | inl missing ↦ absurd (ground arith)
    | inr (current, found) ↦ elim (Result-cases (money_sub current amount)) [
      | inr (failure, e) ↦ absurd (ground arith)
      | inl (next, e) ↦ record {
        current = current;
        next = next;
        found = found;
        taken = e;
        moved = ground arith;
      }
    ]
  ]

  -- A release takes its amount from the reservation of its mandate.
  reserved-release :
      (g : Inner Decimal) (id : MandateId) (amount : Money Decimal) (g' : Inner Decimal)
      (m : MandateId)
      → ((current next : Money Decimal)
          → get g.reserved id ≡ some current
          → money_sub current amount ≡ ok next
          → laws.value next.amount ≡ laws.value current.amount -ℤ laws.value amount.amount)
      → apply_release g (some (id, amount)) ≡ ok g'
      → reserved_value m g' +ℤ (if id == m then laws.value amount.amount else pos 0)
        ≡ reserved_value m g
  reserved-release g id amount g' m exact h =
      let f = release-Freed g id amount g' h in
      rw (f.moved, get-insert)
        (elim (Bool-cases (id == m)) [
          | inl same ↦ rw same (
              rw
                (
                  exact f.current f.next f.found f.taken,
                  -ℤ_then_add,
                  sym (==_eq id m same),
                  f.found,
                )
                refl)
          | inr other ↦ rw other (+ℤ_zero (reserved_value m g))
        ])

  pub reserved-reserve :
      (g : Inner Decimal) (at : Timestamp) (w : Option ℤ) (id : MandateId) (next : Money Decimal)
      (m : MandateId)
      → reserved_value m (apply_reserve g at w (some (id, next)))
        ≡ (if id == m then laws.value next.amount else reserved_value m g)
  unfolding apply_reserve
  reserved-reserve g at w id next m = elim (Bool-cases (id == m)) [
    | inl same ↦ rw (get-insert, same) refl
    | inr other ↦ rw (get-insert, other) refl
  ]

  -- Reservations and live records agree, mandate by mandate.
  abbrev pub IsBalanced : Inner Decimal → Type 0
  IsBalanced g = (m : MandateId) → reserved_value m g ≡ live_total laws m g.records

module _ {Decimal : Type 0} ⦃ops : DecimalOps Decimal⦄ ⦃sha : Sha256⦄
    ⦃json : CanonicalJson (Preimage Decimal)⦄ (laws : DecimalLaws Decimal) {ctx : ContextId}
    {at : Timestamp} {body : EventBody Decimal} {g : Inner Decimal}
    (c : Committed ctx at body g) where
  -- An append moves the reservation by what the record of the context comes to hold.
  abbrev pub IsMoved : MandateId → Type 0
  IsMoved m =
      reserved_value laws m (append ctx at body g).1 +ℤ held_by laws m (get g.records ctx)
      ≡ reserved_value laws m g +ℤ held_by laws m (step_record ctx (get g.records ctx) body)

  pub freed_alone : c.fx.reserve ≡ none → apply_release g c.fx.release ≡ ok c.released
  unfolding apply_reserve
  freed_alone h = rw h at c.freed

  freed_nothing : c.fx.reserve ≡ none → c.fx.release ≡ none → c.released ≡ g
  unfolding apply_release
  freed_nothing h k = ground (arith, freed_alone h)

  pub IsMoved-quiet :
      (m : MandateId)
      → is_authorized_event body ≡ false
      → released_by body (get g.records ctx) ≡ none
      → IsMoved m
  IsMoved-quiet m other quiet =
      let found = check-releases g ctx at body c.fx other c.checked in
      rw (reserved-append c, freed_nothing found.0 (found.1 ∙ quiet))
        (ap (λ x. reserved_value laws m g +ℤ x)
          (sym (held-kept laws m ctx (get g.records ctx) body other quiet (append-Permitted c))))

  pub IsMoved-release :
      (m : MandateId) (r : Record Decimal) (id : MandateId) (amount : Money Decimal)
      → is_authorized_event body ≡ false
      → get g.records ctx ≡ some r
      → released_by body (some r) ≡ some (id, amount)
      → ((current next : Money Decimal)
          → get g.reserved id ≡ some current
          → money_sub current amount ≡ ok next
          → laws.value next.amount ≡ laws.value current.amount -ℤ laws.value amount.amount)
      → IsMoved m
  IsMoved-release m r id amount other here frees exact =
      let found = check-releases g ctx at body c.fx other c.checked in
      let freed : apply_release g (some (id, amount)) ≡ ok c.released =
        subst (λ o. apply_release g o ≡ ok c.released) (found.1 ∙ rw here frees)
          (freed_alone found.0) in
      let before = held-released laws m ctx r body id amount frees (
        subst (λ (o : Option (Record Decimal)). Permitted (state_of o) (resulting_state body)) here
          (append-Permitted c)) in
      rw (here, before.1, +ℤ_zero, before.0, reserved-append c)
        (reserved-release laws g id amount c.released m exact freed)
