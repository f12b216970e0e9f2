-- ===== src/Store/Append.antt =====
-- `append` has two ways to end: it appends and commits, or it leaves the store as it was.
use mandate_ledger.Prelude.{
  ◌≡◌, refl, Bool, true, false, none, arith, ◌⊎◌, inl, inr, Result, ok, err, Result-cases, ap, sym,
  ◌∙◌,
}
use mandate_ledger.Hash.{Sha256, CanonicalJson}
use mandate_ledger.Time.{Timestamp}
use mandate_ledger.Ids.{ContextId}
use mandate_ledger.Money.{DecimalOps}
use mandate_ledger.Event.{Event, EventBody, Preimage, authorized_event}
use mandate_ledger.Error.{StoreError}
use mandate_ledger.Store.Interface.{AppendOutcome, appended}
use mandate_ledger.Store.Inner.{Inner, Effects, refuse, proceed}
use mandate_ledger.Store.Validate.{check_body}
use mandate_ledger.Store.Commit.{
  apply_reserve, apply_release, apply_nonce, apply_new_record, apply_update, push_event, commit,
  next_event, append_verdict, append,
}

abbrev pub was_appended : {Decimal : Type 0} → Result StoreError (AppendOutcome Decimal) → Bool
was_appended (ok (appended e)) = true
was_appended _ = false

module _ {Decimal : Type 0} where
  -- The state after phase 2, from the one after the release.
  abbrev pub committed : Inner Decimal → ContextId → Effects Decimal → Event Decimal → Inner Decimal
  committed released ctx fx e =
      push_event
        (apply_update
          (apply_new_record (apply_nonce released ctx fx.consume_nonce) ctx fx.new_record) ctx
          e.body)
        e

true-ne-false : true ≡ false → ⊥
true-ne-false h = cc

ok-ne-err : {E A : Type 0} {a : A} {e : E} → ok a ≡ err e → ⊥
ok-ne-err h = cc

module _ {Decimal : Type 0} ⦃ops : DecimalOps Decimal⦄ ⦃sha : Sha256⦄
    ⦃json : CanonicalJson (Preimage Decimal)⦄ where
  pub record Committed (ctx : ContextId) (at : Timestamp) (body : EventBody Decimal)
      (g : Inner Decimal) : Type 0 where
    pub fx : Effects Decimal
    pub event : Event Decimal
    pub released : Inner Decimal
    pub checked : check_body g ctx at body ≡ ok (proceed fx)
    pub made : next_event g ctx at body ≡ ok event
    pub freed : apply_release (apply_reserve g at fx.window fx.reserve) fx.release ≡ ok released
    pub result : append ctx at body g ≡ (ok (appended event), committed released ctx fx event)

  -- A body reserves or releases, never both.
  reserve_or_release :
      (g : Inner Decimal) (ctx : ContextId) (at : Timestamp) (body : EventBody Decimal)
      (fx : Effects Decimal)
      → check_body g ctx at body ≡ ok (proceed fx)
      → (fx.reserve ≡ none) ⊎ (fx.release ≡ none)
  unfolding check_body
  reserve_or_release g ctx at (authorized_event m c k) fx h = ground arith
  reserve_or_release g ctx at body fx h = ground arith

  refuse_not_appended :
      (g : Inner Decimal) (ctx : ContextId) (at : Timestamp) (body : EventBody Decimal)
      (o : AppendOutcome Decimal)
      → check_body g ctx at body ≡ ok (refuse o)
      → was_appended (ok o) ≡ false
  unfolding check_body
  refuse_not_appended g ctx at (authorized_event m c k) o h = ground arith
  refuse_not_appended g ctx at body o h = ground arith

  -- What holds of a call that has not appended.
  abbrev pub LeftAlone : ContextId → Timestamp → EventBody Decimal → Inner Decimal → Type 0
  LeftAlone ctx at body g =
      (was_appended (append ctx at body g).0 ≡ false) × ((append ctx at body g).1 ≡ g)

  -- A release can only fail where nothing was reserved before it.
  reserve_untouched :
      (g : Inner Decimal) (at : Timestamp) (fx : Effects Decimal) (failure : StoreError)
      → apply_release (apply_reserve g at fx.window fx.reserve) fx.release ≡ err failure
      → (fx.reserve ≡ none) ⊎ (fx.release ≡ none)
      → apply_reserve g at fx.window fx.reserve ≡ g
  unfolding apply_release apply_reserve
  reserve_untouched g at fx failure stuck (inl none_reserved) = rw none_reserved
  reserve_untouched g at fx failure stuck (inr none_released) =
      absurd (ok-ne-err (rw none_released at stuck))

  commit-cases :
      (ctx : ContextId) (at : Timestamp) (body : EventBody Decimal) (g : Inner Decimal)
      (fx : Effects Decimal) (e : Event Decimal)
      → check_body g ctx at body ≡ ok (proceed fx)
      → next_event g ctx at body ≡ ok e
      → LeftAlone ctx at body g ⊎ Committed ctx at body g
  unfolding append commit
  commit-cases ctx at body g fx e checked made =
      elim (Result-cases (apply_release (apply_reserve g at fx.window fx.reserve) fx.release)) [
        | inl (released, freed) ↦ inr (record {
          fx = fx;
          event = e;
          released = released;
          checked = checked;
          made = made;
          freed = freed;
          result = rw (checked, made, append_verdict, freed, commit) refl;
        })
        | inr (failure, stuck) ↦ inl (
            rw (checked, made, append_verdict, stuck, commit)
              (
                refl,
                reserve_untouched g at fx failure stuck
                    (reserve_or_release g ctx at body fx checked),
              ))
      ]

  -- The two ways to end.
  pub append-cases :
      (ctx : ContextId) (at : Timestamp) (body : EventBody Decimal) (g : Inner Decimal)
      → LeftAlone ctx at body g ⊎ Committed ctx at body g
  unfolding append
  append-cases ctx at body g = elim (Result-cases (check_body g ctx at body)) [
    | inr (failure, h) ↦ inl (rw h (refl, refl))
    | inl (refuse o, h) ↦ inl (rw h (refuse_not_appended g ctx at body o h, refl))
    | inl (proceed fx, h) ↦ elim (Result-cases (next_event g ctx at body)) [
      | inr (failure, k) ↦ inl (rw (h, k, append_verdict) (refl, refl))
      | inl (e, k) ↦ commit-cases ctx at body g fx e h k
    ]
  ]

  -- An append that does not append, refused by a rule or failing, in its second phase too, leaves the
  -- store as it was.
  pub append_atomic :
      (ctx : ContextId) (at : Timestamp) (body : EventBody Decimal) (g : Inner Decimal)
      → was_appended (append ctx at body g).0 ≡ false
      → (append ctx at body g).1 ≡ g
  append_atomic ctx at body g h = elim (append-cases ctx at body g) [
    | inl alone ↦ alone.1
    | inr c ↦ absurd (
        true-ne-false (
          ap (λ (o : Result StoreError (AppendOutcome Decimal) × Inner Decimal). was_appended o.0)
            (sym c.result)
          ∙ h))
  ]
