-- ===== src/Ledger/Outcome.antt =====
-- What an engine call that returns a value has gone through: its steps returned, and none refused.
use mandate_ledger.Prelude.{◌≡◌, refl, arith, Result, ok, err, map_err}
use mandate_ledger.Time.{Timestamp}
use mandate_ledger.Ids.{ContextId}
use mandate_ledger.Reason.{Stage, DenyReason}
use mandate_ledger.Mandate.Errors.{Detail}
use mandate_ledger.Error.{StoreError, LedgerError, store_error}
use mandate_ledger.Event.{denied_event}
use mandate_ledger.Store.Interface.{
  AppendOutcome, appended, budget_exceeded, velocity_exceeded, nonce_already_used, revoked,
  denials_capped, Method, Store,
}
use mandate_ledger.Ledger.Action.{Action, call, lift, ◌>>=◌}
use mandate_ledger.Ledger.Engine.{denied_with, deny, plain_outcome}

module _ {Decimal S A B : Type 0} where
  -- The value that the first part of a bind has returned.
  pub record Bound (a : Action Decimal S A) (f : A → Action Decimal S B) (s : S) (x : B)
      : Type 0 where
    pub value : A
    pub first : (a s).0 ≡ ok value
    pub rest : (f value (a s).1).0 ≡ ok x
    pub final : ((a >>= f) s).1 ≡ (f value (a s).1).1

  bound_from :
      (f : A → Action Decimal S B) (r : Result (LedgerError Decimal) A) (s : S) {x : B}
      → ((lift r >>= f) s).0 ≡ ok x
      → (y : A) × (r ≡ ok y) × ((f y s).0 ≡ ok x) × (((lift r >>= f) s).1 ≡ (f y s).1)
  bound_from f (ok y) s h = (y, refl, h, refl)
  bound_from f (err e) s h = cc

  pub bind-Bound :
      (a : Action Decimal S A) (f : A → Action Decimal S B) (s : S) {x : B}
      → ((a >>= f) s).0 ≡ ok x
      → Bound a f s x
  bind-Bound a f s h =
      let found = bound_from f (a s).0 (a s).1 h in
      record { value = found.0; first = found.1; rest = found.2; final = found.3 }

map_err-ok :
    {Decimal X : Type 0} (r : Result StoreError X) {x : X}
    → map_err {F = LedgerError Decimal} store_error r ≡ ok x
    → r ≡ ok x
map_err-ok r h = ground arith

module _ {Decimal S : Type 0} where
  pub call-ok :
      {X : Type 0} (m : Method S X) (s : S) {x : X}
      → (call {Decimal = Decimal} m s).0 ≡ ok x
      → (m s).0 ≡ ok x
  call-ok m s h = map_err-ok {Decimal = Decimal} (m s).0 h

module _ {Decimal S : Type 0} ⦃st : Store Decimal S⦄ where
  denied_with-fails :
      {A : Type 0} (ctx : ContextId) (stage : Stage) (reason : DenyReason) (detail : Detail Decimal)
      (o : AppendOutcome Decimal) (s : S) {x : A}
      → (denied_with {S = S} ctx stage reason detail o s).0 ≡ ok x
      → ⊥
  denied_with-fails ctx stage reason detail (appended e) s h = cc
  denied_with-fails ctx stage reason detail (budget_exceeded m) s h = cc
  denied_with-fails ctx stage reason detail (velocity_exceeded n) s h = cc
  denied_with-fails ctx stage reason detail nonce_already_used s h = cc
  denied_with-fails ctx stage reason detail revoked s h = cc
  denied_with-fails ctx stage reason detail denials_capped s h = cc

  -- A refusal never returns a value.
  pub deny-fails :
      {A : Type 0} (now : Timestamp) (ctx : ContextId) (stage : Stage) (reason : DenyReason)
      (detail : Detail Decimal) (s : S) {x : A}
      → (deny now ctx stage reason detail s).0 ≡ ok x
      → ⊥
  unfolding deny
  deny-fails now ctx stage reason detail s h =
      let b =
        bind-Bound (call (st.append ctx now (denied_event stage reason detail)))
          (denied_with ctx stage reason detail) s h in
      denied_with-fails ctx stage reason detail b.value _ b.rest

  plain_appended :
      (o : AppendOutcome Decimal) (s : S) {x : Unit {0}}
      → (plain_outcome {S = S} o s).0 ≡ ok x
      → (e : _) × (o ≡ appended e)
  plain_appended (appended e) s h = (e, refl)
  plain_appended (budget_exceeded m) s h = cc
  plain_appended (velocity_exceeded n) s h = cc
  plain_appended nonce_already_used s h = cc
  plain_appended revoked s h = cc
  plain_appended denials_capped s h = cc
