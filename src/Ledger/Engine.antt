-- ===== src/Ledger/Engine.antt =====
-- `struct Ledger`, and the parts that every decision uses (crates/ml-core/src/ledger.rs).
use mandate_ledger.Prelude.{true, false, Option, none, some, [], ◌∷◌}
use mandate_ledger.Text.{codes}
use mandate_ledger.Time.{Timestamp}
use mandate_ledger.Ids.{ContextId, MandateId}
use mandate_ledger.State.{PaymentState}
use mandate_ledger.Reason.{DenyReason, Stage}
use mandate_ledger.Mandate.Errors.{Detail}
use mandate_ledger.Mandate.Body.{SignerPolicy}
use mandate_ledger.Event.{EventBody, denied_event}
use mandate_ledger.Evidence.{EvidenceBundle, new_bundle}
use mandate_ledger.Error.{denied}
use mandate_ledger.Rail.{Rail}
use mandate_ledger.Store.Interface.{Record, AppendOutcome, appended, denials_capped, Store}
use mandate_ledger.Ledger.Action.{Action, pure, throw, call, ◌>>=◌}
use mandate_ledger.Ledger.Tokens.{corrupted}

-- The engine during one call: `now` is what the clock says. The store is the state of an `Action`.
pub record Ledger (Decimal Proof Finality : Type 0) : Type 0 where
  pub rail : Rail Decimal Proof Finality
  pub signers : SignerPolicy
  pub now : Timestamp

abbrev pub option_state : {Decimal : Type 0} → Option (Record Decimal) → Option PaymentState
option_state none = none
option_state (some r) = some r.state

module _ {Decimal S : Type 0} ⦃st : Store Decimal S⦄ where
  -- The outcome of a refusal's append. (The source puts the `Debug` text of the outcome behind the
  -- message of the last case.)
  abbrev pub denied_with :
      {A : Type 0}
      → ContextId
      → Stage
      → DenyReason
      → Detail Decimal
      → AppendOutcome Decimal
      → Action Decimal S A
  denied_with ctx stage reason detail (appended e) = throw (
      denied
        (record { ctx = ctx; stage = stage; reason = reason; detail = detail; recorded = true }))
  denied_with ctx stage reason detail denials_capped = throw (
      denied
        (record { ctx = ctx; stage = stage; reason = reason; detail = detail; recorded = false }))
  denied_with ctx stage reason detail _ = throw (corrupted (codes "unexpected append outcome"))

  -- `Ledger::deny`
  unfoldable pub deny :
      {A : Type 0}
      → Timestamp
      → ContextId
      → Stage
      → DenyReason
      → Detail Decimal
      → Action Decimal S A
  deny now ctx stage reason detail =
      call (st.append ctx now (denied_event stage reason detail))
      >>= denied_with ctx stage reason detail

  abbrev pub plain_outcome : AppendOutcome Decimal → Action Decimal S (Unit {0})
  plain_outcome (appended e) = pure tt
  plain_outcome _ = throw (corrupted (codes "unexpected append outcome"))

  -- `Ledger::append_plain`
  unfoldable pub append_plain :
      Timestamp → ContextId → EventBody Decimal → Action Decimal S (Unit {0})
  append_plain now ctx body = call (st.append ctx now body) >>= plain_outcome

  -- `Ledger::state`
  unfoldable pub state : ContextId → Action Decimal S (Option PaymentState)
  state ctx = call (st.get_record ctx) >>= λ r. pure (option_state r)

  -- `Ledger::revoke`
  unfoldable pub revoke : MandateId → Action Decimal S (Unit {0})
  revoke mandate = call (st.revoke mandate)

  -- `Ledger::evidence`
  unfoldable pub evidence :
      Timestamp → ContextId → Action Decimal S (Option (EvidenceBundle Decimal))
  evidence now ctx = call (st.events ctx) >>= λ events. elim events [
    | [] ↦ pure none
    | e ∷ rest ↦ pure (some (new_bundle ctx now (e ∷ rest)))
  ]
